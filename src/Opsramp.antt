-- ===== src/Opsramp.antt =====
-- internal/opsramp: the client of the OpsRamp REST API, and the connector that owns it.
pub mod Client
pub mod Endpoints
pub mod Connector
pub mod Calls
