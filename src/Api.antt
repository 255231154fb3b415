-- ===== src/Api.antt =====
-- internal/api: the operator's admin API.
pub mod Http
pub mod Agents
pub mod Groups
pub mod Packages
pub mod Deploy
pub mod Connector
pub mod Routes
pub mod Spares
pub mod Reading
pub mod Relaying
pub mod Writing
pub mod Proper
pub mod Served
pub mod Configs
pub mod Uploads
pub mod Assigning
pub mod Listing
