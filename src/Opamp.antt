-- ===== src/Opamp.antt =====
-- internal/opampserver: the OpAMP management server.
pub mod Hex
pub mod Registry
pub mod Resolve
pub mod Proto
pub mod Offers
pub mod Messages
pub mod Push
