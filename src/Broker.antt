-- ===== src/Broker.antt =====
-- controllers/ensures/broker: what the broker keeps in its config maps.
pub mod GlobalnetMap
pub mod Separation
pub mod Stored
pub mod Rbac
pub mod Token
pub mod Info
pub mod Codec
pub mod Existing
pub mod Ensure
