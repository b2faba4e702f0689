-- ===== src/Join.antt =====
-- controllers/join_broker.go: a cluster joins the broker.
pub mod Allocation
pub mod Settings
pub mod Specs
pub mod Sequence
pub mod Gateway
