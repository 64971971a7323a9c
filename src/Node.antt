-- ===== src/Node.antt =====
-- The binary of a node (crates/ursa): its identity, its configuration, and what `main` starts and stops.
pub mod Identity
pub mod Config
pub mod Main
pub mod Lifecycle
