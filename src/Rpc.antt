-- ===== src/Rpc.antt =====
-- crates/ursa-rpc-server: the interface to the node, the handlers of its routes, and
-- the calls of crates/ursa-rpc-client.
pub mod Api
pub mod Routes
pub mod Client
pub mod Multiplex
pub mod Functions
pub mod Server
mod Tests
