-- ===== src/Index.antt =====
-- crates/ursa-index-provider: the advertisements of a node's content, and the provider that stores,
-- signs and publishes them.
pub mod Advertisement
pub mod Provider
pub mod SignedHead
pub mod Announcement
