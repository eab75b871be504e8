-- ===== src/Registry.antt =====
-- Who is told when a name changes (src/resolve/subscription_registry.rs).
pub mod Buckets
pub mod Defs
pub mod Consistent
pub mod Notified
