-- ===== src/Gateway.antt =====
-- The package `gateway` of the repository: message bodies, routing tables, the sharded map, the
-- router.
pub mod Bodies
pub mod ShardMap
pub mod Pools
pub mod Routes
pub mod Admission
pub mod Decimal
pub mod Store
pub mod Router
pub mod Server
pub mod Sessions
pub mod Examples
