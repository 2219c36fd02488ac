-- ===== src/Limiter.antt =====
-- gate/src/limiter.rs: admission by identity.
pub mod Address
pub mod Subnets
pub mod Table
pub mod Bucket
pub mod State
pub mod Accept
pub mod Tickets
pub mod Counts
pub mod System
pub mod Examples
