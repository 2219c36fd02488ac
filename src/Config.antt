-- ===== src/Config.antt =====
-- gate/src/config.rs: the parts of the configuration that the other components read.
pub mod Protocol
pub mod Limits
pub mod Settings
pub mod Validate
pub mod File
pub mod Promises
pub mod Examples
