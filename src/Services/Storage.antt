-- ===== src/Services/Storage.antt =====
-- deployer/services/storage
pub mod Collection
pub mod Mongo
pub mod Memory
pub mod Factory
