-- ===== src/Services.antt =====
-- deployer/services
pub mod Lock
pub mod Storage
pub mod Proxy
pub mod Notify
pub mod Deployment
pub mod TaskClient
pub mod Health
