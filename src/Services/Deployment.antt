-- ===== src/Services/Deployment.antt =====
-- deployer/services/deployment.py
pub mod Ports
pub mod Formatting
pub mod Schedule
pub mod Upstreams
pub mod Application
pub mod Defaults
pub mod Clone
