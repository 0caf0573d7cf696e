-- ===== src/Util.antt =====
-- deployer/util.py
pub mod Merge
pub mod Interval
pub mod Retry
pub mod Text
pub mod Timeout
mod Tests
