-- ===== src/Views.antt =====
-- deployer/views: the handlers of the HTTP requests.
pub mod Response
pub mod Application
pub mod Paging
pub mod Task
pub mod Error
