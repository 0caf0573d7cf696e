-- ===== src/Tasks.antt =====
-- deployer/tasks: the Celery tasks of a deployment.
pub mod Platform
pub mod Exceptions
pub mod Canvas
pub mod Monad
pub mod Rules
pub mod Fleet
pub mod Start
pub mod Locking
pub mod Promote
pub mod Create
pub mod Check
pub mod Failure
pub mod Upstreams
pub mod Sync
pub mod Results
pub mod Notification
pub mod Runs
mod Tests
