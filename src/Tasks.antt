-- ===== src/Tasks.antt =====
-- app/tasks: the Celery tasks, and the signal handlers around them.
pub mod Rows
pub mod Lifecycle
pub mod Finalize
pub mod Archive
pub mod Maintenance
pub mod Router
pub mod Queues
pub mod Metadata
