-- ===== src/System.antt =====
-- The processes together: what each handler and each task may do to the rows of the jobs.
pub mod Spec
pub mod Rows
pub mod Handlers
pub mod Guarded
pub mod Extraction
pub mod Finalizing
pub mod Requests
pub mod Lives
pub mod Bundling
pub mod Steps
pub mod Refinement
pub mod Attempts
pub mod Completion
pub mod Late
pub mod Pipeline
pub mod Exposed
