-- ===== src/Start.antt =====
-- src/main.rs's `main`: the files that a start finds, the migration of src/db.rs, the directories and
-- the scan of src/files.rs, the environments of src/render.rs, and the state that is served then.
pub mod Volume
pub mod Database
pub mod Directories
pub mod Renderer
pub mod Main
pub mod Ends
pub mod Kept
pub mod Stages
pub mod Migrations
pub mod Opening
pub mod Scan
pub mod Served
pub mod Outcome
pub mod Restart
mod Tests
