-- ===== src/DolphinScheduler.antt =====
-- src/mcp_stdio/plugins/dolphinscheduler: the scheduler plugin.
pub mod Gateway
pub mod Models
pub mod Pages
pub mod Links
pub mod Service
pub mod Objects
pub mod Runs
pub mod Bounds
pub mod Http
