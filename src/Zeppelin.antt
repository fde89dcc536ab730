-- ===== src/Zeppelin.antt =====
-- src/mcp_stdio/plugins/zeppelin: the notebook plugin.
pub mod Validators
pub mod Models
pub mod Gateway
pub mod Json
pub mod Safety
pub mod Service
pub mod Interpreters
pub mod Requests
pub mod Answers
pub mod Completeness
pub mod Tree
pub mod Sql
pub mod SqlTargets
