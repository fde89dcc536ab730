-- ===== src/Hive.antt =====
-- src/mcp_stdio/plugins/hive: the Hive metadata plugin. Identifiers are validated, rows of metadata
-- are parsed, successful results are cached, and the service puts these together.
pub mod Identifiers
pub mod Models
pub mod Parser
pub mod Cache
pub mod Service
pub mod PyHive
