-- ===== src/Spark.antt =====
-- src/mcp_stdio/plugins/spark: the event log metrics of the Spark plugin.
pub mod Events
pub mod Metrics
pub mod Ranking
pub mod Tasks
pub mod Stage
pub mod Stages
pub mod Reader
pub mod Query
pub mod Overview
