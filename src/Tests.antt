-- ===== src/Tests.antt =====
-- Runs of the definitions on concrete data, and the theorems at concrete inputs.
mod Errors
mod Identifiers
mod Parser
mod Cache
mod Service
mod Zeppelin
mod Sql
mod Scheduler
mod Spark
mod PyHive
mod Query
