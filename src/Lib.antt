-- ===== src/Lib.antt =====
-- Verification library of the MCP suite: an MCP server over stdio whose plugins give read access to
-- data platforms, Hive, Zeppelin, DolphinScheduler and Spark. A tool call reaches a plugin's service,
-- which validates the arguments, calls a gateway (the adapter of the platform) and answers with a
-- result model or with a categorized error; the error boundary makes the payload of that error, from
-- which secrets are removed.
--
-- Files and the code that they model:
-- Errors, Errors/Safety: src/mcp_stdio/core/errors.py. Categories, `ToolError.create`, `to_dict`,
--   `safe_error_identifiers` and `unexpected_tool_error`.
-- Hive/Identifiers: src/mcp_stdio/plugins/hive/identifiers.py (`HiveIdentifier`, `quoted`).
-- Hive/Models: src/mcp_stdio/plugins/hive/models.py, gateway.py: results and calls of the gateway.
-- Hive/Parser: src/mcp_stdio/plugins/hive/parser.py (`parse_describe_rows`,
--   `parse_show_create_rows`), with the rows that describe a table in
--   Hive/Parser/Description.
-- Hive/Cache: src/mcp_stdio/plugins/hive/cache.py: keys and results; Hive/Cache/Entries has the methods
--   `_get`, `_put` and `get_or_load` of `HiveMetadataCache`.
-- Hive/Service: src/mcp_stdio/plugins/hive/service.py: the use cases, and `handle` for any of them.
-- Zeppelin/Validators: src/mcp_stdio/plugins/zeppelin/models.py, the status map and the validators
--   (`validate_opaque_id`, `parse_paragraph_interpreter`, `validate_sh_command`); Zeppelin/Models has its
--   result models, Zeppelin/Tree `build_notebook_tree`, Zeppelin/Sql `_strip_sql_noise` and
--   `validate_sql_forbidden_keywords`, and Zeppelin/SqlTargets `validate_sql_write_target`, where the
--   class `\w` of the Unicode tables is a parameter.
-- Zeppelin/Safety: src/mcp_stdio/plugins/zeppelin/safety.py: `ParagraphSafetyHook.enforce` over any
--   checkers, and the checkers of interpreters and shell commands.
-- Zeppelin/Gateway: src/mcp_stdio/plugins/zeppelin/gateway.py.
-- Zeppelin/Service, Zeppelin/Interpreters, Zeppelin/Json: src/mcp_stdio/plugins/zeppelin/service.py: the
--   use cases of `ZeppelinNotebookService` and the JSON whose size is bounded; `handle` is any of them.
--   Zeppelin/Requests, Zeppelin/Answers and Zeppelin/Completeness have what is proved of them.
-- Hive/PyHive: src/mcp_stdio/plugins/hive/pyhive.py: the adapter over a driver, whose calls are logged:
--   `session` and `execute_blocking` are `_execute_blocking`, `adapter_call` is any method.
-- DolphinScheduler/Gateway, Models, Pages, Links, Service, Objects, Runs:
--   src/mcp_stdio/plugins/dolphinscheduler/gateway.py and service.py: the parsed objects, the results,
--   `_page_no`, `_capped_page_size`, `_paged`, `_unpaginated` and `_dedupe`, the patterns of links, and
--   the use cases; `handle` in Runs is any of them. DolphinScheduler/Bounds has what is proved of them.
-- DolphinScheduler/Http: src/mcp_stdio/plugins/dolphinscheduler/http_client.py: one exchange
--   (`_request`), the parsers in Http/Parse, and in Http/Methods `http_call`, any method of the gateway.
--   `over_http` in Http/Sent is that gateway as the service calls it: the exchanges of the earlier calls
--   are run again for the requests that the transport has seen.
-- Spark/Events, Metrics, Ranking, Tasks, Stage, Stages: src/mcp_stdio/plugins/spark/metrics.py,
--   metrics_events.py and the readings of an event in inspection_events.py: the two scans
--   `scan_task_distribution` and `scan_stage_metrics` over the events of a file, which `visit_all` hands
--   to `visit_task` or `visit_stage` as the reader does to its visitor.
-- Spark/Reader: src/mcp_stdio/plugins/spark/inspection_reader.py: the loop of `read` over the lines of
--   a file (`read_lines`) and the checks after it (`verified`), behind those of the manifest.
-- Spark/Query, Spark/Overview: src/mcp_stdio/plugins/spark/inspection.py: `_query` and `_inspect` over
--   the events of a file; the projection of an event to its details is a parameter.
-- Effects: requests in steps, with the rules by which a step keeps a property of the state, or returns
--   what has a property.
-- Base, Text, Value, OrderedDict: shared: results, lists, Python's str, values and OrderedDict.
-- Tests: runs at concrete inputs.
--
-- A Python str is a list of code points. A value of any type, as a tool call or a driver hands it
-- over, is a `Value`. An exception is the `err` of a result. An awaited call takes and gives back
-- the shared state (`World`), so that other tasks may change it in between; what runs under a lock
-- is one step. The gateways of Zeppelin and of the scheduler answer as a function of the
-- calls that they have had (`History`). The gateways and the correlation ids are parameters. No
-- function needs fuel: every loop runs over a list that is given.
--
-- Not modelled: httpx, PyHive and JSON, which are parameters, the adapters of Zeppelin over HTTP and
-- WebSocket, the MCP server library, logging, reading of the configuration, the worker thread of the
-- PyHive adapter, the private files, the cache and the executor logs of the Spark plugin, and of
-- Zeppelin's models the truncation of outputs and SQL embedded in other code.
pub mod Base
pub mod Text
pub mod Value
pub mod Errors
pub mod OrderedDict
pub mod Effects
pub mod Hive
pub mod Zeppelin
pub mod DolphinScheduler
pub mod Spark
mod Tests
