-- ===== src/Tests/PyHive.antt =====
-- The session of the PyHive adapter, at concrete inputs.
use etl_mcp_suite.Effects.{return, ◌then_do◌}
use etl_mcp_suite.Hive.PyHive.{
  Driver, Failure, close_connection, close_cursor, closed_connection, connect, drive, execute,
  fetch_rows, fetchall, first_failure, force_close, open_cursor, session, snapshot_rows,
  with_connection, with_cursor,
}
use etl_mcp_suite.Hive.PyHive.Closing.{Adds, IsSession, session-IsSession}
use etl_mcp_suite.Text.{codes}
use etl_mcp_suite.Value.{null, sequence, nil}
use etl_mcp_suite.Base.{◌≡◌, refl, none, [], ◌∷◌, ok, err}

-- A driver whose statement fails, and then the closing of the connection.
abbrev failing : Driver
failing (execute _) w = err (Failure.operational none)
failing close_connection w = err Failure.os_error
failing fetchall w = ok (sequence nil)
failing _ w = ok null

program : Unit {0}
unfolding session with_connection with_cursor closed_connection fetch_rows drive snapshot_rows
    first_failure ◌then_do◌ return
program = tt

closed_by_force : session failing (codes "s") [] ≡ (
  err (Failure.operational none),
  connect ∷ open_cursor ∷ execute (codes "s") ∷ close_cursor ∷ close_connection ∷ force_close ∷ [],
)
unfolding program
closed_by_force = refl

session-IsSession_example : Adds (IsSession failing (codes "s") []) (session failing (codes "s")) []
session-IsSession_example = session-IsSession failing (codes "s") []
