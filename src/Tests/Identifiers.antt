-- ===== src/Tests/Identifiers.antt =====
-- Runs of identifiers.py, and its theorem at a concrete input.
use etl_mcp_suite.Base.{◌≡◌, refl, err}
use etl_mcp_suite.Text.{codes}
use etl_mcp_suite.Value.{text}
use etl_mcp_suite.Hive.Identifiers.{HiveIdentifier, hive_identifier, ValueError}
use etl_mcp_suite.Hive.Identifiers.Quoting.{quoted_unambiguous}

abbrev orders : HiveIdentifier
orders = record { value = codes "orders_2" }

hive_identifier-digit_first : hive_identifier (text (codes "2orders")) ≡ err ValueError.value_error
unfolding hive_identifier
hive_identifier-digit_first = refl

hive_identifier-backtick : hive_identifier (text (codes "a`b")) ≡ err ValueError.value_error
unfolding hive_identifier
hive_identifier-backtick = refl

quoted_unambiguous_example : (orders ≡ orders) × (codes "`; DROP" ≡ codes "`; DROP")
unfolding hive_identifier
quoted_unambiguous_example =
    quoted_unambiguous (text (codes "orders_2")) (text (codes "orders_2")) orders orders
      (codes "`; DROP") (codes "`; DROP") refl refl refl
