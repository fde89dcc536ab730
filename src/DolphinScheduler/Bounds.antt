-- ===== src/DolphinScheduler/Bounds.antt =====
-- The bounds of what the scheduler service asks of the gateway, and of what it answers.
pub mod Calls
pub mod Answers
use etl_mcp_suite.Value.{pos}
use etl_mcp_suite.DolphinScheduler.Models.{ObjectSummary}
use etl_mcp_suite.DolphinScheduler.Gateway.{GatewayCall}
use etl_mcp_suite.DolphinScheduler.Runs.{Answer, Request}
use etl_mcp_suite.DolphinScheduler.Pages.{Limits}
use etl_mcp_suite.Base.{
  ℕ, zero, suc, ◌+◌, ◌-◌, ◌*◌, ◌/◌, ◌%◌, ◌^◌, ◌≤◌, ◌<◌, min, ◌≡◌, refl, sym, ap, ◌∙◌, subst, ◌≢◌,
  ◌↔◌, ◌⊎◌, inl, inr, Bool, true, false, ◌&&◌, ◌||◌, not, Option, none, some, List, [], ◌∷◌, ◌++◌,
  map, foldl, append-nil, append_assoc, arith, ltb, leb, ◌==◌, if◌then◌else◌, ltb→lt, lt→ltb,
  leb→le, ==_iff, tests, Bool-cases, Option-cases, &&-eq-true, ||-eq-false, length, take, drop,
  is_empty, any, all, filter, All, length-append, length-take-le, all-append, All-append, All-map,
  All-filter, length-filter-le, drop-append_one, Result, ok, err, Ensures, returns, raises,
  Ensures-any, of_Ensures, Ensures-if, Ensures-bind, ◌>>=◌, ◌>>◌, raise_if, Result-cases, >>=-eq-ok,
}

-- Sizes and pages that the limits allow.
abbrev pub IsSize : Limits → ℕ → Type 0
IsSize limits size =
    (1 ≤ size) × ((size ≡ limits.default_page_size) ⊎ (size ≤ limits.max_page_size))

abbrev pub IsPage : Limits → ℕ → ℕ → Type 0
IsPage limits page_no page_size = (1 ≤ page_no) × IsSize limits page_size

-- A call that the limits allow, in a request that may or may not start a workflow.
abbrev pub IsBounded : Limits → Bool → GatewayCall → Type 0
IsBounded limits starts (GatewayCall.search_projects _ n size) = IsPage limits n size
IsBounded limits starts (GatewayCall.search_workflows _ _ n size) = IsPage limits n size
IsBounded limits starts (GatewayCall.query_nodes _ _ n size) = IsPage limits n size
IsBounded limits starts (GatewayCall.query_process_instances _ _ _ n size) = IsPage limits n size
IsBounded limits starts (GatewayCall.query_task_instances _ _ _ _ n size) = IsPage limits n size
IsBounded limits starts (GatewayCall.start_workflow _ _ dry_run _ _) =
    (starts ≡ true) × ((dry_run ≡ pos 0) ⊎ (dry_run ≡ pos 1))
IsBounded limits starts (GatewayCall.get_task_log _ _ skip lines) =
    ((n : ℕ) × (skip ≡ pos n)) × ((m : ℕ) × (lines ≡ pos m) × IsSize limits m)
IsBounded limits starts _ = Unit

-- Whether the request is to start a workflow.
abbrev pub is_start : Request → Bool
is_start (Request.start_workflow _ _ _ _ _) = true
is_start _ = false

-- The limits that the configuration allows.
pub record IsConfigured (limits : Limits) : Type 0 where
  pub default_positive : 1 ≤ limits.default_page_size
  pub max_positive : 1 ≤ limits.max_page_size

-- An answer with no list that is longer than the limit.
abbrev pub IsSmall : ℕ → Answer → Type 0
IsSmall n (Answer.status r) = (length r.servers ≤ n) × (r.server_count ≡ length r.servers)
IsSmall n (Answer.listing r) = length r.items ≤ n
IsSmall n (Answer.object r) = (l : List ObjectSummary) → r.related ≡ some l → length l ≤ n
IsSmall n (Answer.started r) = Unit
IsSmall n (Answer.log r) = Unit
IsSmall n (Answer.links r) = (length r.yarn_application_ids ≤ n) × (length r.spark_ui_urls ≤ n)
