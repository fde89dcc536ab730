-- ===== src/DolphinScheduler/Pages.antt =====
-- src/mcp_stdio/plugins/dolphinscheduler/service.py: page numbers and sizes, the listings of pages, and
-- the removal of duplicates.
pub mod Deduped
use etl_mcp_suite.DolphinScheduler.Models.{ListObjectsResult, ObjectSummary}
use etl_mcp_suite.Value.{negsuc, pos, ℤ}
use etl_mcp_suite.Text.{mem_str, Str}
use etl_mcp_suite.DolphinScheduler.Gateway.{RawPage}
use etl_mcp_suite.Base.{
  ℕ, ◌*◌, min, Bool, false, Option, none, some, List, [], ◌∷◌, map, ltb, if◌then◌else◌, length,
  take,
}

-- `_page_no`
unfoldable pub bounded_page_no : ℤ → ℕ
bounded_page_no (pos n) = if ltb n 1 then 1 else n
bounded_page_no (negsuc _) = 1

-- The limits of `DolphinSchedulerStatusService.__init__`. `max_log_bytes` is never read.
pub record Limits : Type 0 where
  pub max_detail_items : ℕ
  pub default_page_size : ℕ
  pub max_page_size : ℕ

-- `_capped_page_size`
unfoldable pub capped_page_size : Limits → Option ℤ → ℕ
capped_page_size limits none = limits.default_page_size
capped_page_size limits (some (negsuc _)) = limits.default_page_size
capped_page_size limits (some (pos n)) =
    if ltb n 1 then limits.default_page_size else min n limits.max_page_size

-- `total > n`
abbrev pub exceeds : ℤ → ℕ → Bool
exceeds (pos total) n = ltb n total
exceeds (negsuc _) n = false

-- `_unpaginated`
unfoldable pub unpaginated :
    {A : Type 0} → Limits → Str → List A → ℕ → ℕ → (A → ObjectSummary) → ListObjectsResult
unpaginated limits object_type items page_no page_size mapper =
    let capped = take limits.max_detail_items items in
    record {
      object_type = object_type;
      items = map mapper capped;
      page_no = page_no;
      page_size = page_size;
      total_count = pos (length items);
      truncated = ltb (length capped) (length items);
    }

-- `_paged`
unfoldable pub paged :
    {A : Type 0} → Limits → Str → RawPage A → ℕ → ℕ → (A → ObjectSummary) → ListObjectsResult
paged limits object_type page page_no page_size mapper = record {
  object_type = object_type;
  items = map mapper (take limits.max_detail_items page.items);
  page_no = page_no;
  page_size = page_size;
  total_count = page.total_count;
  truncated = exceeds page.total_count (page_no * page_size);
}

-- The loop of `_dedupe`, behind the values that it has seen.
unfoldable pub dedupe_from : List Str → List Str → List Str
dedupe_from seen [] = []
dedupe_from seen (value ∷ values) =
    if mem_str value seen
    then dedupe_from seen values
    else value ∷ dedupe_from (value ∷ seen) values

-- `_dedupe`
unfoldable pub dedupe : List Str → List Str
dedupe values = dedupe_from [] values
