-- ===== src/Spark/Reader.antt =====
-- src/mcp_stdio/plugins/spark/inspection_reader.py: the loop of `VerifiedEventLogReader.read` over the
-- lines of an event log, and the checks after it. The JSON of a line, the digest and whether the file
-- stood still are parameters.
pub mod Whole
use etl_mcp_suite.Value.{Value, null, text, mapping, Fields, get_value}
use etl_mcp_suite.Text.{Str, codes, str_eq, is_control}
use etl_mcp_suite.Base.{
  ℕ, ◌+◌, ◌-◌, Bool, true, false, ◌&&◌, ◌||◌, not, Option, none, some, List, [], ◌∷◌, ◌++◌, ltb,
  leb, ◌==◌, if◌then◌else◌, length, take, is_empty, any, Result, ok, err, ◌>>=◌,
}

-- What the manifest says of the selected file.
pub record SelectedFile : Type 0 where
  pub application_id : Str
  pub attempt_id : Option Str
  pub spark_version : Str
  pub event_count : ℕ
  pub size_bytes : ℕ
  pub sha256 : Str
  pub application_end_seen : Bool

-- `spark_error(ErrorCategory.UNEXPECTED_RESPONSE)`
pub data ReadError : Type 0 where
  unexpected_response : ReadError

pub record VerifiedScan : Type 0 where
  pub spark_version : Str
  pub event_count : ℕ
  pub application_start_seen : Bool
  pub application_end_seen : Bool

-- The variables of the loop; `digested` is what the digest has been updated with.
pub record Progress : Type 0 where
  pub count : ℕ
  pub size : ℕ
  pub digested : List (List ℕ)
  pub version : Option Str
  pub start_seen : Bool
  pub end_seen : Bool

abbrev pub unread : Progress
unread = record {
  count = 0;
  size = 0;
  digested = [];
  version = none;
  start_seen = false;
  end_seen = false;
}

-- `value != wanted`, for a text or None
abbrev pub is_value : Option Str → Value → Bool
is_value (some s) (text t) = str_eq t s
is_value none null = true
is_value _ _ = false

-- The name of an event.
unfoldable pub event_name : Value → Result ReadError Str
event_name (text name) =
    if ltb 0 (length name) && leb (length name) 512 && not (any is_control name)
    then ok name
    else err unexpected_response
event_name _ = err unexpected_response

-- The event that a line holds.
unfoldable pub event_of : Option Value → Result ReadError Fields
event_of (some (mapping event)) = ok event
event_of _ = err unexpected_response

module _ (selected : SelectedFile) where
  -- The checks of an event by its name, and what it says of the file.
  unfoldable pub check_event : Str → Fields → Progress → Result ReadError Progress
  check_event name event p =
      if str_eq name (codes "SparkListenerLogStart")
      then if is_value (some selected.spark_version) (get_value (codes "Spark Version") event)
        then ok (record {
          count = p.count;
          size = p.size;
          digested = p.digested;
          version = some selected.spark_version;
          start_seen = p.start_seen;
          end_seen = p.end_seen;
        })
        else err unexpected_response
      else if str_eq name (codes "SparkListenerApplicationStart")
      then if is_value (some selected.application_id) (get_value (codes "App ID") event)
          && is_value selected.attempt_id (get_value (codes "App Attempt ID") event)
        then ok (record {
          count = p.count;
          size = p.size;
          digested = p.digested;
          version = p.version;
          start_seen = true;
          end_seen = p.end_seen;
        })
        else err unexpected_response
      else ok p

  -- `end |= name == …`
  unfoldable pub see_end : Str → Progress → Progress
  see_end name p = record {
    count = p.count;
    size = p.size;
    digested = p.digested;
    version = p.version;
    start_seen = p.start_seen;
    end_seen = p.end_seen || str_eq name (codes "SparkListenerApplicationEnd");
  }

  module _ (max_bytes : ℕ) (json : List ℕ → Option Value) where
    -- A line that has been read, within the limits.
    unfoldable pub count_line : List ℕ → Progress → Result ReadError Progress
    count_line raw p =
        if ltb max_bytes (p.size + length raw) || ltb selected.event_count (p.count + 1)
        then err unexpected_response
        else ok (record {
          count = p.count + 1;
          size = p.size + length raw;
          digested = p.digested ++ raw ∷ [];
          version = p.version;
          start_seen = p.start_seen;
          end_seen = p.end_seen;
        })

    -- A line: what it adds, and its event.
    unfoldable pub read_line : List ℕ → Progress → Result ReadError (Progress × Fields)
    read_line raw p = count_line raw p >>= λ counted. event_of (json raw) >>= λ event.
        event_name (get_value (codes "Event") event) >>= λ name.
        check_event name event counted >>= λ checked. ok (see_end name checked, event)

    -- `stream.readline(self._settings.max_bytes - size + 1)`
    abbrev pub limited : Progress → List ℕ → List ℕ
    limited p line = take (max_bytes - p.size + 1) line

    -- The loop over the lines of the file, with the visitor's state.
    unfoldable pub read_lines :
        {S : Type 0}
        → (ℕ → Fields → S → S)
        → List (List ℕ)
        → Progress
        → S
        → Result ReadError (Progress × S)
    read_lines visitor [] p s = ok (p, s)
    read_lines visitor (line ∷ lines) p s =
        if is_empty (limited p line)
        then ok (p, s)
        else read_line (limited p line) p >>= λ (p', event).
            read_lines visitor lines p' (visitor p'.count event s)

    module _ (digest : List (List ℕ) → Str) (stood_still : Bool) where
      abbrev pub is_verified : Progress → Bool
      is_verified p =
          p.size == selected.size_bytes
          && p.count == selected.event_count
          && str_eq (digest p.digested) selected.sha256
          && p.start_seen
          && (p.end_seen && selected.application_end_seen
              || not p.end_seen && not selected.application_end_seen)
          && stood_still

      -- The checks after the loop, by the version that it has seen.
      unfoldable pub verified : Option Str → Progress → Result ReadError VerifiedScan
      verified none p = err unexpected_response
      verified (some version) p =
          if is_verified p
          then ok (record {
            spark_version = version;
            event_count = p.count;
            application_start_seen = p.start_seen;
            application_end_seen = p.end_seen;
          })
          else err unexpected_response

      -- `read`, behind the checks of the manifest.
      unfoldable pub read_file :
          {S : Type 0}
          → (ℕ → Fields → S → S)
          → List (List ℕ)
          → S
          → Result ReadError (VerifiedScan × S)
      read_file visitor lines s = read_lines visitor lines unread s >>= λ (p, s').
          verified p.version p >>= λ scan. ok (scan, s')
