-- ===== src/Spark/Reader/Whole.antt =====
-- A file that the reader accepts has been visited whole.
use etl_mcp_suite.Spark.Reader.{
  is_verified, unread, read_file, verified, VerifiedScan, limited, read_lines, Progress,
  SelectedFile, check_event, count_line, event_name, event_of, read_line, see_end,
}
use etl_mcp_suite.Text.{eq_of_str_eq, str_eq, Str, codes}
use etl_mcp_suite.Base.{
  ℕ, zero, suc, ◌+◌, ◌-◌, ◌≤◌, ◌<◌, ◌≡◌, refl, sym, ap, ◌∙◌, subst, inl, inr, Bool, true, false,
  Option, none, some, List, [], ◌∷◌, ◌++◌, append-nil, append_assoc, arith, if◌then◌else◌,
  Bool-cases, length, take, is_empty, All, ok, >>=-eq-ok,
}
use etl_mcp_suite.Spark.Tasks.{visit_all}
use etl_mcp_suite.Value.{
  Value, null, boolean, integer, text, binary, sequence, opaque, mapping, Fields, get_value,
}

-- The events of lines of JSON.
pub data AreEvents (json : List ℕ → Option Value) : List (List ℕ) → List Fields → Type 0 where
  no_events : AreEvents json [] []
  next_event :
      {line : List ℕ} {lines : List (List ℕ)} {event : Fields} {events : List Fields}
      → json line ≡ some (mapping event)
      → AreEvents json lines events
      → AreEvents json (line ∷ lines) (event ∷ events)

event_of-ok :
    (value : Option Value) (event : Fields)
    → event_of value ≡ ok event
    → value ≡ some (mapping event)
unfolding event_of
event_of-ok none event e = cc
event_of-ok (some null) event e = cc
event_of-ok (some (boolean b)) event e = cc
event_of-ok (some (integer n)) event e = cc
event_of-ok (some (text s)) event e = cc
event_of-ok (some (binary b)) event e = cc
event_of-ok (some (sequence xs)) event e = cc
event_of-ok (some (opaque n)) event e = cc
event_of-ok (some (mapping m)) event e = ground arith

-- The parts of the progress that counting a line sets.
record IsSame (p q : Progress) : Type 0 where
  count : q.count ≡ p.count
  size : q.size ≡ p.size
  digested : q.digested ≡ p.digested

-- What a line adds to the progress.
record Advances (max_bytes : ℕ) (raw : List ℕ) (p q : Progress) : Type 0 where
  count : q.count ≡ p.count + 1
  size : q.size ≡ p.size + length raw
  digested : q.digested ≡ p.digested ++ raw ∷ []
  fits : p.size + length raw ≤ max_bytes

module _ (selected : SelectedFile) where
  check_event-IsSame :
      (name : Str) (event : Fields) (p q : Progress)
      → check_event selected name event p ≡ ok q
      → IsSame p q
  unfolding check_event
  check_event-IsSame name event p q e = record {
    count = ground arith;
    size = ground arith;
    digested = ground arith;
  }

  module _ (max_bytes : ℕ) (json : List ℕ → Option Value) where
    count_line-Advances :
        (raw : List ℕ) (p q : Progress)
        → count_line selected max_bytes json raw p ≡ ok q
        → Advances max_bytes raw p q
    unfolding count_line
    count_line-Advances raw p q e = record {
      count = ground arith;
      size = ground arith;
      digested = ground arith;
      fits = ground arith;
    }

    read_line-Advances :
        (raw : List ℕ) (p q : Progress) (event : Fields)
        → read_line selected max_bytes json raw p ≡ ok (q, event)
        → Advances max_bytes raw p q × (json raw ≡ some (mapping event))
    unfolding read_line see_end
    read_line-Advances raw p q event e =
        let (counted, e1, f1) = >>=-eq-ok (count_line selected max_bytes json raw p) _ e in
        let (found, e2, f2) = >>=-eq-ok (event_of (json raw)) _ f1 in
        let (name, e3, f3) = >>=-eq-ok (event_name (get_value (codes "Event") found)) _ f2 in
        let (checked, e4, f4) = >>=-eq-ok (check_event selected name found counted) _ f3 in
        let a = count_line-Advances raw p counted e1 in
        let s = check_event-IsSame name found counted checked e4 in
        let last : see_end selected name checked ≡ q = ground arith in
        let same : found ≡ event = ground arith in
        (
          record {
            count = ap (λ x. x.count) (sym last) ∙ s.count ∙ a.count;
            size = ap (λ x. x.size) (sym last) ∙ s.size ∙ a.size;
            digested = ap (λ x. x.digested) (sym last) ∙ s.digested ∙ a.digested;
            fits = a.fits;
          },
          subst (λ x. json raw ≡ some (mapping x)) same (event_of-ok (json raw) found e2),
        )

of_false : {A : Type 0} (b : Bool) (x y : A) {z : A} → b ≡ false → (if b then x else y) ≡ z → y ≡ z
of_false true x y h e = cc
of_false false x y h e = e

take-short : (n : ℕ) (l : List ℕ) → length (take n l) < n → take n l ≡ l
take-short zero l h = ground arith
take-short (suc n) [] h = refl
take-short (suc n) (x ∷ l) h = ap (λ t. x ∷ t) (take-short n l (omega arith))

take-some : (n : ℕ) (l : List ℕ) → 0 < n → 0 < length l → is_empty (take n l) ≡ false
take-some zero l h k = ground arith
take-some (suc n) [] h k = ground arith
take-some (suc n) (x ∷ l) h k = refl

-- What has become of the file's lines when the loop ends.
record IsWhole {S : Type 0} (max_bytes : ℕ) (json : List ℕ → Option Value)
    (visitor : ℕ → Fields → S → S) (lines : List (List ℕ)) (p q : Progress) (s t : S) : Type 0 where
  events : List Fields
  are_events : AreEvents json lines events
  visited : t ≡ visit_all visitor (p.count + 1) events s
  count : q.count ≡ p.count + length events
  digested : q.digested ≡ p.digested ++ lines
  fits : q.size ≤ max_bytes

module _ (selected : SelectedFile) (max_bytes : ℕ) (json : List ℕ → Option Value) where
  module _ {S : Type 0} (visitor : ℕ → Fields → S → S) where
    read_lines-IsWhole :
        (lines : List (List ℕ)) (p q : Progress) (s t : S)
        → All (λ line. 0 < length line) lines
        → p.size ≤ max_bytes
        → read_lines selected max_bytes json visitor lines p s ≡ ok (q, t)
        → IsWhole max_bytes json visitor lines p q s t
    unfolding read_lines visit_all
    read_lines-IsWhole [] p q s t h fit e =
        let same : p ≡ q = ground arith in
        let state : s ≡ t = ground arith in
        record {
          events = [];
          are_events = no_events;
          visited = sym state;
          count = ap (λ x. x.count) (sym same) ∙ omega arith;
          digested = ap (λ x. x.digested) (sym same) ∙ sym (append-nil p.digested);
          fits = subst (λ x. x.size ≤ max_bytes) same fit;
        }
    read_lines-IsWhole (line ∷ lines) p q s t (some_line, more) fit e =
        let raw = limited selected max_bytes json p line in
        let full = take-some (max_bytes - p.size + 1) line (omega arith) some_line in
        let (pair, read, continued) =
          >>=-eq-ok (read_line selected max_bytes json raw p) _
            (of_false (is_empty raw) _ _ full e) in
        let (p', event) = pair in
        let (a, parsed) = read_line-Advances selected max_bytes json raw p p' event read in
        let whole : raw ≡ line = take-short (max_bytes - p.size + 1) line (omega (arith, a.fits)) in
        let ih =
          read_lines-IsWhole lines p' q (visitor p'.count event s) t more
            (omega (arith, a.size, a.fits)) continued in
        record {
          events = event ∷ ih.events;
          are_events =
              next_event (subst (λ x. json x ≡ some (mapping event)) whole parsed) ih.are_events;
          visited =
              subst (λ n. t ≡ visit_all visitor (n + 1) ih.events (visitor n event s)) a.count
                ih.visited;
          count = omega (arith, ih.count, a.count);
          digested =
              ih.digested
              ∙ ap (λ d. d ++ lines) (a.digested ∙ ap (λ r. p.digested ++ r ∷ []) whole)
              ∙ append_assoc p.digested (line ∷ []) lines;
          fits = ih.fits;
        }

  -- An accepted file: its lines are events, as many as the manifest says; the visitor has seen each of
  -- them once, in order, with its line from 1 on; and the lines have the digest of the manifest.
  pub record IsAccepted {S : Type 0} (digest : List (List ℕ) → Str) (visitor : ℕ → Fields → S → S)
      (lines : List (List ℕ)) (s : S) (scan : VerifiedScan) (t : S) : Type 0 where
    pub events : List Fields
    pub are_events : AreEvents json lines events
    pub visited : t ≡ visit_all visitor 1 events s
    pub counted : (scan.event_count ≡ length events) × (selected.event_count ≡ length events)
    pub identified : digest lines ≡ selected.sha256

  module _ (digest : List (List ℕ) → Str) (stood_still : Bool) where
    verified-ok :
        (version : Option Str) (p : Progress) (scan : VerifiedScan)
        → verified selected max_bytes json digest stood_still version p ≡ ok scan
        → (str_eq (digest p.digested) selected.sha256 ≡ true)
          × (p.count ≡ selected.event_count)
          × (scan.event_count ≡ p.count)
    unfolding verified
    verified-ok none p scan e = cc
    verified-ok (some version) p scan e =
        elim (Bool-cases (is_verified selected max_bytes json digest stood_still p)) [
          | inl holds ↦ (ground arith, ground arith, ground arith)
          | inr fails ↦ ground arith
        ]

    -- A file without empty lines that the reader accepts has been visited whole.
    pub read_file-IsAccepted :
        {S : Type 0} (visitor : ℕ → Fields → S → S) (lines : List (List ℕ)) (s : S)
        (scan : VerifiedScan) (t : S)
        → All (λ line. 0 < length line) lines
        → read_file selected max_bytes json digest stood_still visitor lines s ≡ ok (scan, t)
        → IsAccepted digest visitor lines s scan t
    unfolding read_file
    read_file-IsAccepted visitor lines s scan t h e =
        let (pair, e1, f1) =
          >>=-eq-ok (read_lines selected max_bytes json visitor lines unread s) _ e in
        let (p, t') = pair in
        let (scan', e2, f2) =
          >>=-eq-ok (verified selected max_bytes json digest stood_still p.version p) _ f1 in
        let state : t' ≡ t = ground arith in
        let found : scan' ≡ scan = ground arith in
        let w = read_lines-IsWhole visitor lines unread p s t' h (omega arith) e1 in
        let (same_digest, same_count, shown) = verified-ok p.version p scan' e2 in
        record {
          events = w.events;
          are_events = w.are_events;
          visited = sym state ∙ w.visited;
          counted = (
            omega (arith, ap (λ x. x.event_count) found, shown, w.count),
            omega (arith, same_count, w.count),
          );
          identified =
              ap digest (sym w.digested)
              ∙ eq_of_str_eq (digest p.digested) selected.sha256 same_digest;
        }
