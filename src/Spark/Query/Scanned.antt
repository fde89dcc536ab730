-- ===== src/Spark/Query/Scanned.antt =====
-- What the scan of a query keeps of the events that match.
use etl_mcp_suite.Value.{Fields}
use etl_mcp_suite.Text.{Str}
use etl_mcp_suite.Spark.Query.{
  count_match, Evidence, QueryRequest, QueryScan, add_entry, evidence_of, is_matched, visit_query,
}
use etl_mcp_suite.Spark.Tasks.{visit_all}
use etl_mcp_suite.Base.{
  ℕ, zero, suc, ◌+◌, ◌≤◌, ◌≡◌, refl, sym, ap, ◌∙◌, subst, inl, inr, Bool, true, false, ◌&&◌, List,
  [], ◌∷◌, ◌++◌, append-nil, append_assoc, arith, ltb, leb, if◌then◌else◌, Bool-cases, length, take,
  length-append, length-take-le,
}

module _ (event_details : Fields → Str × Bool) (request : QueryRequest) where
  -- An event that matches behind a line.
  unfoldable pub match_at : ℕ → ℕ → Fields → List Evidence
  match_at after line event =
      if is_matched request line event && ltb after line
      then evidence_of event_details line event ∷ []
      else []

  -- The events that match behind a line, of those from a line on.
  unfoldable pub matches_after : ℕ → ℕ → List Fields → List Evidence
  matches_after after line [] = []
  matches_after after line (event ∷ events) =
      match_at after line event ++ matches_after after (line + 1) events

  take-all : (n : ℕ) (es : List Evidence) → length es ≤ n → take n es ≡ es
  take-all zero [] h = refl
  take-all (suc n) [] h = refl
  take-all zero (e ∷ es) h = ground arith
  take-all (suc n) (e ∷ es) h = ap (λ x. e ∷ x) (take-all n es (omega arith))

  append-full : (n : ℕ) (es fs : List Evidence) → length es ≡ n → take n (es ++ fs) ≡ es
  append-full zero [] fs h = refl
  append-full zero (e ∷ es) fs h = ground arith
  append-full (suc n) [] fs h = ground arith
  append-full (suc n) (e ∷ es) fs h = ap (λ x. e ∷ x) (append-full n es fs (omega arith))

  take-append-take : (n : ℕ) (es fs : List Evidence) → take n (take n es ++ fs) ≡ take n (es ++ fs)
  take-append-take zero es fs = refl
  take-append-take (suc n) [] fs = refl
  take-append-take (suc n) (e ∷ es) fs = ap (λ x. e ∷ x) (take-append-take n es fs)

  add_entry-take :
      (n : ℕ) (e : Evidence) (es : List Evidence)
      → length es ≤ n
      → add_entry event_details n e es ≡ take n (es ++ e ∷ [])
  unfolding add_entry
  add_entry-take n e es h = elim (Bool-cases (leb n (length es))) [
    | inl full ↦ rw full (sym (append-full n es (e ∷ []) (ground arith)))
    | inr room ↦
        rw room (sym (take-all n (es ++ e ∷ []) (ground (arith, length-append es (e ∷ [])))))
  ]

  -- What eligible events do to the entries and to their number.
  pub record IsScanned (events : List Evidence) (s t : QueryScan) : Type 0 where
    pub entries : t.entries ≡ take request.limit (s.entries ++ events)
    pub eligible : t.eligible ≡ s.eligible + length events

  nothing-IsScanned :
      (scan : QueryScan) → length scan.entries ≤ request.limit → IsScanned [] scan scan
  nothing-IsScanned scan h = record {
    entries =
        sym (
          ap (take request.limit) (append-nil scan.entries)
          ∙ take-all request.limit scan.entries h);
    eligible = omega arith;
  }

  count_match-IsScanned :
      (line : ℕ) (event : Fields) (scan : QueryScan)
      → length scan.entries ≤ request.limit
      → is_matched request line event ≡ true
      → IsScanned
          (match_at request.after_line line event)
          scan
          (count_match event_details request line event scan)
  unfolding count_match match_at
  count_match-IsScanned line event scan h m = elim (Bool-cases (leb line request.after_line)) [
    | inl passed ↦
        let behind : ltb request.after_line line ≡ false = ground arith in
        let same = nothing-IsScanned scan h in
        rw (m, behind)
          (record { entries = rw passed same.entries; eligible = rw passed same.eligible })
    | inr later ↦
        let behind : ltb request.after_line line ≡ true = ground arith in
        rw (m, behind)
          (record {
            entries = rw later (add_entry-take request.limit _ scan.entries h);
            eligible = rw later refl;
          })
  ]

  visit_query-matched :
      (line : ℕ) (event : Fields) (scan : QueryScan)
      → is_matched request line event ≡ true
      → visit_query event_details request line event scan
        ≡ count_match event_details request line event scan
  unfolding visit_query
  visit_query-matched line event scan m = rw m refl

  visit_query-IsScanned :
      (line : ℕ) (event : Fields) (scan : QueryScan)
      → length scan.entries ≤ request.limit
      → IsScanned
          (match_at request.after_line line event)
          scan
          (visit_query event_details request line event scan)
  unfolding visit_query match_at
  visit_query-IsScanned line event scan h = elim (Bool-cases (is_matched request line event)) [
    | inl m ↦
        subst (IsScanned (match_at request.after_line line event) scan)
          (sym (visit_query-matched line event scan m)) (count_match-IsScanned line event scan h m)
    | inr m ↦ rw m (nothing-IsScanned scan h)
  ]

  pub visit_all-IsScanned :
      (line : ℕ) (events : List Fields) (scan : QueryScan)
      → length scan.entries ≤ request.limit
      → IsScanned
          (matches_after request.after_line line events)
          scan
          (visit_all (visit_query event_details request) line events scan)
  unfolding visit_all matches_after
  visit_all-IsScanned line [] scan h = nothing-IsScanned scan h
  visit_all-IsScanned line (event ∷ events) scan h =
      let now = match_at request.after_line line event in
      let later = matches_after request.after_line (line + 1) events in
      let next = visit_query event_details request line event scan in
      let first = visit_query-IsScanned line event scan h in
      let bounded : length next.entries ≤ request.limit =
        subst (λ es. length es ≤ request.limit) (sym first.entries)
          (length-take-le request.limit (scan.entries ++ now)) in
      let rest = visit_all-IsScanned (line + 1) events next bounded in
      record {
        entries =
            rest.entries
            ∙ ap (λ es. take request.limit (es ++ later)) first.entries
            ∙ take-append-take request.limit (scan.entries ++ now) later
            ∙ ap (take request.limit) (append_assoc scan.entries now later);
        eligible = omega (arith, first.eligible, rest.eligible, length-append now later);
      }
