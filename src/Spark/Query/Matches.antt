-- ===== src/Spark/Query/Matches.antt =====
-- The events that match behind a line, cut into a page and the events behind the page.
use etl_mcp_suite.Value.{Fields}
use etl_mcp_suite.Text.{Str}
use etl_mcp_suite.Spark.Query.{Evidence, QueryRequest, evidence_of, is_matched, last_line}
use etl_mcp_suite.Spark.Query.Scanned.{match_at, matches_after}
use etl_mcp_suite.Base.{
  ℕ, zero, suc, ◌+◌, ◌≤◌, ◌<◌, ◌≡◌, refl, sym, ap, ◌∙◌, subst, ◌⊎◌, inl, inr, Bool, true, false,
  ◌&&◌, some, List, [], ◌∷◌, ◌++◌, arith, ltb, Bool-cases, take, All,
}

module _ (event_details : Fields → Str × Bool) (request : QueryRequest) where
  -- Behind lines that are all before it, a file matches alike.
  matches_after-alike :
      (m n line : ℕ) (events : List Fields)
      → m < line
      → n < line
      → matches_after event_details request m line events
        ≡ matches_after event_details request n line events
  unfolding matches_after match_at
  matches_after-alike m n line [] h k = refl
  matches_after-alike m n line (event ∷ events) h k =
      let same : ltb m line ≡ ltb n line = ground arith in
      rw (same, matches_after-alike m n (line + 1) events (omega arith) (omega arith)) refl

  matches_after-late :
      (low after line : ℕ) (events : List Fields)
      → low ≤ line
      → All (λ e. low ≤ e.line) (matches_after event_details request after line events)
  unfolding matches_after match_at evidence_of
  matches_after-late low after line [] h = tt
  matches_after-late low after line (event ∷ events) h =
      let rest = matches_after-late low after (line + 1) events (omega arith) in
      elim (Bool-cases (is_matched request line event && ltb after line)) [
        | inl shown ↦ rw shown (h, rest)
        | inr hidden ↦ rw hidden rest
      ]

  All-take : (P : Evidence → Type 0) (k : ℕ) (es : List Evidence) → All P es → All P (take k es)
  All-take P zero es h = tt
  All-take P (suc k) [] h = tt
  All-take P (suc k) (e ∷ es) (h, hs) = (h, All-take P k es hs)

  last_line-cons :
      (e : Evidence) (es : List Evidence) (n : ℕ)
      → last_line (e ∷ es) ≡ some n
      → ((es ≡ []) × (n ≡ e.line)) ⊎ (last_line es ≡ some n)
  unfolding last_line
  last_line-cons e [] n h = inl (refl, ground arith)
  last_line-cons e (f ∷ es) n h = inr h

  last_line-late :
      (low n : ℕ) (es : List Evidence)
      → All (λ e. low ≤ e.line) es
      → last_line es ≡ some n
      → low ≤ n
  unfolding last_line
  last_line-late low n [] h l = cc
  last_line-late low n (e ∷ []) (h, hs) l = ground arith
  last_line-late low n (e ∷ f ∷ es) (h, hs) l = last_line-late low n (f ∷ es) hs l

  match_at-hidden :
      (n line : ℕ) (event : Fields) → line ≤ n → match_at event_details request n line event ≡ []
  unfolding match_at
  match_at-hidden n line event h =
      let hidden : ltb n line ≡ false = ground arith in
      elim (Bool-cases (is_matched request line event)) [
        | inl m ↦ rw (m, hidden) refl
        | inr m ↦ rw m refl
      ]

  page-step :
      (k n : ℕ) (e : Evidence) (es rest : List Evidence)
      → last_line (take (suc k) (e ∷ es)) ≡ some n
      → (n ≡ e.line → es ≡ rest)
      → (last_line (take k es) ≡ some n → es ≡ take k es ++ rest)
      → e ∷ es ≡ take (suc k) (e ∷ es) ++ rest
  page-step k n e es rest h f g = elim (last_line-cons e (take k es) n h) [
    | inl (nothing, here) ↦ ap (λ x. e ∷ x) (f here) ∙ ap (λ x. e ∷ x ++ rest) (sym nothing)
    | inr later ↦ ap (λ x. e ∷ x) (g later)
  ]

  late_last_line :
      (k after line n : ℕ) (events : List Fields)
      → last_line (take k (matches_after event_details request after line events)) ≡ some n
      → line ≤ n
  late_last_line k after line n events h =
      last_line-late line n (take k (matches_after event_details request after line events))
        (All-take (λ e. line ≤ e.line) k (matches_after event_details request after line events)
          (matches_after-late line after line events (omega arith)))
        h

  none_last : {A : Type 0} (k n : ℕ) → last_line (take k []) ≡ some n → A
  unfolding last_line
  none_last zero n h = cc
  none_last (suc k) n h = cc

  match_at-shown :
      (after line : ℕ) (event : Fields)
      → (is_matched request line event && ltb after line) ≡ true
      → match_at event_details request after line event ≡ evidence_of event_details line event ∷ []
  unfolding match_at
  match_at-shown after line event h = rw h refl

  match_at-not_shown :
      (after line : ℕ) (event : Fields)
      → (is_matched request line event && ltb after line) ≡ false
      → match_at event_details request after line event ≡ []
  unfolding match_at
  match_at-not_shown after line event h = rw h refl

  evidence_of-line :
      (line : ℕ) (event : Fields) → (evidence_of event_details line event).line ≡ line
  unfolding evidence_of
  evidence_of-line line event = refl

  -- What matches behind a line is a page of it, and what matches behind the last line of that page.
  pub matches_after-page :
      (k after line n : ℕ) (events : List Fields)
      → last_line (take k (matches_after event_details request after line events)) ≡ some n
      → matches_after event_details request after line events
        ≡ take k (matches_after event_details request after line events)
          ++ matches_after event_details request n line events
  unfolding matches_after
  matches_after-page zero after line n events h = none_last zero n h
  matches_after-page (suc k) after line n [] h = none_last (suc k) n h
  matches_after-page (suc k) after line n (event ∷ events) h =
      let passed = late_last_line (suc k) after line n (event ∷ events) h in
      let hidden = match_at-hidden n line event passed in
      elim (Bool-cases (is_matched request line event && ltb after line)) [
        | inl shown ↦
            let now = match_at-shown after line event shown in
            let more = matches_after event_details request after (line + 1) events in
            let before : after < line = ground arith in
            rw (now, hidden)
              (page-step k n (evidence_of event_details line event) more
                (matches_after event_details request n (line + 1) events)
                (subst (λ ms. last_line (take (suc k) (ms ++ more)) ≡ some n) now h)
                (λ e.
                  matches_after-alike after n (line + 1) events (omega arith)
                    (omega (arith, e ∙ evidence_of-line line event)))
                (λ l. matches_after-page k after (line + 1) n events l))
        | inr skipped ↦
            let now = match_at-not_shown after line event skipped in
            let more = matches_after event_details request after (line + 1) events in
            rw (now, hidden)
              (matches_after-page (suc k) after (line + 1) n events
                (subst (λ ms. last_line (take (suc k) (ms ++ more)) ≡ some n) now h))
      ]
