-- ===== src/Spark/Query/Paging.antt =====
-- The pages of a query are, one after the other, all events that match.
use etl_mcp_suite.Value.{Fields}
use etl_mcp_suite.Text.{Str}
use etl_mcp_suite.Spark.Query.{
  Evidence, QueryRequest, QueryResult, last_line, no_query, query, query_result, visit_query,
}
use etl_mcp_suite.Spark.Tasks.{visit_all}
use etl_mcp_suite.Spark.Query.Scanned.{matches_after, visit_all-IsScanned}
use etl_mcp_suite.Spark.Query.Matches.{matches_after-page}
use etl_mcp_suite.Base.{
  ℕ, zero, suc, ◌≤◌, ◌<◌, ◌≡◌, refl, sym, ap, ◌∙◌, subst, ◌⊎◌, inl, inr, Bool, true, false, Option,
  none, some, List, [], ◌∷◌, ◌++◌, arith, ltb, if◌then◌else◌, length, take,
}

module _ (event_details : Fields → Str × Bool) (request : QueryRequest) where
  of_none : (b : Bool) (x : Option ℕ) → (if b then x else none) ≡ none → (b ≡ false) ⊎ (x ≡ none)
  of_none true x h = inr h
  of_none false x h = inl refl

  of_some : (b : Bool) (x : Option ℕ) (n : ℕ) → (if b then x else none) ≡ some n → x ≡ some n
  of_some true x n h = h
  of_some false x n h = cc

  last_line-none : (es : List Evidence) → last_line es ≡ none → es ≡ []
  unfolding last_line
  last_line-none [] h = refl
  last_line-none (e ∷ []) h = cc
  last_line-none (e ∷ f ∷ es) h = let none_left = last_line-none (f ∷ es) h in cc

  take-empty : (n : ℕ) (es : List Evidence) → 0 < n → take n es ≡ [] → take n es ≡ es
  take-empty zero es h e = ground arith
  take-empty (suc n) [] h e = refl
  take-empty (suc n) (x ∷ es) h e = cc

  take-whole : (n : ℕ) (es : List Evidence) → length es ≤ length (take n es) → take n es ≡ es
  take-whole zero [] h = refl
  take-whole zero (e ∷ es) h = ground arith
  take-whole (suc n) [] h = refl
  take-whole (suc n) (e ∷ es) h = ap (λ x. e ∷ x) (take-whole n es (omega arith))

  -- A page of a query, of the events that match behind the requested line.
  pub record IsPageOf (events : List Fields) (r : QueryResult) : Type 0 where
    pub listed :
        r.events
        ≡ take request.limit (matches_after event_details request request.after_line 1 events)
    pub last_page :
        r.next_after_line ≡ none
        → matches_after event_details request request.after_line 1 events ≡ r.events
    pub continued :
        (n : ℕ)
        → r.next_after_line ≡ some n
        → matches_after event_details request request.after_line 1 events
          ≡ r.events ++ matches_after event_details request n 1 events

  -- The result of a query with a limit from 1 on lists the first events that match behind the
  -- requested line. If it names no next line, those are all; and if it does, they are followed by the
  -- events that match behind that line: the pages leave no event out, and repeat none.
  pub query-IsPageOf :
      (events : List Fields)
      → 0 < request.limit
      → IsPageOf events (query event_details request events)
  unfolding query query_result
  query-IsPageOf events positive =
      let scan = visit_all (visit_query event_details request) 1 events (no_query event_details) in
      let found = matches_after event_details request request.after_line 1 events in
      let scanned =
        visit_all-IsScanned event_details request 1 events (no_query event_details) (omega arith) in
      let listed : scan.entries ≡ take request.limit found = scanned.entries in
      record {
        listed = listed;
        last_page = λ e.
            elim (of_none (ltb (length scan.entries) scan.eligible) (last_line scan.entries) e) [
              | inl no_more ↦
                  let enough : length found ≤ length (take request.limit found) =
                    subst (λ es. length found ≤ length es) listed
                      (ground (arith, scanned.eligible)) in
                  sym (listed ∙ take-whole request.limit found enough)
              | inr nothing ↦ sym (
                  listed
                  ∙ take-empty request.limit found positive
                      (sym listed ∙ last_line-none scan.entries nothing))
            ];
        continued = λ n e.
            let last =
              of_some (ltb (length scan.entries) scan.eligible) (last_line scan.entries) n e in
            matches_after-page event_details request request.limit request.after_line 1 n events
              (subst (λ es. last_line es ≡ some n) listed last)
            ∙ ap (λ es. es ++ matches_after event_details request n 1 events) (sym listed);
      }
