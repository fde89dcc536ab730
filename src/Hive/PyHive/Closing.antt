-- ===== src/Hive/PyHive/Closing.antt =====
-- What the adapter opens it closes.
use etl_mcp_suite.Effects.{return, ◌then_do◌}
use etl_mcp_suite.Hive.PyHive.{
  Driver, DriverCall, Failure, Session, Trace, close_connection, close_cursor, closed_connection,
  connect, drive, execute, fetch_rows, fetchall, force_close, open_cursor, session, snapshot_rows,
  with_connection, with_cursor,
}
use etl_mcp_suite.Text.{Str}
use etl_mcp_suite.Value.{Value}
use etl_mcp_suite.Base.{
  ◌≡◌, refl, sym, ap, ◌∙◌, subst, inl, inr, [], ◌∷◌, ◌++◌, append-nil, append_assoc, Result, ok,
  err, Result-cases,
}

-- The use of a cursor, after the calls w: the statement, and the rows if it is executed.
pub data IsFetch (driver : Driver) (statement : Str) (w : Trace) : Trace → Type 0 where
  not_executed :
      {e : Failure}
      → driver (execute statement) w ≡ err e
      → IsFetch driver statement w (execute statement ∷ [])
  fetched :
      {v : Value}
      → driver (execute statement) w ≡ ok v
      → IsFetch driver statement w (execute statement ∷ fetchall ∷ [])

-- The end of a connection, after the calls w: closed, and by force exactly if that fails.
pub data IsEnd (driver : Driver) (w : Trace) : Trace → Type 0 where
  closed : {v : Value} → driver close_connection w ≡ ok v → IsEnd driver w (close_connection ∷ [])
  forced :
      {e : Failure}
      → driver close_connection w ≡ err e
      → IsEnd driver w (close_connection ∷ force_close ∷ [])

-- The use of a connection, after the calls w: a cursor, closed at the end if it is opened.
pub data IsUse (driver : Driver) (statement : Str) (w : Trace) : Trace → Type 0 where
  without_cursor :
      {e : Failure} → driver open_cursor w ≡ err e → IsUse driver statement w (open_cursor ∷ [])
  with_a_cursor :
      {v : Value} {t : Trace}
      → driver open_cursor w ≡ ok v
      → IsFetch driver statement (w ++ open_cursor ∷ []) t
      → IsUse driver statement w (open_cursor ∷ t ++ close_cursor ∷ [])

-- A session, after the calls w: a connection, closed at the end if it is opened.
pub data IsSession (driver : Driver) (statement : Str) (w : Trace) : Trace → Type 0 where
  refused : {e : Failure} → driver connect w ≡ err e → IsSession driver statement w (connect ∷ [])
  connected :
      {v : Value} {t end : Trace}
      → driver connect w ≡ ok v
      → IsUse driver statement (w ++ connect ∷ []) t
      → IsEnd driver ((w ++ connect ∷ []) ++ t) end
      → IsSession driver statement w (connect ∷ t ++ end)

-- What a session adds to the calls w.
pub record Adds {A : Type 0} (P : Trace → Type 0) (m : Session A) (w : Trace) : Type 0 where
  pub adds : (t : Trace) × ((m w).1 ≡ w ++ t) × P t

Adds-map :
    {A : Type 0} {P Q : Trace → Type 0} {m : Session A} {w : Trace}
    → ((t : Trace) → P t → Q t)
    → Adds P m w
    → Adds Q m w
Adds-map f h = let (t, added, p) = h.adds in record { adds = (t, added, f t p) }

module _ (driver : Driver) where
  drive-then :
      {A : Type 0} (R : Trace → Type 0) (call : DriverCall) (f : Value → Session A) (w : Trace)
      → ((e : Failure) → driver call w ≡ err e → R (call ∷ []))
      → ((v : Value) → driver call w ≡ ok v → Adds (λ t. R (call ∷ t)) (f v) (w ++ call ∷ []))
      → Adds R (drive driver call then_do f) w
  unfolding drive ◌then_do◌
  drive-then R call f w h k = elim (Result-cases (driver call w)) [
    | inl (v, e) ↦
        let (t, added, s) = (k v e).adds in
        record { adds = (call ∷ t, rw (e, ◌then_do◌) (added ∙ append_assoc w (call ∷ []) t), s) }
    | inr (x, e) ↦ record { adds = (call ∷ [], rw (e, ◌then_do◌) refl, h x e) }
  ]

  return-Adds :
      {A : Type 0} {P : Trace → Type 0} (r : Result Failure A) (w : Trace)
      → P []
      → Adds P (return r) w
  unfolding return
  return-Adds r w p = record { adds = ([], sym (append-nil w), p) }

  with_cursor-Adds :
      {A : Type 0} (R : Trace → Type 0) (body : Session A) (w : Trace)
      → Adds (λ t. R (t ++ close_cursor ∷ [])) body w
      → Adds R (with_cursor driver body) w
  unfolding with_cursor drive
  with_cursor-Adds R body w h =
      let (t, added, s) = h.adds in
      record {
        adds = (
          t ++ close_cursor ∷ [],
          ap (λ x. x ++ close_cursor ∷ []) added ∙ append_assoc w t (close_cursor ∷ []),
          s,
        );
      }

  closed_connection-Adds : (w : Trace) → Adds (IsEnd driver w) (closed_connection driver) w
  unfolding closed_connection drive
  closed_connection-Adds w = elim (Result-cases (driver close_connection w)) [
    | inl (v, e) ↦ record {
      adds = (close_connection ∷ [], rw (e, closed_connection) refl, closed e);
    }
    | inr (x, e) ↦ record {
      adds = (
        close_connection ∷ force_close ∷ [],
        rw (e, closed_connection) (append_assoc w (close_connection ∷ []) (force_close ∷ [])),
        forced e,
      );
    }
  ]

  with_connection-Adds :
      {A : Type 0} (R : Trace → Type 0) (body : Session A) (w : Trace)
      → Adds (λ t. (end : Trace) → IsEnd driver (w ++ t) end → R (t ++ end)) body w
      → Adds R (with_connection driver body) w
  unfolding with_connection
  with_connection-Adds R body w h =
      let (t, added, s) = h.adds in
      let (end, ended, is_end) = (closed_connection-Adds (body w).1).adds in
      record {
        adds = (
          t ++ end,
          ended ∙ ap (λ x. x ++ end) added ∙ append_assoc w t end,
          s end (subst (λ x. IsEnd driver x end) added is_end),
        );
      }

  fetch_rows-Adds :
      (statement : Str) (w : Trace)
      → Adds (IsFetch driver statement w) (fetch_rows driver statement) w
  unfolding fetch_rows
  fetch_rows-Adds statement w =
      drive-then (IsFetch driver statement w) (execute statement) _ w
        (λ e failed. not_executed failed)
        (λ v executed.
          drive-then _ fetchall _ _ (λ e failed. fetched executed)
            (λ rows _. return-Adds (snapshot_rows rows) _ (fetched executed)))

  -- Whatever a driver does, a session opens a connection, and, if that is opened, a cursor; it closes
  -- the cursor if that is opened, and then the connection, by force exactly if closing it fails, and
  -- it calls nothing after that.
  pub session-IsSession :
      (statement : Str) (w : Trace)
      → Adds (IsSession driver statement w) (session driver statement) w
  unfolding session
  session-IsSession statement w =
      drive-then (IsSession driver statement w) connect _ w (λ e failed. refused failed)
        (λ v opened. with_connection-Adds _ _ _ (
          Adds-map (λ t use_of end is_end. connected opened use_of is_end)
            (drive-then (IsUse driver statement (w ++ connect ∷ [])) open_cursor _ _
              (λ e failed. without_cursor failed)
              (λ c has_cursor. with_cursor-Adds _ _ _ (
                Adds-map (λ t fetch. with_a_cursor has_cursor fetch)
                  (fetch_rows-Adds statement _))))))
