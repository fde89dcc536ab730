-- ===== src/Effects.antt =====
-- Requests in steps: code that returns or raises and changes a state, which the awaited calls share
-- with the rest of the program.
use etl_mcp_suite.Base.{
  ◌≡◌, refl, inl, inr, List, [], ◌∷◌, ◌++◌, All, All-append, Result, ok, err, Ensures, raises,
  Result-cases,
}

abbrev pub Step {ℓ} : Type 0 → Type 0 → Type ℓ → Type ℓ
Step W E A = W → Result E A × W

module _ {W E : Type 0} where
  unfoldable pub return {ℓ} : {A : Type ℓ} → Result E A → Step W E A
  return r w = (r, w)

  infixl 4 ◌then_do◌
  unfoldable pub ◌then_do◌ {ℓ κ} :
      {A : Type ℓ} {B : Type κ} → Step W E A → (A → Step W E B) → Step W E B
  ◌then_do◌ m f w = let (r, w') = m w in elim r [ ok a ↦ f a w' | err e ↦ (err e, w') ]

-- A call whose answer depends on the calls made before, and which is logged.
unfoldable pub perform {ℓ} :
    {C E : Type 0} {A : Type ℓ} → (List C → Result E A) → C → Step (List C) E A
perform answer call w = (answer w, w ++ call ∷ [])

-- The step keeps a property of the state.
pub record Keeps {W E A : Type 0} (P : W → Type 0) (m : Step W E A) : Type 0 where
  pub keeps : (w : W) → P w → P (m w).1

-- What the step returns, if it returns, has the property.
pub record Gives {W E B : Type 0} (P : B → Type 0) (m : Step W E B) : Type 0 where
  pub gives : (w : W) → Ensures P (m w).0

module _ {W E : Type 0} {P : W → Type 0} {A : Type 0} where
  pub Keeps-return : (r : Result E A) → Keeps P (return r)
  unfolding return
  Keeps-return r = record { keeps = λ w p. p }

  module _ {B : Type 0} where
    pub Keeps-then :
        {m : Step W E A} {f : A → Step W E B}
        → Keeps P m
        → ((a : A) → Keeps P (f a))
        → Keeps P (m then_do f)
    unfolding ◌then_do◌
    Keeps-then {m} {f} h k = record {
      keeps = λ w p. elim (Result-cases (m w).0) [
        | inl (a, e) ↦ rw (e, ◌then_do◌) ((k a).keeps (m w).1 (h.keeps w p))
        | inr (x, e) ↦ rw (e, ◌then_do◌) (h.keeps w p)
      ];
    }

    pub Keeps-check :
        {r : Result E A} {f : A → Step W E B}
        → ((a : A) → r ≡ ok a → Keeps P (f a))
        → Keeps P (return r then_do f)
    unfolding return ◌then_do◌
    Keeps-check {r = ok a} {f} k = record { keeps = λ w p. (k a refl).keeps w p }
    Keeps-check {r = err e} {f} k = record { keeps = λ w p. p }

-- A call that has a property may be added to a log of calls that have it.
pub perform-Keeps :
    {C E A : Type 0} {P : C → Type 0} (answer : List C → Result E A) (call : C)
    → P call
    → Keeps (All P) (perform answer call)
unfolding perform
perform-Keeps {P = P} answer call h = record { keeps = λ w p. All-append P w (call ∷ []) p (h, tt) }

module _ {W E B : Type 0} {P : B → Type 0} where
  pub Gives-return : {r : Result E B} → Ensures P r → Gives {W = W} P (return r)
  unfolding return
  Gives-return h = record { gives = λ w. h }

  module _ {A : Type 0} where
    pub Gives-check :
        {r : Result E A} {f : A → Step W E B}
        → ((a : A) → r ≡ ok a → Gives P (f a))
        → Gives P (return r then_do f)
    unfolding return ◌then_do◌
    Gives-check {r = ok a} k = record { gives = (k a refl).gives }
    Gives-check {r = err e} k = record { gives = λ w. raises }

    -- Any step, and what follows it.
    pub Gives-then :
        (m : Step W E A) {f : A → Step W E B} → ((a : A) → Gives P (f a)) → Gives P (m then_do f)
    unfolding ◌then_do◌
    Gives-then m {f} k = record {
      gives = λ w. elim (Result-cases (m w).0) [
        | inl (a, e) ↦ rw (e, ◌then_do◌) ((k a).gives (m w).1)
        | inr (x, e) ↦ rw (e, ◌then_do◌) raises
      ];
    }
