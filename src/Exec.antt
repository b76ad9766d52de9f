-- ===== src/Exec.antt =====
-- Calls that change state and may raise. What was written before an exception stays written, so the
-- state comes back beside the exception too.
use audit_flow_ai.Base.{Bool, true, false, ◌≡◌, refl, ◌⊎◌, inl, inr}
use audit_flow_ai.Schemas.Errors.{Raised}

pub data Result (A : Type 0) : Type 0 where
  ok : A → Result A
  raised : Raised → Result A

abbrev pub Exec : Type 0 → Type 0 → Type 0
Exec S A = S → Result A × S

module _ {S A : Type 0} where
  abbrev pub pure : A → Exec S A
  pure a s = (ok a, s)

  abbrev pub raise : Raised → Exec S A
  raise e s = (raised e, s)

  abbrev pub gets : (S → A) → Exec S A
  gets f s = (ok (f s), s)

  -- `try: … except Exception as exc: raise e from exc`
  abbrev pub reraise : Raised → Result A × S → Result A × S
  reraise e (ok a, s) = (ok a, s)
  reraise e (raised _, s) = (raised e, s)

abbrev pub modify : {S : Type 0} → (S → S) → Exec S Unit
modify f s = (ok tt, f s)

-- `if b: raise e`
abbrev pub raise_if : {S : Type 0} → Bool → Raised → Exec S Unit
raise_if true e s = (raised e, s)
raise_if false e s = (ok tt, s)

infixl 5 ◌>>=◌ ◌>>◌
abbrev pub ◌>>=◌ : {S A B : Type 0} → Exec S A → (A → Exec S B) → Exec S B
◌>>=◌ m f s = let (r, s') = m s in elim r [ ok a ↦ f a s' | raised e ↦ (raised e, s') ]

abbrev pub ◌>>◌ : {S B : Type 0} → Exec S Unit → Exec S B → Exec S B
m >> k = m >>= λ _. k

-- A split on the result of a call that keeps the equation.
pub Result-cases :
    {A : Type 0} (r : Result A) → ((a : A) × (r ≡ ok a)) ⊎ ((e : Raised) × (r ≡ raised e))
Result-cases (ok a) = inl (a, refl)
Result-cases (raised e) = inr (e, refl)

module _ {S A : Type 0} where
  -- After a call `P` holds of its result and the state, and after an exception `I` of the state.
  abbrev pub After : (S → Type 0) → (A → S → Type 0) → Result A × S → Type 0
  After I P (ok a, s) = P a s
  After I P (raised e, s) = I s

module _ {S A B : Type 0} (I : S → Type 0) (P : A → S → Type 0) (Q : B → S → Type 0) where
  After-result :
      (r : Result A) (s : S) (next : A → Exec S B)
      → After I P (r, s)
      → ((a : A) (s : S) → P a s → After I Q (next a s))
      → After I Q (((λ _. (r, s)) >>= next) s)
  After-result (ok a) s next h k = k a s h
  After-result (raised e) s next h k = h

  -- The rule for two calls in a row
  pub After-bind :
      (m : Exec S A) (s : S) (next : A → Exec S B)
      → After I P (m s)
      → ((a : A) (s : S) → P a s → After I Q (next a s))
      → After I Q ((m >>= next) s)
  After-bind m s next h k = After-result (m s).0 (m s).1 next h k

module _ {S A : Type 0} (I J : S → Type 0) (P Q : A → S → Type 0) where
  pub After-mono :
      (r : Result A × S)
      → ((s : S) → I s → J s)
      → ((a : A) (s : S) → P a s → Q a s)
      → After I P r
      → After J Q r
  After-mono (ok a, s) i p h = p a s h
  After-mono (raised e, s) i p h = i s h
