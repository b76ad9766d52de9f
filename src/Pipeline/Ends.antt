-- ===== src/Pipeline/Ends.antt =====
-- What holds at the end of a call, through the calls that it is made of.
use audit_flow_ai.Base.{Bool, true, false, if◌then◌else◌}
use audit_flow_ai.Exec.{Result, ok, raised, Exec, ◌>>=◌, reraise}
use audit_flow_ai.Schemas.Errors.{Raised}

-- A call that returns does so with a result and a state that satisfy `P`.
abbrev pub Ends : {S A : Type 0} → (A → S → Type 0) → Result A × S → Type 0
Ends P (ok a, s) = P a s
Ends P (raised e, s) = Unit

pub Ends-bind :
    {S A B : Type 0} (P : B → S → Type 0) (Q : A → S → Type 0) (e : Exec S A) (k : A → Exec S B)
    (s : S)
    → Ends Q (e s)
    → ((a : A) (s' : S) → Q a s' → Ends P (k a s'))
    → Ends P ((e >>= k) s)
Ends-bind P Q e k s h next = go (e s) h
  where
    go :
        (x : Result _ × _)
        → Ends Q x
        → Ends P (let (r, s') = x in elim r [ ok a ↦ k a s' | raised y ↦ (raised y, s') ])
    go (ok a, s') q = next a s' q
    go (raised y, s') q = tt

-- Nothing need be known of the first call.
pub Ends-skip :
    {S A B : Type 0} (P : B → S → Type 0) (e : Exec S A) (k : A → Exec S B) (s : S)
    → ((a : A) (s' : S) → Ends P (k a s'))
    → Ends P ((e >>= k) s)
Ends-skip {S} {A} {B} P e k s next = go (e s)
  where
    go :
        (x : Result A × S)
        → Ends P (let (r, s') = x in elim r [ ok a ↦ k a s' | raised y ↦ (raised y, s') ])
    go (ok a, s') = next a s'
    go (raised y, s') = tt

pub Ends-if :
    {S A : Type 0} (P : A → S → Type 0) (b : Bool) (e e' : Exec S A) (s : S)
    → Ends P (e s)
    → Ends P (e' s)
    → Ends P ((if b then e else e') s)
Ends-if P true e e' s h h' = h
Ends-if P false e e' s h h' = h'

pub Ends-reraise :
    {S A : Type 0} (P : A → S → Type 0) (y : Raised) (x : Result A × S)
    → Ends P x
    → Ends P (reraise y x)
Ends-reraise P y (ok a, s) h = h
Ends-reraise P y (raised _, s) h = tt
