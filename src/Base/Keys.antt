-- ===== src/Base/Keys.antt =====
-- The keys of a dict: each occurs once, and those are the ones that are found.
use mathlib.Core.Path.{◌≡◌, refl}
use mathlib.Core.Bool.{false, not}
use mathlib.Core.Option.{some}
use mathlib.Core.Logic.{inl, inr}
use mathlib.Core.List.{List, [], ◌∷◌}
use Prim.Native.String.{String}
use native.Mathlib.Omega.{arith}
use text.Mathlib.Text.{◌==◌}
use text.Mathlib.TextEquality.{eq_iff}
use text.Mathlib.TextPositions.{eq_refl}
use audit_flow_ai.Base.Tests.{is_none, Bool-cases}
use audit_flow_ai.Base.Lists.{All, Apart}
use audit_flow_ai.Base.Dict.{Dict, get, put, keys, contains}

pub contains-keys :
    {V : Type 0} (k : String) (d : Dict V) → contains (keys d) k ≡ not (is_none (get k d))
unfolding contains keys get
contains-keys k [] = refl
contains-keys k ((j, v) ∷ d) = ground (arith, contains-keys k d)

module _ {A : Type 0} (name : A → String) where
  abbrev pub IsUnlike : A → A → Type 0
  IsUnlike a b = (name a == name b) ≡ false

  -- The names of the elements of a list are pairwise different.
  abbrev pub IsDistinct : List A → Type 0
  IsDistinct = Apart IsUnlike

  pub IsUnlike-turn : (a b : A) → IsUnlike a b → IsUnlike b a
  IsUnlike-turn a b e = ground (arith, eq_iff (name a) (name b), eq_iff (name b) (name a))

module _ {V : Type 0} where
  abbrev pub key_of : String × V → String
  key_of item = item.0

  -- A key that is unlike `k` and every key of the dict stays unlike them when `k` is put.
  All-put :
      (j k : String) (v : V) (d : Dict V)
      → (j == k) ≡ false
      → All (λ item. (j == key_of item) ≡ false) d
      → All (λ item. (j == key_of item) ≡ false) (put k v d)
  unfolding put
  All-put j k v [] e h = (e, tt)
  All-put j k v ((i, w) ∷ d) e h = elim (Bool-cases (i == k)) [
    | inl same ↦ rw (same, put) h
    | inr same ↦ rw (same, put) (h.0, All-put j k v d e h.1)
  ]

  pub IsDistinct-put :
      (k : String) (v : V) (d : Dict V) → IsDistinct key_of d → IsDistinct key_of (put k v d)
  unfolding put
  IsDistinct-put k v [] h = (tt, tt)
  IsDistinct-put k v ((i, w) ∷ d) h = elim (Bool-cases (i == k)) [
    | inl same ↦ rw (same, put) h
    | inr same ↦ rw (same, put) (All-put i k v d same h.0, IsDistinct-put k v d h.1)
  ]

  -- Every item of a dict is what its key finds.
  pub IsDistinct-get :
      (d : Dict V) → IsDistinct key_of d → All (λ item. get item.0 d ≡ some item.1) d
  unfolding get
  IsDistinct-get [] h = tt
  IsDistinct-get ((i, w) ∷ d) h = (rw (eq_refl i, get) refl, go d h.0 (IsDistinct-get d h.1))
    where
      go :
          (rest : Dict V)
          → All (λ item. (i == key_of item) ≡ false) rest
          → All (λ item. get item.0 d ≡ some item.1) rest
          → All (λ item. get item.0 ((i, w) ∷ d) ≡ some item.1) rest
      go [] u g = tt
      go ((j, v) ∷ rest) u g = (rw (u.0) (g.0), go rest u.1 g.1)
