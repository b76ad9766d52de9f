-- ===== src/Base/Sorting.antt =====
-- `sorted(xs, key=key, reverse=True)`: the highest key first, equal keys in the order that they had.
use mathlib.Core.List.{Perm}
use mathlib.Core.List.Perm
use mathlib.Core.Path.{◌≡◌, refl, ap, ◌∙◌}
use Prim.Native.Nat.{ℕ, zero, suc}
use Prim.Native.String.{String}
use text.Mathlib.Text.{◌==◌}
use native.Mathlib.Omega.{arith}
use audit_flow_ai.Base.Dict.{contains}
use mathlib.Core.Logic.{inl, inr}
use mathlib.Core.Bool.{Bool, true, false}
use mathlib.Core.List.{List, [], ◌∷◌, map}
use audit_flow_ai.Base.Tests.{if◌then◌else◌, Bool-cases}
use audit_flow_ai.Base.Lists.{All, All-map, All-take, Apart, take}

-- What an order on keys that are no NaN satisfies.
pub record IsOrder {K : Type 0} (lt : K → K → Bool) : Type 0 where
  pub asym : (a b : K) → lt a b ≡ true → lt b a ≡ false
  pub trans : (a b c : K) → lt a b ≡ false → lt b c ≡ false → lt a c ≡ false

module _ {A K : Type 0} (lt : K → K → Bool) (key : A → K) where
  unfoldable pub insert_ranked : A → List A → List A
  insert_ranked a [] = a ∷ []
  insert_ranked a (b ∷ xs) =
      let rest = insert_ranked a xs in if lt (key a) (key b) then b ∷ rest else a ∷ b ∷ xs

  unfoldable pub sort_desc : List A → List A
  unfolding insert_ranked
  sort_desc [] = []
  sort_desc (a ∷ xs) = insert_ranked a (sort_desc xs)

  -- No element has a key above the key of one before it.
  abbrev pub IsRanked : List A → Type 0
  IsRanked [] = Unit
  IsRanked (a ∷ xs) = All (λ b. lt (key a) (key b) ≡ false) xs × IsRanked xs

  All-insert_ranked :
      (P : A → Type 0) (a : A) (xs : List A) → P a → All P xs → All P (insert_ranked a xs)
  unfolding insert_ranked
  All-insert_ranked P a [] p h = (p, tt)
  All-insert_ranked P a (b ∷ xs) p h = elim (Bool-cases (lt (key a) (key b))) [
    | inl e ↦ rw (e, insert_ranked) (h.0, All-insert_ranked P a xs p h.1)
    | inr e ↦ rw (e, insert_ranked) (p, h)
  ]

  -- What holds of every element holds of every element of the sorted list.
  pub All-sort_desc : (P : A → Type 0) (xs : List A) → All P xs → All P (sort_desc xs)
  unfolding sort_desc
  All-sort_desc P [] h = tt
  All-sort_desc P (a ∷ xs) h = All-insert_ranked P a (sort_desc xs) h.0 (All-sort_desc P xs h.1)

  insert_ranked-Perm : (a : A) (xs : List A) → Perm (insert_ranked a xs) (a ∷ xs)
  unfolding insert_ranked
  insert_ranked-Perm a [] = Perm.rfl
  insert_ranked-Perm a (b ∷ xs) = elim (Bool-cases (lt (key a) (key b))) [
    | inl e ↦
        rw (e, insert_ranked)
          (Perm.trans (Perm.cons b (insert_ranked-Perm a xs)) (Perm.swap a b xs))
    | inr e ↦ rw (e, insert_ranked) Perm.rfl
  ]

  pub sort_desc-Perm : (xs : List A) → Perm (sort_desc xs) xs
  unfolding sort_desc
  sort_desc-Perm [] = Perm.rfl
  sort_desc-Perm (a ∷ xs) =
      Perm.trans (insert_ranked-Perm a (sort_desc xs)) (Perm.cons a (sort_desc-Perm xs))

  module _ (R : A → A → Type 0) (turn : (a b : A) → R a b → R b a) where
    insert_ranked-Apart :
        (a : A) (xs : List A) → All (R a) xs → Apart R xs → Apart R (insert_ranked a xs)
    unfolding insert_ranked
    insert_ranked-Apart a [] h d = (tt, tt)
    insert_ranked-Apart a (b ∷ xs) h d = elim (Bool-cases (lt (key a) (key b))) [
      | inl e ↦
          rw (e, insert_ranked)
            (All-insert_ranked (R b) a xs (turn a b h.0) d.0, insert_ranked-Apart a xs h.1 d.1)
      | inr e ↦ rw (e, insert_ranked) (h, d)
    ]

    pub sort_desc-Apart : (xs : List A) → Apart R xs → Apart R (sort_desc xs)
    unfolding sort_desc
    sort_desc-Apart [] d = tt
    sort_desc-Apart (a ∷ xs) d =
        insert_ranked-Apart a (sort_desc xs) (All-sort_desc (R a) xs d.0) (sort_desc-Apart xs d.1)

  pub IsRanked-take : (n : ℕ) (xs : List A) → IsRanked xs → IsRanked (take n xs)
  IsRanked-take zero xs h = tt
  IsRanked-take (suc n) [] h = tt
  IsRanked-take (suc n) (a ∷ xs) h =
      (All-take (λ b. lt (key a) (key b) ≡ false) n xs h.0, IsRanked-take n xs h.1)

  module _ (o : IsOrder lt) where
    insert_ranked-IsRanked : (a : A) (xs : List A) → IsRanked xs → IsRanked (insert_ranked a xs)
    unfolding insert_ranked
    insert_ranked-IsRanked a [] h = (tt, tt)
    insert_ranked-IsRanked a (b ∷ xs) h = elim (Bool-cases (lt (key a) (key b))) [
      | inl e ↦
          rw (e, insert_ranked)
            (
              All-insert_ranked (λ c. lt (key b) (key c) ≡ false) a xs (o.asym (key a) (key b) e)
                  h.0,
              insert_ranked-IsRanked a xs h.1,
            )
      | inr e ↦
          rw (e, insert_ranked) ((e, All-map (λ c. o.trans (key a) (key b) (key c) e) xs h.0), h)
    ]

    pub sort_desc-IsRanked : (xs : List A) → IsRanked (sort_desc xs)
    unfolding sort_desc
    sort_desc-IsRanked [] = tt
    sort_desc-IsRanked (a ∷ xs) = insert_ranked-IsRanked a (sort_desc xs) (sort_desc-IsRanked xs)

module _ {A K : Type 0} (lt : K → K → Bool) (key : A → K) (name : A → String) where
  contains-insert_ranked :
      (k : String) (a : A) (xs : List A)
      → contains (map name (insert_ranked lt key a xs)) k ≡ contains (map name (a ∷ xs)) k
  unfolding insert_ranked contains
  contains-insert_ranked k a [] = refl
  contains-insert_ranked k a (b ∷ xs) = ground (arith, contains-insert_ranked k a xs)

  -- The names of the sorted list are the names that there were.
  pub contains-sort_desc :
      (k : String) (xs : List A)
      → contains (map name (sort_desc lt key xs)) k ≡ contains (map name xs) k
  unfolding sort_desc contains
  contains-sort_desc k [] = refl
  contains-sort_desc k (a ∷ xs) =
      contains-insert_ranked k a (sort_desc lt key xs)
      ∙ ap (λ rest. if name a == k then true else rest) (contains-sort_desc k xs)

module _ {A K : Type 0} (lt : K → K → Bool) (key : A → K) where
  module _ {B : Type 0} (f : A → B) (score : B → K) where
    -- A list that is ranked by its keys is ranked by scores that agree with them.
    pub IsRanked-map :
        (xs : List A)
        → All (λ a. score (f a) ≡ key a) xs
        → IsRanked lt key xs
        → IsRanked lt score (map f xs)
    IsRanked-map [] h s = tt
    IsRanked-map (a ∷ xs) h s = (tops xs h.1 s.0, IsRanked-map xs h.1 s.1)
      where
        tops :
            (ys : List A)
            → All (λ b. score (f b) ≡ key b) ys
            → All (λ b. lt (key a) (key b) ≡ false) ys
            → All (λ b. lt (score (f a)) (score b) ≡ false) (map f ys)
        tops [] g t = tt
        tops (b ∷ ys) g t = (rw (h.0, g.0) (t.0), tops ys g.1 t.1)
