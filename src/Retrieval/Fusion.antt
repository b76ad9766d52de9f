-- ===== src/Retrieval/Fusion.antt =====
-- `_reciprocal_rank_fusion` of src/auditflow/retrieval/retrieve.py
use audit_flow_ai.Base.{
  ℕ, suc, ◌+◌, String, false, not, ◌&&◌, ◌≡◌, refl, sym, ap, ◌∙◌, Option, none, some, List, [], ◌∷◌,
  ◌++◌, map, ◌==◌, if◌then◌else◌, Bool-cases, eq_iff, arith, inl, inr, All, All-map, any, is_none,
  is_empty,
}
use audit_flow_ai.Base.Dict.{Dict, get, put, keys, contains, get-put}
use audit_flow_ai.Base.Keys.{
  IsUnlike, IsUnlike-turn, IsDistinct, key_of, IsDistinct-put, IsDistinct-get, contains-keys,
}
use audit_flow_ai.Base.Sorting.{
  IsOrder, sort_desc, IsRanked, IsRanked-map, sort_desc-IsRanked, sort_desc-Apart, All-sort_desc,
  contains-sort_desc,
}
use audit_flow_ai.Schemas.Floats.{Floats}

module _ (F : Floats) where
  -- `scores.get(chunk_id, 0.0)`
  abbrev pub or_zero : Option F.Float → F.Float
  or_zero none = F.decimal 0 0
  or_zero (some x) = x

  -- `scores[chunk_id] = scores.get(chunk_id, 0.0) + 1.0 / (k + rank + 1)`
  unfoldable pub reward : Option F.Float → ℕ → ℕ → F.Float
  reward old k rank = F.add (or_zero old) (F.div (F.decimal 1 0) (F.decimal (k + rank + 1) 0))

  unfoldable pub add_ranked : ℕ → ℕ → List String → Dict F.Float → Dict F.Float
  unfolding reward
  add_ranked k rank [] scores = scores
  add_ranked k rank (id ∷ ids) scores =
      add_ranked k (suc rank) ids (put id (reward (get id scores) k rank) scores)

  unfoldable pub add_lists : ℕ → List (List String) → Dict F.Float → Dict F.Float
  unfolding add_ranked
  add_lists k [] scores = scores
  add_lists k (ids ∷ lists) scores = add_lists k lists (add_ranked k 0 ids scores)

  abbrev id_of : String × F.Float → String
  id_of item = item.0

  abbrev score_of : String × F.Float → F.Float
  score_of item = item.1

  unfoldable pub reciprocal_rank_fusion : ℕ → List (List String) → List String
  unfolding add_lists sort_desc
  reciprocal_rank_fusion k ranked_id_lists =
      map id_of (sort_desc F.ltb score_of (add_lists k ranked_id_lists []))

  -- The score of an id on its own: the sum over its places, list by list.
  unfoldable pub ranks : String → ℕ → List String → List ℕ
  ranks id rank [] = []
  ranks id rank (j ∷ ids) =
      let rest = ranks id (suc rank) ids in if j == id then rank ∷ rest else rest

  unfoldable pub all_ranks : String → List (List String) → List ℕ
  unfolding ranks
  all_ranks id [] = []
  all_ranks id (ids ∷ lists) = ranks id 0 ids ++ all_ranks id lists

  -- `total` and 1 / (k + rank + 1) for each place, added one after the other
  unfoldable pub sum_of : ℕ → List ℕ → F.Float → F.Float
  sum_of k [] total = total
  sum_of k (rank ∷ rest) total =
      sum_of k rest (F.add total (F.div (F.decimal 1 0) (F.decimal (k + rank + 1) 0)))

  unfoldable pub fused_score : ℕ → List (List String) → String → F.Float
  unfolding sum_of all_ranks
  fused_score k lists id = sum_of k (all_ranks id lists) (F.decimal 0 0)

  -- the entry of an id after its places
  unfoldable total : ℕ → List ℕ → Option F.Float → Option F.Float
  unfolding reward
  total k [] old = old
  total k (rank ∷ rest) old = total k rest (some (reward old k rank))

  total-sum_of :
      (k : ℕ) (rs : List ℕ) (old : Option F.Float)
      → or_zero (total k rs old) ≡ sum_of k rs (or_zero old)
  unfolding total sum_of reward
  total-sum_of k [] old = refl
  total-sum_of k (r ∷ rs) old = total-sum_of k rs (some (reward old k r))

  get-add_ranked :
      (id : String) (k rank : ℕ) (ids : List String) (scores : Dict F.Float)
      → get id (add_ranked k rank ids scores) ≡ total k (ranks id rank ids) (get id scores)
  unfolding add_ranked total ranks
  get-add_ranked id k rank [] scores = refl
  get-add_ranked id k rank (j ∷ ids) scores =
      let next = put j (reward (get j scores) k rank) scores in
      elim (Bool-cases (j == id)) [
        | inl e ↦
            let same = (eq_iff j id).0 e in
            rw (e, ranks)
              (get-add_ranked id k (suc rank) ids next
                ∙ ap (total k (ranks id (suc rank) ids))
                    (rw (get-put j id (reward (get j scores) k rank) scores, e, same) refl))
        | inr e ↦
            rw (e, ranks)
              (get-add_ranked id k (suc rank) ids next
                ∙ ap (total k (ranks id (suc rank) ids))
                    (rw (get-put j id (reward (get j scores) k rank) scores, e) refl))
      ]

  total-append :
      (k : ℕ) (xs ys : List ℕ) (old : Option F.Float)
      → total k (xs ++ ys) old ≡ total k ys (total k xs old)
  unfolding total
  total-append k [] ys old = refl
  total-append k (x ∷ xs) ys old = total-append k xs ys (some (reward old k x))

  get-add_lists :
      (id : String) (k : ℕ) (lists : List (List String)) (scores : Dict F.Float)
      → get id (add_lists k lists scores) ≡ total k (all_ranks id lists) (get id scores)
  unfolding add_lists total all_ranks
  get-add_lists id k [] scores = refl
  get-add_lists id k (ids ∷ lists) scores =
      get-add_lists id k lists (add_ranked k 0 ids scores)
      ∙ ap (total k (all_ranks id lists)) (get-add_ranked id k 0 ids scores)
      ∙ sym (total-append k (ranks id 0 ids) (all_ranks id lists) (get id scores))

  -- `scores` once the loops are through
  abbrev scored : ℕ → List (List String) → Dict F.Float
  scored k lists = add_lists k lists []

  add_ranked-IsDistinct :
      (k rank : ℕ) (ids : List String) (scores : Dict F.Float)
      → IsDistinct key_of scores
      → IsDistinct key_of (add_ranked k rank ids scores)
  unfolding add_ranked
  add_ranked-IsDistinct k rank [] scores h = h
  add_ranked-IsDistinct k rank (id ∷ ids) scores h =
      let x = reward (get id scores) k rank in
      add_ranked-IsDistinct k (suc rank) ids (put id x scores) (IsDistinct-put id x scores h)

  add_lists-IsDistinct :
      (k : ℕ) (lists : List (List String)) (scores : Dict F.Float)
      → IsDistinct key_of scores
      → IsDistinct key_of (add_lists k lists scores)
  unfolding add_lists
  add_lists-IsDistinct k [] scores h = h
  add_lists-IsDistinct k (ids ∷ lists) scores h =
      add_lists-IsDistinct k lists (add_ranked k 0 ids scores)
        (add_ranked-IsDistinct k 0 ids scores h)

  scored-IsDistinct : (k : ℕ) (lists : List (List String)) → IsDistinct key_of (scored k lists)
  scored-IsDistinct k lists = add_lists-IsDistinct k lists [] tt

  total_some : (k : ℕ) (rs : List ℕ) (x : F.Float) → is_none (total k rs (some x)) ≡ false
  unfolding total
  total_some k [] x = refl
  total_some k (r ∷ rs) x = total_some k rs (reward (some x) k r)

  total_none : (k : ℕ) (rs : List ℕ) → is_none (total k rs none) ≡ is_empty rs
  unfolding total
  total_none k [] = refl
  total_none k (r ∷ rs) = total_some k rs (reward none k r)

  ranks_empty :
      (id : String) (rank : ℕ) (ids : List String)
      → is_empty (ranks id rank ids) ≡ not (contains ids id)
  unfolding ranks contains
  ranks_empty id rank [] = refl
  ranks_empty id rank (j ∷ ids) = ground (arith, ranks_empty id (suc rank) ids)

  append_empty : (xs ys : List ℕ) → is_empty (xs ++ ys) ≡ is_empty xs && is_empty ys
  append_empty [] ys = refl
  append_empty (x ∷ xs) ys = refl

  all_ranks_empty :
      (id : String) (lists : List (List String))
      → is_empty (all_ranks id lists) ≡ not (any (λ ids. contains ids id) lists)
  unfolding all_ranks
  all_ranks_empty id [] = refl
  all_ranks_empty id (ids ∷ lists) = ground (
    arith,
    append_empty (ranks id 0 ids) (all_ranks id lists),
    ranks_empty id 0 ids,
    all_ranks_empty id lists,
  )

  ids-keys : (d : Dict F.Float) → map id_of d ≡ keys d
  unfolding keys
  ids-keys [] = refl
  ids-keys ((k, v) ∷ d) = ap (◌∷◌ k) (ids-keys d)

  -- What the fusion of ranked lists is: no id twice, the ids of the lists, by their scores.
  pub record Fusion (k : ℕ) (lists : List (List String)) (fused : List String) : Type 0 where
    pub distinct : IsDistinct (λ id. id) fused
    pub ids : (id : String) → contains fused id ≡ any (λ ids. contains ids id) lists
    pub ranked : IsRanked F.ltb (fused_score k lists) fused

  fused_ids :
      (k : ℕ) (lists : List (List String)) (id : String)
      → contains (reciprocal_rank_fusion k lists) id ≡ any (λ ids. contains ids id) lists
  unfolding reciprocal_rank_fusion get
  fused_ids k lists id =
      contains-sort_desc F.ltb score_of id_of id (scored k lists)
      ∙ ap (λ ids. contains ids id) (ids-keys (scored k lists))
      ∙ contains-keys id (scored k lists)
      ∙ ap (λ x. not (is_none x)) (get-add_lists id k lists [])
      ∙ ground (arith, total_none k (all_ranks id lists), all_ranks_empty id lists)

  IsDistinct-names :
      (xs : Dict F.Float) → IsDistinct key_of xs → IsDistinct (λ id. id) (map id_of xs)
  IsDistinct-names [] h = tt
  IsDistinct-names (x ∷ xs) h = (go xs h.0, IsDistinct-names xs h.1)
    where
      go :
          (ys : Dict F.Float)
          → All (λ item. (x.0 == item.0) ≡ false) ys
          → All (λ id. (x.0 == id) ≡ false) (map id_of ys)
      go [] g = tt
      go (y ∷ ys) g = (g.0, go ys g.1)

  scored_get :
      (k : ℕ) (lists : List (List String))
      → All (λ item. fused_score k lists (id_of item) ≡ score_of item) (scored k lists)
  unfolding fused_score get
  scored_get k lists =
      All-map
        (λ item e.
          sym (total-sum_of k (all_ranks (id_of item) lists) none)
          ∙ ap or_zero (sym (get-add_lists (id_of item) k lists []) ∙ e))
        (scored k lists) (IsDistinct-get (scored k lists) (scored-IsDistinct k lists))

  -- The fused list has every id of the ranked lists once and no other, and no id stands behind one with a
  -- smaller score, where the score of an id is the sum of 1 / (k + rank + 1) over its places in the lists,
  -- taken list by list. The scores are compared by an order.
  pub reciprocal_rank_fusion-Fusion :
      IsOrder F.ltb
      → (k : ℕ) (lists : List (List String)) → Fusion k lists (reciprocal_rank_fusion k lists)
  unfolding reciprocal_rank_fusion
  reciprocal_rank_fusion-Fusion order k lists = record {
    distinct = IsDistinct-names (sort_desc F.ltb score_of (scored k lists)) (
        sort_desc-Apart F.ltb score_of (IsUnlike key_of) (IsUnlike-turn key_of) (scored k lists)
          (scored-IsDistinct k lists));
    ids = fused_ids k lists;
    ranked =
        IsRanked-map F.ltb score_of id_of (fused_score k lists)
          (sort_desc F.ltb score_of (scored k lists))
          (All-sort_desc F.ltb score_of (λ item. fused_score k lists (id_of item) ≡ score_of item)
            (scored k lists) (scored_get k lists))
          (sort_desc-IsRanked F.ltb score_of order (scored k lists));
  }
