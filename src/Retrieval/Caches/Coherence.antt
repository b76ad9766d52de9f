-- ===== src/Retrieval/Caches/Coherence.antt =====
-- What every call keeps of the caches: the ids of the BM25 cache are the keys of the corpus beside it.
use mathlib.Core.Path.{subst}
use audit_flow_ai.Base.{
  String, ◌≡◌, refl, sym, Option, none, some, List, map, Option-cases, inl, inr,
}
use audit_flow_ai.Base.Dict.{Dict, keys, values}
use audit_flow_ai.Exec.{
  Result, ok, raised, Exec, ◌>>=◌, pure, modify, After, After-bind, After-mono,
}
use audit_flow_ai.Schemas.Floats.{Floats}
use audit_flow_ai.Schemas.Retrieval.{ChunkRecord}
use audit_flow_ai.Retrieval.Caches.{
  Engines, Caches, Query, on_engines, new_bm25_index, get_embedder, get_faiss_index, get_bm25_index,
  get_indexes, build_bm25, get_cached_bm25, corpus_of, tokens,
}

module _ {F : Floats} (g : Engines F) where
  abbrev pub Agree : Option (List String × g.Okapi) → Option (Dict ChunkRecord) → Type 0
  Agree none corpus = Unit
  Agree (some cache) none = ⊥
  Agree (some cache) (some corpus) = cache.0 ≡ keys corpus

  abbrev pub IsCoherent : Caches g → Type 0
  IsCoherent s = Agree s.bm25_cache s.bm25_index

  -- A call that touches only the engines keeps what does not speak of them.
  pub on_engines-After :
      {A : Type 0} (I : Caches g → Type 0) (e : Exec g.World A) (s : Caches g)
      → ((w : g.World) → I (record s { engines = w }))
      → After I (λ _ u. I u) (on_engines g e s)
  on_engines-After {A} I e s h = go (e s.engines).0 (h (e s.engines).1)
    where
      go :
          (r : Result A)
          → I (record s { engines = (e s.engines).1 })
          → After I (λ _ u. I u) (r, record s { engines = (e s.engines).1 })
      go (ok a) i = i
      go (raised x) i = i

  abbrev pub Has : Dict ChunkRecord → Caches g → Type 0
  Has corpus s = IsCoherent s × (s.bm25_index ≡ some corpus)

  pub new_bm25_index-After :
      (I : Caches g → Type 0) (s : Caches g)
      → ((w : g.World) → I (record s { engines = w }))
      → After I (λ _ u. I u) (new_bm25_index g s)
  unfolding new_bm25_index
  new_bm25_index-After I s h =
      After-bind I (λ _ u. I u) (λ _ u. I u) (on_engines g g.read_corpus) s
        (λ corpus. pure (corpus_of g corpus)) (on_engines-After I g.read_corpus s h) (λ a u i. i)

  -- `J` speaks of the BM25 index and its cache only.
  abbrev pub Kept :
      (Option (List String × g.Okapi) → Option (Dict ChunkRecord) → Type 0) → Caches g → Type 0
  Kept J s = J s.bm25_cache s.bm25_index

  module _ (J : Option (List String × g.Okapi) → Option (Dict ChunkRecord) → Type 0) where
    get_embedder-After :
        (s : Caches g) → Kept J s → After (Kept J) (λ _ u. Kept J u) (get_embedder g s)
    unfolding get_embedder
    get_embedder-After s h = elim (Option-cases s.embedder) [
      | inr (e, f) ↦ rw (f, get_embedder) h
      | inl f ↦
          rw (f, get_embedder)
            (After-bind (Kept J) (λ _ u. Kept J u) (λ _ u. Kept J u) (on_engines g g.load_embedder)
              s (λ e. modify (λ s. record s { embedder = some e }) >>= λ _. pure e)
              (on_engines-After (Kept J) g.load_embedder s (λ w. h)) (λ a u i. i))
    ]

    get_faiss_index-After :
        (e : g.Embedder) (s : Caches g)
        → Kept J s
        → After (Kept J) (λ _ u. Kept J u) (get_faiss_index g e s)
    unfolding get_faiss_index
    get_faiss_index-After e s h = elim (Option-cases s.faiss_index) [
      | inr (i, f) ↦ rw (f, get_faiss_index) h
      | inl f ↦
          rw (f, get_faiss_index)
            (After-bind (Kept J) (λ _ u. Kept J u) (λ _ u. Kept J u) (on_engines g (g.load_local e))
              s (λ i. modify (λ s. record s { faiss_index = some i }) >>= λ _. pure i)
              (on_engines-After (Kept J) (g.load_local e) s (λ w. h)) (λ a u i. i))
    ]

    -- `get_indexes` establishes what `get_bm25_index` does.
    get_indexes_rule :
        (Q : Dict ChunkRecord → Caches g → Type 0)
        → ((u : Caches g) → Kept J u → After (Kept J) Q (get_bm25_index g u))
        → (s : Caches g) → Kept J s
        → After (Kept J) (λ indexes u. Q indexes.1 u) (get_indexes g s)
    unfolding get_indexes
    get_indexes_rule Q rule s h =
        After-bind (Kept J) (λ _ u. Kept J u) (λ indexes u. Q indexes.1 u) (get_embedder g) s
          (λ embedder. get_faiss_index g embedder >>= λ faiss.
            get_bm25_index g >>= λ corpus. pure (faiss, corpus))
          (get_embedder-After s h)
          λ embedder u i.
            After-bind (Kept J) (λ _ u. Kept J u) (λ indexes u. Q indexes.1 u)
              (get_faiss_index g embedder) u
              (λ faiss. get_bm25_index g >>= λ corpus. pure (faiss, corpus))
              (get_faiss_index-After embedder u i)
              λ faiss v j.
                After-bind (Kept J) Q (λ indexes u. Q indexes.1 u) (get_bm25_index g) v
                  (λ corpus. pure (faiss, corpus)) (rule v j) (λ corpus w k. k)

  Agree-new :
      (cache : Option (List String × g.Okapi)) (corpus : Dict ChunkRecord)
      → Agree cache none
      → Agree cache (some corpus)
  Agree-new none corpus h = tt
  Agree-new (some cache) corpus h = absurd h

  abbrev Without : Caches g → Type 0
  Without s = Agree s.bm25_cache none

  get_bm25_index-After : (s : Caches g) → IsCoherent s → After IsCoherent Has (get_bm25_index g s)
  unfolding get_bm25_index
  get_bm25_index-After s h = elim (Option-cases s.bm25_index) [
    | inr (corpus, f) ↦ rw (f, get_bm25_index) (h, f)
    | inl f ↦
        let free : Without s = subst (Agree s.bm25_cache) f h in
        rw (f, get_bm25_index)
          (After-mono (λ u. Without u × (u.bm25_index ≡ none)) IsCoherent Has Has _
            (λ u i. subst (Agree u.bm25_cache) (sym i.1) i.0) (λ a u i. i)
            (After-bind (λ u. Without u × (u.bm25_index ≡ none))
              (λ _ u. Without u × (u.bm25_index ≡ none)) Has (new_bm25_index g) s
              (λ corpus. modify (λ s. record s { bm25_index = some corpus }) >>= λ _. pure corpus)
              (new_bm25_index-After (λ u. Without u × (u.bm25_index ≡ none)) s (λ w. (free, f)))
              (λ corpus u i. (Agree-new u.bm25_cache corpus i.0, refl))))
  ]

  pub get_indexes-After :
      (s : Caches g)
      → IsCoherent s
      → After IsCoherent (λ indexes u. Has indexes.1 u) (get_indexes g s)
  get_indexes-After = get_indexes_rule Agree Has get_bm25_index-After

  -- A corpus that is loaded stays.
  abbrev Stays :
      Dict ChunkRecord → Option (List String × g.Okapi) → Option (Dict ChunkRecord) → Type 0
  Stays corpus cache index = Agree cache index × (index ≡ some corpus)

  pub get_indexes_stays :
      (corpus : Dict ChunkRecord) (s : Caches g)
      → Has corpus s
      → After (Has corpus) (λ indexes u. Has corpus u × (indexes.1 ≡ corpus)) (get_indexes g s)
  unfolding get_bm25_index
  get_indexes_stays corpus =
      get_indexes_rule (Stays corpus) (λ found u. Has corpus u × (found ≡ corpus))
        λ u h. rw (h.1, get_bm25_index) (h, refl)

  abbrev pub Built :
      (Caches g → Type 0) → Dict ChunkRecord → List String × g.Okapi → Caches g → Type 0
  Built I corpus cache u = I u × (cache.0 ≡ keys corpus)

  pub build_bm25-After :
      (I : Caches g → Type 0) (corpus : Dict ChunkRecord) (s : Caches g)
      → ((w : g.World) → I (record s { engines = w }))
      → After I (Built I corpus) (build_bm25 g corpus s)
  unfolding build_bm25
  build_bm25-After I corpus s h =
      let call = g.okapi (map (λ c. tokens g c.raw_chunk_text) (values corpus)) in
      After-bind I (λ _ u. I u) (Built I corpus) (on_engines g call) s
        (λ index. pure (keys corpus, index)) (on_engines-After I call s h) (λ index u i. (i, refl))

  abbrev cache_new : Dict ChunkRecord → Query g (List String × g.Okapi)
  cache_new corpus = build_bm25 g corpus >>= λ cache.
      modify (λ s. record s { bm25_cache = some cache }) >>= λ _. pure cache

  keep_new :
      (corpus : Dict ChunkRecord) (u : Caches g)
      → Has corpus u
      → After (Has corpus) (λ _ v. Has corpus v) (cache_new corpus u)
  keep_new corpus u i =
      After-bind (Has corpus) (Built (Has corpus) corpus) (λ _ v. Has corpus v)
        (build_bm25 g corpus) u
        (λ cache. modify (λ s. record s { bm25_cache = some cache }) >>= λ _. pure cache)
        (build_bm25-After (Has corpus) corpus u (λ w. i))
        (λ cache v j. (subst (Agree (some cache)) (sym (j.0.1)) j.1, j.0.1))

  pub get_cached_bm25-After :
      (s : Caches g) → IsCoherent s → After IsCoherent (λ _ u. IsCoherent u) (get_cached_bm25 g s)
  unfolding get_cached_bm25
  get_cached_bm25-After s h = elim (Option-cases s.bm25_cache) [
    | inr (cache, f) ↦ rw (f, get_cached_bm25) h
    | inl f ↦
        rw (f, get_cached_bm25)
          (After-bind IsCoherent (λ indexes u. Has indexes.1 u) (λ _ u. IsCoherent u)
            (get_indexes g) s (λ indexes. cache_new indexes.1) (get_indexes-After s h)
            λ indexes u i.
              After-mono (Has indexes.1) IsCoherent (λ _ v. Has indexes.1 v) (λ _ v. IsCoherent v)
                (cache_new indexes.1 u) (λ v j. j.0) (λ a v j. j.0) (keep_new indexes.1 u i))
  ]

  pub get_cached_bm25_stays :
      (corpus : Dict ChunkRecord) (s : Caches g)
      → Has corpus s
      → After (Has corpus) (λ _ u. Has corpus u) (get_cached_bm25 g s)
  unfolding get_cached_bm25
  get_cached_bm25_stays corpus s h = elim (Option-cases s.bm25_cache) [
    | inr (cache, f) ↦ rw (f, get_cached_bm25) h
    | inl f ↦
        rw (f, get_cached_bm25)
          (After-bind (Has corpus) (λ indexes u. Has corpus u × (indexes.1 ≡ corpus))
            (λ _ u. Has corpus u) (get_indexes g) s (λ indexes. cache_new indexes.1)
            (get_indexes_stays corpus s h)
            λ indexes u i.
              subst (λ d. After (Has corpus) (λ _ v. Has corpus v) (cache_new d u)) (sym i.1)
                (keep_new corpus u i.0))
  ]
