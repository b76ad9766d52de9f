-- ===== src/Retrieval/Caches/Reload.antt =====
-- A reload of the indexes takes all or nothing.
use audit_flow_ai.Base.{String, false, ◌≡◌, refl, ap, Option, none, some, List, [], ◌∷◌, is_empty}
use audit_flow_ai.Base.Dict.{Dict, keys}
use audit_flow_ai.Exec.{Result, ok, raised, ◌>>=◌, pure, raise_if, reraise, After, After-bind}
use audit_flow_ai.Schemas.Errors.{audit, retrieval_error}
use audit_flow_ai.Schemas.Floats.{Floats}
use audit_flow_ai.Schemas.Retrieval.{ChunkRecord}
use audit_flow_ai.Retrieval.Caches.{
  Engines, Caches, Query, Fresh, on_engines, new_bm25_index, build_bm25, store, load_fresh, swap_in,
  reload_index_from_disk,
}
use audit_flow_ai.Retrieval.Caches.Coherence.{
  Built, on_engines-After, new_bm25_index-After, build_bm25-After,
}

module _ {F : Floats} (g : Engines F) where
  -- The caches are the old ones; only the engines have been called.
  abbrev pub Same : Caches g → Caches g → Type 0
  Same s u = u ≡ record s { engines = u.engines }

  -- what a reload swaps in
  pub record IsFresh (new : Fresh g) : Type 0 where
    pub full : is_empty new.corpus ≡ false
    pub index : (x : g.Store) × (new.faiss ≡ some x)
    pub ids : new.cache.0 ≡ keys new.corpus

  abbrev checked : Option g.Store → Dict ChunkRecord → List String × g.Okapi → Query g (Fresh g)
  checked faiss corpus cache = store g faiss >>= λ _.
      raise_if (is_empty corpus) (audit retrieval_error) >>= λ _.
      pure (record { faiss = faiss; corpus = corpus; cache = cache })

  checked-After :
      (s : Caches g) (faiss : Option g.Store) (corpus : Dict ChunkRecord)
      (cache : List String × g.Okapi) (u : Caches g)
      → Same s u
      → cache.0 ≡ keys corpus
      → After (Same s) (λ new v. Same s v × IsFresh new) (checked faiss corpus cache u)
  unfolding store
  checked-After s none corpus cache u h e = h
  checked-After s (some x) [] cache u h e = h
  checked-After s (some x) (c ∷ corpus) cache u h e =
      (h, record { full = refl; index = (x, refl); ids = e })

  load_fresh-After :
      (embedder : g.Embedder) (s : Caches g)
      → After (Same s) (λ new u. Same s u × IsFresh new) (load_fresh g embedder s)
  unfolding load_fresh
  load_fresh-After embedder s =
      After-bind (Same s) (λ _ u. Same s u) (λ new u. Same s u × IsFresh new)
        (on_engines g (g.load_local embedder)) s
        (λ faiss. new_bm25_index g >>= λ corpus.
          build_bm25 g corpus >>= λ cache. checked faiss corpus cache)
        (on_engines-After g (Same s) (g.load_local embedder) s (λ w. refl))
        λ faiss u i.
          After-bind (Same s) (λ _ u. Same s u) (λ new u. Same s u × IsFresh new) (new_bm25_index g)
            u (λ corpus. build_bm25 g corpus >>= λ cache. checked faiss corpus cache)
            (new_bm25_index-After g (Same s) u
              (λ w. ap {A = Caches g} (λ v. record v { engines = w }) i))
            λ corpus v j.
              After-bind (Same s) (Built g (Same s) corpus) (λ new u. Same s u × IsFresh new)
                (build_bm25 g corpus) v (checked faiss corpus)
                (build_bm25-After g (Same s) corpus v
                  (λ w. ap {A = Caches g} (λ v. record v { engines = w }) j))
                (λ cache w k. checked-After s faiss corpus cache w k.0 k.1)

  -- What a reload leaves: the old caches and a RetrievalError, or new ones, of a corpus that is not empty.
  unfoldable pub Reloaded : Caches g → Result Unit × Caches g → Type 0
  Reloaded s (raised e, u) = (e ≡ audit retrieval_error) × Same s u
  Reloaded s (ok x, u) =
      (new : Fresh g) × IsFresh new
      × (u ≡ record s {
        faiss_index = some new.faiss;
        bm25_index = some new.corpus;
        bm25_cache = some new.cache;
        engines = u.engines;
      })

  swapped :
      (s : Caches g) (r : Result (Fresh g) × Caches g)
      → After (Same s) (λ new u. Same s u × IsFresh new) r
      → Reloaded s (((λ _. reraise (audit retrieval_error) r) >>= swap_in g) s)
  unfolding Reloaded swap_in
  swapped s (ok new, u) h = (
    new,
    h.1,
    ap {A = Caches g}
        (λ v. record v {
          faiss_index = some new.faiss;
          bm25_index = some new.corpus;
          bm25_cache = some new.cache;
        })
        h.0,
  )
  swapped s (raised e, u) h = (refl, h)

  -- Once the embedder is loaded, a reload that fails at any point raises RetrievalError and leaves the
  -- four caches as they were, and one that succeeds replaces the FAISS index, the corpus and the BM25
  -- cache together, by an index that exists, a corpus that is not empty, and a cache with its keys.
  pub reload_index_from_disk-Reloaded :
      (embedder : g.Embedder) (s : Caches g)
      → s.embedder ≡ some embedder
      → Reloaded s (reload_index_from_disk g s)
  unfolding reload_index_from_disk
  reload_index_from_disk-Reloaded embedder s e =
      simp (e, reload_index_from_disk)
        (swapped s (load_fresh g embedder s) (load_fresh-After embedder s))
