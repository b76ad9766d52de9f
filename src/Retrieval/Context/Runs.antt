-- ===== src/Retrieval/Context/Runs.antt =====
-- A query process as the sequence of the calls on its caches.
use mathlib.Core.Path.{subst}
use audit_flow_ai.Schemas.Retrieval.{RetrievalContext}
use audit_flow_ai.Base.{String, ◌≡◌, sym, none, inl, inr, Option-cases}
use audit_flow_ai.Exec.{Result, ok, raised, ◌>>=◌, pure, After, After-bind}
use audit_flow_ai.Schemas.Floats.{Floats}
use audit_flow_ai.Base.Sorting.{IsOrder}
use audit_flow_ai.Base.Dict.{values}
use audit_flow_ai.Retrieval.Caches.{
  Engines, Caches, get_indexes, get_cached_bm25, invalidate_cache, reload_index_from_disk,
  get_all_chunks,
}
use audit_flow_ai.Retrieval.Caches.Coherence.{
  IsCoherent, Has, get_indexes-After, get_cached_bm25-After,
}
use audit_flow_ai.Retrieval.Caches.Reload.{Reloaded, reload_index_from_disk-Reloaded}
use audit_flow_ai.Retrieval.Context.{get_verification_context}
use audit_flow_ai.Retrieval.Context.Corpus.{Context, get_verification_context-Context}

module _ {F : Floats} (g : Engines F) where
  -- One call, by a request, by the retry layer or by the cache watcher
  pub data Call : Caches g → Caches g → Type 0 where
    all_chunks : {s : Caches g} → Call s (get_all_chunks g s).1
    bm25 : {s : Caches g} → Call s (get_cached_bm25 g s).1
    invalidate : {s : Caches g} → Call s (invalidate_cache g s).1
    reload : {s : Caches g} → Call s (reload_index_from_disk g s).1
    context : {s : Caches g} (query : String) → Call s (get_verification_context g query s).1

  pub data Run : Caches g → Caches g → Type 0 where
    here : {s : Caches g} → Run s s
    next : {s u v : Caches g} → Run s u → Call u v → Run s v

  -- The caches of a process that has just started
  abbrev pub started : g.World → Caches g
  started w = record {
    embedder = none;
    faiss_index = none;
    bm25_index = none;
    bm25_cache = none;
    engines = w;
  }

  ended :
      {A : Type 0} (r : Result A × Caches g)
      → After (IsCoherent g) (λ _ u. IsCoherent g u) r
      → IsCoherent g r.1
  ended (ok a, u) h = h
  ended (raised e, u) h = h

  get_all_chunks-After :
      (s : Caches g)
      → IsCoherent g s
      → After (IsCoherent g) (λ _ u. IsCoherent g u) (get_all_chunks g s)
  unfolding get_all_chunks
  get_all_chunks-After s h =
      After-bind (IsCoherent g) (λ indexes u. Has g indexes.1 u) (λ _ u. IsCoherent g u)
        (get_indexes g) s (λ indexes. pure (values indexes.1)) (get_indexes-After g s h)
        (λ indexes u i. i.0)

  Reloaded-IsCoherent :
      (s : Caches g) (r : Result Unit × Caches g)
      → IsCoherent g s
      → Reloaded g s r
      → IsCoherent g r.1
  unfolding Reloaded
  Reloaded-IsCoherent s (ok x, u) h (new, fresh, e) = subst (IsCoherent g) (sym e) (fresh.ids)
  Reloaded-IsCoherent s (raised x, u) h (_, e) = subst (IsCoherent g) (sym e) h

  first_load :
      (s : Caches g)
      → IsCoherent g s
      → After (IsCoherent g) (λ _ u. IsCoherent g u) ((get_indexes g >>= λ _. pure tt) s)
  first_load s h =
      After-bind (IsCoherent g) (λ indexes u. Has g indexes.1 u) (λ _ u. IsCoherent g u)
        (get_indexes g) s (λ _. pure tt) (get_indexes-After g s h) (λ indexes u i. i.0)

  at_first :
      (s : Caches g)
      → IsCoherent g s
      → s.embedder ≡ none
      → IsCoherent g (reload_index_from_disk g s).1
  unfolding reload_index_from_disk
  at_first s h e =
      simp (e, reload_index_from_disk) (ended ((get_indexes g >>= λ _. pure tt) s) (first_load s h))

  reload-IsCoherent : (s : Caches g) → IsCoherent g s → IsCoherent g (reload_index_from_disk g s).1
  reload-IsCoherent s h = elim (Option-cases s.embedder) [
    | inl e ↦ at_first s h e
    | inr (embedder, e) ↦
        Reloaded-IsCoherent s (reload_index_from_disk g s) h
          (reload_index_from_disk-Reloaded g embedder s e)
  ]

  Context-IsCoherent :
      (r : Result (RetrievalContext F.Float) × Caches g) → Context g r → IsCoherent g r.1
  unfolding Context
  Context-IsCoherent (ok c, u) (reranked, top, _, _) = top.loaded.0
  Context-IsCoherent (raised e, u) h = h.0

  module _ (order : IsOrder F.ltb) where
    call-IsCoherent : {s u : Caches g} → Call s u → IsCoherent g s → IsCoherent g u
    unfolding invalidate_cache
    call-IsCoherent {s} all_chunks h = ended (get_all_chunks g s) (get_all_chunks-After s h)
    call-IsCoherent {s} bm25 h = ended (get_cached_bm25 g s) (get_cached_bm25-After g s h)
    call-IsCoherent invalidate h = tt
    call-IsCoherent {s} reload h = reload-IsCoherent s h
    call-IsCoherent {s} (context query) h =
        Context-IsCoherent (get_verification_context g query s)
          (get_verification_context-Context g order query s h)

    Run-IsCoherent : {s u : Caches g} → Run s u → IsCoherent g s → IsCoherent g u
    Run-IsCoherent here h = h
    Run-IsCoherent (next r c) h = call-IsCoherent c (Run-IsCoherent r h)

    -- Whatever calls a process makes on the caches after its start, each of which may fail anywhere: a BM25
    -- cache that is there was built from the corpus that is there, its ids are that corpus' keys.
    pub run-IsCoherent : (w : g.World) {u : Caches g} → Run (started w) u → IsCoherent g u
    run-IsCoherent w r = Run-IsCoherent r tt
