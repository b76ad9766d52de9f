-- ===== src/Retrieval/Context.antt =====
-- The queries of src/auditflow/retrieval/retrieve.py: `hybrid_retrieve`, `cross_encoder_rank` and
-- `get_verification_context`.
pub mod Corpus
pub mod Runs
use audit_flow_ai.Base.{ℕ, zero, suc, String, Option, none, some, List, [], ◌∷◌, map, take}
use audit_flow_ai.Base.Dict.{Dict, get, values}
use audit_flow_ai.Base.Sorting.{sort_desc}
use audit_flow_ai.Exec.{Result, ok, raised, Exec, ◌>>=◌, ◌>>◌, pure, raise, reraise}
use audit_flow_ai.Schemas.Errors.{audit, retrieval_error, other}
use audit_flow_ai.Schemas.Floats.{Floats}
use audit_flow_ai.Schemas.Retrieval.{ChunkRecord, ChunkMatch, ConsistencyReport, RetrievalContext}
use audit_flow_ai.Retrieval.Caches.{
  Engines, Caches, Query, on_engines, tokens, get_indexes, get_cached_bm25, store,
}
use audit_flow_ai.Retrieval.Consistency.{check_docement_consistency}
use audit_flow_ai.Retrieval.Fusion.{reciprocal_rank_fusion}

module _ {A : Type 0} where
  unfoldable pub enumerate : ℕ → List A → List (ℕ × A)
  enumerate i [] = []
  enumerate i (x ∷ xs) = (i, x) ∷ enumerate (suc i) xs

  -- `xs[i]`
  unfoldable pub get_elem? : List A → ℕ → Option A
  get_elem? [] i = none
  get_elem? (x ∷ xs) zero = some x
  get_elem? (x ∷ xs) (suc i) = get_elem? xs i

  -- `zip(xs, ys)`
  unfoldable pub zip : {B : Type 0} → List A → List B → List (A × B)
  zip [] ys = []
  zip (x ∷ xs) [] = []
  zip (x ∷ xs) (y ∷ ys) = (x, y) ∷ zip xs ys

-- The records of the ids that the corpus has: the others are skipped.
unfoldable pub records : Dict ChunkRecord → List String → List ChunkRecord
records corpus [] = []
records corpus (id ∷ ids) =
    let rest = records corpus ids in elim (get id corpus) [ none ↦ rest | some c ↦ c ∷ rest ]

unfoldable pub to_chunk_match : {Float : Type 0} → ChunkRecord × Float → ChunkMatch Float
to_chunk_match (chunk, score) = record {
  chunk_id = chunk.chunk_id;
  document_id = chunk.document_id;
  raw_chunk_text = chunk.raw_chunk_text;
  score = score;
}

module _ {F : Floats} (g : Engines F) where
  -- `[chunk_ids_bm25[i] for i in …]` raises IndexError where the ids are too few.
  unfoldable pub pick : List String → List (ℕ × F.Float) → Query g (List String)
  unfolding get_elem?
  pick ids [] = pure []
  pick ids ((i, score) ∷ top) = elim (get_elem? ids i) [
    | none ↦ raise other
    | some id ↦ (do rest ← pick ids top; pure (id ∷ rest))
  ]

  unfoldable pub bm25_ranked : List String → List F.Float → Query g (List String)
  unfolding pick sort_desc enumerate
  bm25_ranked ids scores = pick ids (take 20 (sort_desc F.ltb (λ x. x.1) (enumerate 0 scores)))

  -- what follows once the indexes and the BM25 cache are there
  unfoldable pub search :
      String
      → ℕ
      → Option g.Store
      → Dict ChunkRecord
      → List String × g.Okapi
      → Query g (List ChunkRecord)
  unfolding store bm25_ranked reciprocal_rank_fusion records
  search query top_n_after_fusion faiss corpus cache = do
    vectors ← store g faiss
    hits ← on_engines g (g.similarity_search vectors query 20)
    scores ← on_engines g (g.get_scores cache.1 (tokens g query))
    ranked ← bm25_ranked cache.0 scores
    pure (
        records corpus (take top_n_after_fusion (reciprocal_rank_fusion F 60 (hits ∷ ranked ∷ []))))

  unfoldable pub hybrid_retrieve : String → ℕ → Query g (List ChunkRecord)
  unfolding get_indexes get_cached_bm25 search
  hybrid_retrieve query top_n_after_fusion = do
    indexes ← get_indexes g
    cache ← get_cached_bm25 g
    search query top_n_after_fusion indexes.0 indexes.1 cache

  unfoldable pub cross_encoder_rank :
      String → List ChunkRecord → ℕ → Query g (List (ChunkRecord × F.Float))
  unfolding zip sort_desc
  cross_encoder_rank query candidates top_k = do
    scores ← on_engines g (g.rerank (map (λ c. (query, c.embedding_text)) candidates))
    pure (take top_k (sort_desc F.ltb (λ x. x.1) (zip candidates scores)))

  unfoldable pub rank_candidates : String → Query g (List (ChunkRecord × F.Float))
  unfolding hybrid_retrieve cross_encoder_rank
  rank_candidates query = do
    candidates ← hybrid_retrieve query 20
    cross_encoder_rank query candidates 5

  -- outside the `try`
  unfoldable pub context_of : List (ChunkRecord × F.Float) → Query g (RetrievalContext F.Float)
  unfolding check_docement_consistency to_chunk_match
  context_of reranked s =
      elim (check_docement_consistency F reranked (F.decimal 6 1) (F.decimal 355 3)) [
        | raised e ↦ (raised e, s)
        | ok report ↦
            (ok (record { chunks = map to_chunk_match reranked; consistency = report }), s)
      ]

  unfoldable pub get_verification_context : String → Query g (RetrievalContext F.Float)
  unfolding rank_candidates context_of
  get_verification_context query = do
    reranked ← λ s. reraise (audit retrieval_error) (rank_candidates query s)
    context_of reranked
