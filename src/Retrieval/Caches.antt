-- ===== src/Retrieval/Caches.antt =====
-- The caches of src/auditflow/retrieval/retrieve.py and `Bm25Index` of ingest/index/bm25_index.py, as a
-- query process uses them. FAISS, the embedder, BM25Okapi, the reranker and the files are `Engines`.
pub mod Coherence
pub mod Reload
use audit_flow_ai.Base.{ℕ, String, true, false, Option, none, some, List, [], ◌∷◌, map, is_empty}
use audit_flow_ai.Base.Dict.{Dict, keys, values}
use audit_flow_ai.Base.Text.{Tables, split}
use audit_flow_ai.Exec.{
  Result, ok, raised, Exec, ◌>>=◌, ◌>>◌, pure, raise, raise_if, modify, reraise,
}
use audit_flow_ai.Schemas.Errors.{audit, retrieval_error, other}
use audit_flow_ai.Schemas.Floats.{Floats}
use audit_flow_ai.Schemas.Retrieval.{ChunkRecord}

-- `load_local` and `read_corpus` give `none` where there is no file. `similarity_search` gives the ids
-- in the metadata of the nearest documents, which `FaissIndex.add` wrote.
pub record Engines (F : Floats) : Type 1 where
  pub World : Type 0
  pub tables : Tables
  pub Embedder : Type 0
  pub Store : Type 0
  pub Okapi : Type 0
  pub load_embedder : Exec World Embedder
  pub load_local : Embedder → Exec World (Option Store)
  pub read_corpus : Exec World (Option (Dict ChunkRecord))
  pub okapi : List (List String) → Exec World Okapi
  pub similarity_search : Store → String → ℕ → Exec World (List String)
  pub get_scores : Okapi → List String → Exec World (List F.Float)
  pub rerank : List (String × String) → Exec World (List F.Float)

module _ {F : Floats} (g : Engines F) where
  -- `_embedder`, `_faiss_index`, `_bm25_index` and `_bm25_cache`
  pub record Caches : Type 0 where
    pub embedder : Option g.Embedder
    pub faiss_index : Option (Option g.Store)
    pub bm25_index : Option (Dict ChunkRecord)
    pub bm25_cache : Option (List String × g.Okapi)
    pub engines : g.World

  abbrev pub Query : Type 0 → Type 0
  Query A = Exec Caches A

  abbrev pub on_engines : {A : Type 0} → Exec g.World A → Query A
  on_engines e s = let (x, w) = e s.engines in (x, record s { engines = w })

  -- `text.lower().split()`
  abbrev pub tokens : String → List String
  tokens text = split g.tables.is_space (g.tables.lower text)

  -- `Bm25Index(path)`
  abbrev pub corpus_of : Option (Dict ChunkRecord) → Dict ChunkRecord
  corpus_of none = []
  corpus_of (some corpus) = corpus

  unfoldable pub new_bm25_index : Query (Dict ChunkRecord)
  new_bm25_index = do corpus ← on_engines g.read_corpus; pure (corpus_of corpus)

  unfoldable pub get_embedder : Query g.Embedder
  get_embedder s = elim s.embedder [
    | some e ↦ (ok e, s)
    | none ↦
        (do e ← on_engines g.load_embedder; modify (λ s. record s { embedder = some e }); pure e) s
  ]

  unfoldable pub get_faiss_index : g.Embedder → Query (Option g.Store)
  get_faiss_index embedder s = elim s.faiss_index [
    | some f ↦ (ok f, s)
    | none ↦
        (do
          f ← on_engines (g.load_local embedder)
          modify (λ s. record s { faiss_index = some f })
          pure f)
          s
  ]

  unfoldable pub get_bm25_index : Query (Dict ChunkRecord)
  unfolding new_bm25_index
  get_bm25_index s = elim s.bm25_index [
    | some corpus ↦ (ok corpus, s)
    | none ↦
        (do
          corpus ← new_bm25_index
          modify (λ s. record s { bm25_index = some corpus })
          pure corpus)
          s
  ]

  unfoldable pub get_indexes : Query (Option g.Store × Dict ChunkRecord)
  unfolding get_embedder get_faiss_index get_bm25_index
  get_indexes = do
    embedder ← get_embedder
    faiss ← get_faiss_index embedder
    corpus ← get_bm25_index
    pure (faiss, corpus)

  unfoldable pub build_bm25 : Dict ChunkRecord → Query (List String × g.Okapi)
  build_bm25 corpus = do
    index ← on_engines (g.okapi (map (λ c. tokens c.raw_chunk_text) (values corpus)))
    pure (keys corpus, index)

  unfoldable pub get_cached_bm25 : Query (List String × g.Okapi)
  unfolding get_indexes build_bm25
  get_cached_bm25 s = elim s.bm25_cache [
    | some cache ↦ (ok cache, s)
    | none ↦
        (do
          indexes ← get_indexes
          cache ← build_bm25 indexes.1
          modify (λ s. record s { bm25_cache = some cache })
          pure cache)
          s
  ]

  unfoldable pub invalidate_cache : Query Unit
  invalidate_cache = modify (λ s. record s { bm25_cache = none })

  -- `FaissIndex.store`
  unfoldable pub store : Option g.Store → Query g.Store
  store none = raise other
  store (some vectors) = pure vectors

  pub record Fresh : Type 0 where
    pub faiss : Option g.Store
    pub corpus : Dict ChunkRecord
    pub cache : List String × g.Okapi

  -- the body of the `try`
  unfoldable pub load_fresh : g.Embedder → Query Fresh
  unfolding new_bm25_index build_bm25 store
  load_fresh embedder = do
    faiss ← on_engines (g.load_local embedder)
    corpus ← new_bm25_index
    cache ← build_bm25 corpus
    _ ← store faiss
    raise_if (is_empty corpus) (audit retrieval_error)
    pure (record { faiss = faiss; corpus = corpus; cache = cache })

  -- under the lock
  unfoldable pub swap_in : Fresh → Query Unit
  swap_in new = modify (λ s. record s {
    faiss_index = some new.faiss;
    bm25_index = some new.corpus;
    bm25_cache = some new.cache;
  })

  unfoldable pub reload_index_from_disk : Query Unit
  unfolding get_indexes load_fresh swap_in
  reload_index_from_disk s = elim s.embedder [
    | none ↦ (do _ ← get_indexes; pure tt) s
    | some embedder ↦
        (do new ← λ s. reraise (audit retrieval_error) (load_fresh embedder s); swap_in new) s
  ]

  unfoldable pub get_all_chunks : Query (List ChunkRecord)
  unfolding get_indexes
  get_all_chunks = do indexes ← get_indexes; pure (values indexes.1)
