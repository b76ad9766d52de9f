-- ===== src/Ingest/Service.antt =====
-- src/auditflow/ingest/ingestion_service.py, and index/faiss_index.py. The chunker's record of the
-- contract is an argument; FAISS, the embedder, the files and the version in Redis are `Engine`.
pub mod Diff
pub mod Moves
pub mod Update
pub mod Deletion
pub mod Repeat
use audit_flow_ai.Base.{
  ℕ, zero, String, Bool, true, false, not, Option, none, some, List, [], ◌∷◌, ◌==◌, length, select,
  map, if◌then◌else◌, is_empty,
}
use audit_flow_ai.Base.Dict.{Dict, get, put, keys, values, contains}
use audit_flow_ai.Exec.{Result, ok, raised, Exec, ◌>>=◌, ◌>>◌, pure, raise, gets, modify, reraise}
use audit_flow_ai.Schemas.Errors.{audit, ingestion_error, other}
use audit_flow_ai.Schemas.Retrieval.{ChunkRecord}
use audit_flow_ai.Ingest.Store.{
  DocumentRecord, Registry, chunk_ids, get_document, get_chunk_ids_for_document,
  upsert_document_row, insert_chunks, delete_chunks, pop_all, corpus_add, delete_document_row,
}

pub record IngestResult : Type 0 where
  pub document_id : String
  pub added_chunks : ℕ
  pub deleted_chunks : ℕ
  pub unchanged_chunks : ℕ
  pub was_noop : Bool

-- What is handed to FAISS for a chunk: its id, the text that is embedded, and the document and the
-- chunk that the metadata are read from (`_chunk_metadata`).
pub record Entry : Type 0 where
  pub id : String
  pub text : String
  pub document : DocumentRecord
  pub chunk : ChunkRecord

-- `stored` is the ids of the FAISS store, `none` where there is none yet. `transact` is a writing
-- transaction of Postgres (`_cursor`): where it raises, it is rolled back.
pub record Engine : Type 1 where
  pub World : Type 0
  pub Vector : Type 0
  pub stored : World → Option (List String)
  pub embed_documents : List String → Exec World (List Vector)
  pub from_embeddings : List Entry → List Vector → Exec World Unit
  pub add_embeddings : List Entry → List Vector → Exec World Unit
  pub delete : List String → Exec World Unit
  pub save_local : Exec World Unit
  pub dump : Dict ChunkRecord → Exec World Unit
  pub transact : Exec World Unit
  pub bump_index_version : Exec World Unit

pub record Library (World : Type 0) : Type 0 where
  pub registry : Registry
  pub corpus : Dict ChunkRecord
  pub engine : World

-- `new_chunks_by_id`: a later chunk with the same id takes the earlier one's place.
unfoldable pub by_id : List ChunkRecord → Dict ChunkRecord
unfolding corpus_add
by_id chunks = corpus_add chunks []

-- The ids, and the chunks, that are not in a list of ids.
unfoldable pub minus : List String → List String → List String
minus a b = select (λ k. not (contains b k)) a

unfoldable pub new_rows : Dict ChunkRecord → List String → List ChunkRecord
new_rows [] old = []
new_rows ((k, c) ∷ rows) old =
    let rest = new_rows rows old in if contains old k then rest else c ∷ rest

-- the entries, and their vectors, whose ids are not stored
unfoldable pub keep : List String → List Entry → List Entry
keep existing_ids entries = select (λ e. not (contains existing_ids e.id)) entries

unfoldable pub keep_vectors : {V : Type 0} → List String → List Entry → List V → List V
keep_vectors existing_ids [] vectors = []
keep_vectors existing_ids (e ∷ entries) [] = []
keep_vectors existing_ids (e ∷ entries) (v ∷ vectors) =
    let rest = keep_vectors existing_ids entries vectors in
    if contains existing_ids e.id then rest else v ∷ rest

module _ (g : Engine) where
  abbrev pub Ingest : Type 0 → Type 0
  Ingest A = Exec (Library g.World) A

  abbrev on_engine : {A : Type 0} → Exec g.World A → Ingest A
  on_engine e s = let (x, w) = e s.engine in (x, record s { engine = w })

  abbrev on_registry : (Registry → Registry) → Ingest Unit
  on_registry h = on_engine g.transact >> modify (λ s. record s { registry = h s.registry })

  -- `if not …: return`
  abbrev unless_empty : {A : Type 0} → List A → Ingest Unit → Ingest Unit
  unless_empty [] step = pure tt
  unless_empty (x ∷ xs) step = step

  -- `FaissIndex.add`
  unfoldable pub faiss_add : List Entry → List g.Vector → Exec g.World Unit
  unfolding keep keep_vectors
  faiss_add entries vectors w = elim (g.stored w) [
    | none ↦ g.from_embeddings entries vectors w
    | some existing_ids ↦
        let kept = keep existing_ids entries in
        if is_empty kept
        then (ok tt, w)
        else g.add_embeddings kept (keep_vectors existing_ids entries vectors) w
  ]

  -- `FaissIndex.delete`
  unfoldable pub faiss_delete : List String → Exec g.World Unit
  faiss_delete [] w = (ok tt, w)
  faiss_delete (k ∷ ids) w = elim (g.stored w) [
    | none ↦ (ok tt, w)
    | some existing_ids ↦ g.delete (k ∷ ids) w
  ]

  -- `FaissIndex.save`: `store` raises where there is no index yet.
  unfoldable pub faiss_save : Exec g.World Unit
  faiss_save w = elim (g.stored w) [ none ↦ (raised other, w) | some existing_ids ↦ g.save_local w ]

  abbrev entry : DocumentRecord → ChunkRecord → Entry
  entry doc c = record { id = c.chunk_id; text = c.embedding_text; document = doc; chunk = c }

  -- `if to_add:`
  unfoldable pub index_new : DocumentRecord → List ChunkRecord → Exec g.World Unit
  unfolding faiss_add
  index_new doc [] = pure tt
  index_new doc (c ∷ to_add) = do
    embeddings ← g.embed_documents (map (λ c. c.embedding_text) (c ∷ to_add))
    faiss_add (map (entry doc) (c ∷ to_add)) embeddings

  -- `bm25_index.delete`, `add` and `save`
  unfoldable pub rewrite_corpus : List String → List ChunkRecord → Ingest Unit
  unfolding pop_all corpus_add
  rewrite_corpus to_delete to_add = do
    modify (λ s. record s { corpus = corpus_add to_add (pop_all to_delete s.corpus) })
    λ s. on_engine (g.dump s.corpus) s

  -- the body of the `try`
  unfoldable pub write : DocumentRecord → List String → List ChunkRecord → Ingest Unit
  unfolding faiss_delete index_new faiss_save rewrite_corpus
  write doc to_delete to_add = do
    on_engine (faiss_delete to_delete)
    on_engine (index_new doc to_add)
    on_engine faiss_save
    rewrite_corpus to_delete to_add
    on_registry (upsert_document_row doc)
    unless_empty to_delete (on_registry (delete_chunks to_delete))
    unless_empty to_add (on_registry (insert_chunks to_add))

  -- from `old_chunk_ids = …` on
  unfoldable pub update_document : DocumentRecord → List String → Ingest IngestResult
  unfolding by_id minus new_rows write
  update_document doc old_chunk_ids =
      let new_chunks_by_id = by_id doc.chunks in
      let new_chunk_ids = keys new_chunks_by_id in
      let to_delete = minus old_chunk_ids new_chunk_ids in
      let to_add = new_rows new_chunks_by_id old_chunk_ids in
      do
        λ s. reraise (audit ingestion_error) (write doc to_delete to_add s)
        on_engine g.bump_index_version
        pure (record {
          document_id = doc.document_id;
          added_chunks = length to_add;
          deleted_chunks = length to_delete;
          unchanged_chunks = length (select (λ k. contains old_chunk_ids k) new_chunk_ids);
          was_noop = false;
        })

  -- The chunker gives `None` for a contract with no text.
  unfoldable pub insert_or_update_document : Option DocumentRecord → Ingest IngestResult
  unfolding update_document get_document
  insert_or_update_document none s = (raised (audit ingestion_error), s)
  insert_or_update_document (some doc) s =
      let go =
        update_document doc (get_chunk_ids_for_document doc.document_id s.registry.chunks) s in
      elim (get_document doc.document_id s.registry) [
        | none ↦ go
        | some existing ↦
            if existing.content_hash == doc.content_hash
            then (
              ok (record {
                document_id = doc.document_id;
                added_chunks = 0;
                deleted_chunks = 0;
                unchanged_chunks = length existing.chunks;
                was_noop = true;
              }),
              s,
            )
            else go
      ]

  unfoldable pub erase : String → List String → Ingest Unit
  unfolding faiss_delete faiss_save rewrite_corpus
  erase document_id ids = do
    on_engine (faiss_delete ids)
    on_engine faiss_save
    rewrite_corpus ids []
    on_registry (delete_document_row document_id)

  unfoldable pub delete_ids : String → List String → Ingest Unit
  unfolding erase
  delete_ids document_id [] = raise (audit ingestion_error)
  delete_ids document_id (k ∷ ids) = do
    λ s. reraise (audit ingestion_error) (erase document_id (k ∷ ids) s)
    on_engine g.bump_index_version

  unfoldable pub delete_document : String → Ingest Unit
  unfolding delete_ids
  delete_document document_id s =
      delete_ids document_id (get_chunk_ids_for_document document_id s.registry.chunks) s
