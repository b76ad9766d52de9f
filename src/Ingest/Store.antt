-- ===== src/Ingest/Store.antt =====
-- src/auditflow/ingest/store/document_store.py, over the tables of schema.sql, both keyed by their
-- primary key, and index/bm25_index.py, over a dict. The database answers.
use audit_flow_ai.Base.{String, Option, none, some, List, [], ◌∷◌, ◌==◌, leb, select, if◌then◌else◌}
use audit_flow_ai.Base.Dict.{Dict, get, put, pop, values}
use audit_flow_ai.Schemas.Retrieval.{ChunkRecord}

pub record DocumentRecord : Type 0 where
  pub document_id : String
  pub raw_title : String
  pub document_title : String
  pub content_hash : String
  pub company_name : String
  pub counterparty_name : String
  pub contract_type : String
  pub identity_source : String
  pub identity_confidence : String
  pub self_declared_hint : String
  pub chunks : List ChunkRecord

-- The tables `documents`, whose rows hold no chunks, and `chunks`.
pub record Registry : Type 0 where
  pub documents : Dict DocumentRecord
  pub chunks : Dict ChunkRecord

-- The rows of `chunks` with this `document_id`
unfoldable pub rows_of : String → List ChunkRecord → List ChunkRecord
rows_of document_id rows = select (λ c. c.document_id == document_id) rows

-- `ORDER BY chunk_index`
unfoldable pub insert_by_index : ChunkRecord → List ChunkRecord → List ChunkRecord
insert_by_index c [] = c ∷ []
insert_by_index c (d ∷ rows) =
    let rest = insert_by_index c rows in
    if leb c.chunk_index d.chunk_index then c ∷ d ∷ rows else d ∷ rest

unfoldable pub by_index : List ChunkRecord → List ChunkRecord
unfolding insert_by_index
by_index [] = []
by_index (c ∷ rows) = insert_by_index c (by_index rows)

unfoldable pub get_document : String → Registry → Option DocumentRecord
unfolding rows_of by_index
get_document document_id r = elim (get document_id r.documents) [
  | none ↦ none
  | some row ↦ some (record row { chunks = by_index (rows_of document_id (values r.chunks)) })
]

abbrev pub chunk_ids : List ChunkRecord → List String
chunk_ids [] = []
chunk_ids (c ∷ rows) = c.chunk_id ∷ chunk_ids rows

-- The ids of a document's rows. A row's key is its `chunk_id`.
unfoldable pub get_chunk_ids_for_document : String → Dict ChunkRecord → List String
get_chunk_ids_for_document document_id [] = []
get_chunk_ids_for_document document_id ((k, c) ∷ rows) =
    let rest = get_chunk_ids_for_document document_id rows in
    if c.document_id == document_id then k ∷ rest else rest

unfoldable pub upsert_document_row : DocumentRecord → Registry → Registry
upsert_document_row doc r = record r {
  documents = put doc.document_id (record doc { chunks = [] }) r.documents;
}

-- `ON CONFLICT (chunk_id) DO NOTHING`
unfoldable pub put_new : ChunkRecord → Dict ChunkRecord → Dict ChunkRecord
put_new c rows = elim (get c.chunk_id rows) [ none ↦ put c.chunk_id c rows | some old ↦ rows ]

unfoldable pub insert_rows : List ChunkRecord → Dict ChunkRecord → Dict ChunkRecord
unfolding put_new
insert_rows [] rows = rows
insert_rows (c ∷ chunks) rows = insert_rows chunks (put_new c rows)

unfoldable pub insert_chunks : List ChunkRecord → Registry → Registry
unfolding insert_rows
insert_chunks chunks r = record r { chunks = insert_rows chunks r.chunks }

-- `for cid in chunk_ids: corpus.pop(cid, None)`, and `DELETE … WHERE chunk_id = ANY(…)`
unfoldable pub pop_all : List String → Dict ChunkRecord → Dict ChunkRecord
pop_all [] rows = rows
pop_all (k ∷ ids) rows = pop_all ids (pop k rows)

unfoldable pub delete_chunks : List String → Registry → Registry
unfolding pop_all
delete_chunks ids r = record r { chunks = pop_all ids r.chunks }

unfoldable pub without_document : String → Dict ChunkRecord → Dict ChunkRecord
without_document document_id [] = []
without_document document_id ((k, c) ∷ rows) =
    let rest = without_document document_id rows in
    if c.document_id == document_id then rest else (k, c) ∷ rest

-- The rows of `chunks` go with their document: ON DELETE CASCADE.
unfoldable pub delete_document_row : String → Registry → Registry
unfolding without_document
delete_document_row document_id r = record {
  documents = pop document_id r.documents;
  chunks = without_document document_id r.chunks;
}

-- `Bm25Index.add`
unfoldable pub corpus_add : List ChunkRecord → Dict ChunkRecord → Dict ChunkRecord
corpus_add [] corpus = corpus
corpus_add (c ∷ chunks) corpus = corpus_add chunks (put c.chunk_id c corpus)
