-- ===== src/Tests/Ingesting.antt =====
-- An update of a document of two chunks that drops one and adds one.
use audit_flow_ai.Base.{ℕ, ◌+◌, ◌≡◌, refl, some, List, [], ◌∷◌, String, nat_eq, leb, if◌then◌else◌}
use audit_flow_ai.Base.Dict.{get, put, pop, keys, values, contains}
use audit_flow_ai.Exec.{ok, raised}
use audit_flow_ai.Schemas.Errors.{other}
use audit_flow_ai.Schemas.Retrieval.{ChunkRecord}
use audit_flow_ai.Ingest.Store.{
  DocumentRecord, rows_of, insert_by_index, by_index, get_document, get_chunk_ids_for_document,
  upsert_document_row, put_new, insert_rows, insert_chunks, pop_all, delete_chunks, corpus_add,
}
use audit_flow_ai.Ingest.Service.Repeat.{Repeats, insert_or_update_document-Repeats}
use audit_flow_ai.Ingest.Service.Deletion.{Done as Deleting, delete_document-Done}
use audit_flow_ai.Ingest.Store.{delete_document_row, without_document}
use audit_flow_ai.Ingest.Service.{delete_document, delete_ids, erase}
use audit_flow_ai.Ingest.Service.{
  Engine, Library, by_id, minus, new_rows, keep, keep_vectors, faiss_add, faiss_delete, faiss_save,
  index_new, rewrite_corpus, write, update_document, insert_or_update_document,
}
use audit_flow_ai.Ingest.Service.Update.{Done}

-- The engine counts what it is asked to do; the files cannot be written from the tenth request on.
abbrev engine : Engine
engine = record {
  World = ℕ;
  Vector = String;
  stored = λ n. some ("a::1" ∷ "a::2" ∷ []);
  embed_documents = λ texts n. (ok texts, n + 1);
  from_embeddings = λ entries vectors n. (ok tt, n + 1);
  add_embeddings = λ entries vectors n. (ok tt, n + 1);
  delete = λ ids n. (ok tt, n + 1);
  save_local = λ n. ((if leb 10 n then raised other else ok tt), n + 1);
  dump = λ corpus n. (ok tt, n + 1);
  transact = λ n. (ok tt, n + 1);
  bump_index_version = λ n. (ok tt, n + 1);
}

abbrev row : String → ℕ → ChunkRecord
row chunk_id chunk_index = record {
  chunk_id = chunk_id;
  document_id = "a";
  chunk_index = chunk_index;
  raw_chunk_text = chunk_id;
  embedding_text = chunk_id;
  content_hash = chunk_id;
  is_preamble = nat_eq chunk_index 0;
}

abbrev version : String → List ChunkRecord → DocumentRecord
version content_hash chunks = record {
  document_id = "a";
  raw_title = "a";
  document_title = "a";
  content_hash = content_hash;
  company_name = "";
  counterparty_name = "";
  contract_type = "";
  identity_source = "";
  identity_confidence = "";
  self_declared_hint = "";
  chunks = chunks;
}

abbrev library : ℕ → Library ℕ
library n = record {
  registry = record {
    documents = ("a", version "old" []) ∷ [];
    chunks = ("a::1", row "a::1" 0) ∷ ("a::2", row "a::2" 1) ∷ [];
  };
  corpus = [];
  engine = n;
}

abbrev next : DocumentRecord
next = version "new" (row "a::3" 0 ∷ row "a::1" 1 ∷ [])

-- "a::1" keeps its row, with the place that it had.
update_runs :
    (insert_or_update_document engine (some next) (library 0)).1.registry.chunks
    ≡ ("a::1", row "a::1" 0) ∷ ("a::3", row "a::3" 0) ∷ []
unfolding insert_or_update_document get_document rows_of by_index insert_by_index
    get_chunk_ids_for_document update_document by_id minus new_rows keep keep_vectors faiss_add
    faiss_delete faiss_save index_new rewrite_corpus write upsert_document_row put_new insert_rows
    insert_chunks pop_all delete_chunks corpus_add get put pop keys values contains
update_runs = refl

-- An engine whose transactions fail from the seventh request on: the row is written, and then the
-- stale chunk cannot be deleted.
abbrev halting : Engine
halting = record engine { transact = λ n. ((if leb 6 n then raised other else ok tt), n + 1) }

half_runs : (insert_or_update_document halting (some next) (library 0)).1.registry ≡ record {
  documents = ("a", version "new" []) ∷ [];
  chunks = ("a::1", row "a::1" 0) ∷ ("a::2", row "a::2" 1) ∷ [];
}
unfolding insert_or_update_document get_document rows_of by_index insert_by_index
    get_chunk_ids_for_document update_document by_id minus new_rows keep keep_vectors faiss_add
    faiss_delete faiss_save index_new rewrite_corpus write upsert_document_row put_new insert_rows
    insert_chunks pop_all delete_chunks corpus_add get put pop keys values contains
half_runs = refl

delete_runs :
    (delete_document engine "a" (library 0)).1.registry ≡ record { documents = []; chunks = [] }
unfolding delete_document delete_ids erase faiss_delete faiss_save rewrite_corpus
    delete_document_row without_document get_chunk_ids_for_document pop pop_all corpus_add
delete_runs = refl

delete_document-Done_example :
    Deleting engine "a" (library 0).registry (delete_document engine "a" (library 0))
delete_document-Done_example = delete_document-Done engine "a" (library 0)

insert_or_update_document-Repeats_example :
    Repeats engine next
      (library 0).registry
      (insert_or_update_document engine (some next) (library 0))
insert_or_update_document-Repeats_example =
    insert_or_update_document-Repeats engine next (library 0)
