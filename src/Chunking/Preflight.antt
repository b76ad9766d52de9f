-- ===== src/Chunking/Preflight.antt =====
-- src/auditflow/ingest/pre_flight_check.py, without what it prints
pub mod Clashes
pub mod Ids
pub mod Safety
use Prim.Native.Nat.{◌%◌}
use audit_flow_ai.Base.{
  ℕ, zero, suc, ◌+◌, ◌*◌, ◌-◌, String, ◌<>◌, ◌==◌, Bool, true, false, not, ◌||◌, ◌&&◌, Option, none,
  some, List, [], ◌∷◌, ◌++◌, nat_eq, if◌then◌else◌, length, is_empty, ◌/◌,
}
use audit_flow_ai.Base.Dict.{Dict, get, put}
use audit_flow_ai.Chunking.Titles.{ParsedTitle, parse_title}
use audit_flow_ai.Chunking.Records.{
  DocumentIdentity, Contract, Chunker, context_text, take_text, document_id_for, hash_preamble,
  build_document_record,
}
use audit_flow_ai.Ingest.Store.{DocumentRecord}
use audit_flow_ai.Schemas.Retrieval.{ChunkRecord}

-- an id, the title that has it, and the later title that has it too
pub record Collision : Type 0 where
  pub id : String
  pub first : String
  pub second : String

pub record TitleReport : Type 0 where
  pub total_contracts : ℕ
  pub no_context : List String
  pub document_id_collisions : List Collision
  pub low_confidence_titles : List ParsedTitle

pub record ChunkReport : Type 0 where
  pub total_chunks : ℕ
  pub per_doc_chunk_counts : List (String × ℕ)
  pub empty_docs : List String
  pub chunk_id_collisions : List Collision

-- The collision of a title with the one that has its id already
unfoldable pub clash : String → String → Option String → List Collision
clash id title none = []
clash id title (some first) =
    if first == title then [] else (record { id = id; first = first; second = title }) ∷ []

unfoldable pub claim_id : String → String → Dict String → Dict String
unfolding clash
claim_id id title seen_ids =
    if is_empty (clash id title (get id seen_ids)) then put id title seen_ids else seen_ids

unfoldable pub text_or_empty : Option String → String
text_or_empty none = ""
text_or_empty (some s) = s

module _ (k : Chunker) where
  -- the titles of the contracts that have a context
  unfoldable pub titles : List Contract → List String
  unfolding context_text
  titles [] = []
  titles (c ∷ contracts) =
      let rest = titles contracts in
      elim (context_text c) [ none ↦ rest | some text ↦ c.title ∷ rest ]

  unfoldable pub no_context : List Contract → List String
  unfolding context_text
  no_context [] = []
  no_context (c ∷ contracts) =
      let rest = no_context contracts in
      elim (context_text c) [ none ↦ c.title ∷ rest | some text ↦ rest ]

  unfoldable pub id_collisions : Dict String → List String → List Collision
  unfolding document_id_for claim_id clash
  id_collisions seen_ids [] = []
  id_collisions seen_ids (title ∷ rest) =
      let doc_id = document_id_for k title in
      clash doc_id title (get doc_id seen_ids)
      ++ id_collisions (claim_id doc_id title seen_ids) rest

  unfoldable pub low_confidence : List String → List ParsedTitle
  unfolding parse_title
  low_confidence [] = []
  low_confidence (title ∷ rest) =
      let others = low_confidence rest in
      let parsed = parse_title k.titling title in
      if parsed.parse_confidence == "low" then parsed ∷ others else others

  unfoldable pub check_titles : List Contract → TitleReport
  unfolding titles no_context id_collisions low_confidence
  check_titles contracts = record {
    total_contracts = length contracts;
    no_context = no_context contracts;
    document_id_collisions = id_collisions [] (titles contracts);
    low_confidence_titles = low_confidence (titles contracts);
  }

  -- the identity of a contract, where the identities were extracted
  unfoldable pub identity_for : Option (Dict DocumentIdentity) → Contract → Option DocumentIdentity
  unfolding take_text hash_preamble text_or_empty
  identity_for none contract = none
  identity_for (some identities) contract =
      get (hash_preamble k (take_text 1500 (text_or_empty contract.context))) identities

  -- the chunks of a document: the collisions, and the ids with their documents
  unfoldable pub chunk_collisions : String → List ChunkRecord → Dict String → List Collision
  unfolding clash
  chunk_collisions document_id [] all_chunk_ids = []
  chunk_collisions document_id (c ∷ chunks) all_chunk_ids =
      clash c.chunk_id document_id (get c.chunk_id all_chunk_ids)
      ++ chunk_collisions document_id chunks (put c.chunk_id document_id all_chunk_ids)

  unfoldable pub note_chunks : String → List ChunkRecord → Dict String → Dict String
  note_chunks document_id [] all_chunk_ids = all_chunk_ids
  note_chunks document_id (c ∷ chunks) all_chunk_ids =
      note_chunks document_id chunks (put c.chunk_id document_id all_chunk_ids)

  unfoldable pub corpus_collisions : List DocumentRecord → Dict String → List Collision
  unfolding chunk_collisions note_chunks
  corpus_collisions [] all_chunk_ids = []
  corpus_collisions (doc ∷ docs) all_chunk_ids =
      chunk_collisions doc.document_id doc.chunks all_chunk_ids
      ++ corpus_collisions docs (note_chunks doc.document_id doc.chunks all_chunk_ids)

  -- the records of the contracts that have a context
  unfoldable pub documents : Option (Dict DocumentIdentity) → List Contract → List DocumentRecord
  unfolding build_document_record identity_for
  documents identities [] = []
  documents identities (c ∷ contracts) =
      let rest = documents identities contracts in
      elim (build_document_record k c 1000 200 (identity_for identities c)) [
        | none ↦ rest
        | some doc ↦ doc ∷ rest
      ]

  unfoldable pub empty_docs : List DocumentRecord → List String
  empty_docs [] = []
  empty_docs (doc ∷ docs) =
      let rest = empty_docs docs in if is_empty doc.chunks then doc.document_id ∷ rest else rest

  unfoldable pub chunk_counts : List DocumentRecord → List (String × ℕ)
  chunk_counts [] = []
  chunk_counts (doc ∷ docs) =
      let rest = chunk_counts docs in
      if is_empty doc.chunks then rest else (doc.document_id, length doc.chunks) ∷ rest

  unfoldable pub count_chunks : List DocumentRecord → ℕ
  count_chunks [] = 0
  count_chunks (doc ∷ docs) = length doc.chunks + count_chunks docs

  unfoldable pub check_chunking : List Contract → Option (Dict DocumentIdentity) → ChunkReport
  unfolding documents corpus_collisions empty_docs chunk_counts count_chunks
  check_chunking contracts identities =
      let docs = documents identities contracts in
      record {
        total_chunks = count_chunks docs;
        per_doc_chunk_counts = chunk_counts docs;
        empty_docs = empty_docs docs;
        chunk_id_collisions = corpus_collisions docs [];
      }

-- `-(-total_chunks // batch_size)`: floor division of a negative number rounds away from zero.
unfoldable pub batches : ℕ → ℕ → ℕ
batches total_chunks batch_size =
    if nat_eq (total_chunks % batch_size) 0
    then total_chunks / batch_size
    else total_chunks / batch_size + 1

-- What `print_report` returns
unfoldable pub print_report : TitleReport → ChunkReport → Bool
print_report title_report chunk_report =
    is_empty title_report.document_id_collisions && is_empty chunk_report.chunk_id_collisions
