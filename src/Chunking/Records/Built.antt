-- ===== src/Chunking/Records/Built.antt =====
-- What the record of a contract says of its text.
use audit_flow_ai.Base.{
  ℕ, zero, suc, ◌+◌, ◌≤◌, ◌<◌, String, ◌<>◌, false, not, ◌≡◌, refl, ap, Option, none, some, List,
  [], ◌∷◌, map, select, nat_eq, Bool-cases, Option-cases, inl, inr, All, All-map, Apart, arith,
}
use audit_flow_ai.Base.Text.{is_blank}
use audit_flow_ai.Chunking.Titles.{parse_title}
use audit_flow_ai.Chunking.Records.{
  Chunker, Contract, DocumentIdentity, context_text, document_id_for, content_hash, chunk_id_of,
  clean, chunk_records, metadata, build_document_record,
}
use audit_flow_ai.Ingest.Store.{DocumentRecord}
use audit_flow_ai.Schemas.Retrieval.{ChunkRecord}

le_pred : (a b : ℕ) → suc a ≤ b → a ≤ b
le_pred a b h = omega arith

le_lt : (a b : ℕ) → suc a ≤ b → a < b
le_lt a b h = omega arith

-- the piece at a place, from 0
unfoldable pub piece_at : List String → ℕ → Option String
piece_at [] n = none
piece_at (p ∷ pieces) zero = some p
piece_at (p ∷ pieces) (suc n) = piece_at pieces n

module _ (k : Chunker) where
  -- A chunk of a document, by its own text and place
  pub record IsChunk (document_id document_title : String) (c : ChunkRecord) : Type 0 where
    pub of_document : c.document_id ≡ document_id
    pub addressed : c.chunk_id ≡ chunk_id_of k document_id c.raw_chunk_text
    pub filled : is_blank c.raw_chunk_text ≡ false
    pub embedded : c.embedding_text ≡ document_title <> "\n\n" <> c.raw_chunk_text
    pub hashed : c.content_hash ≡ k.sha256_hex c.raw_chunk_text
    pub first : c.is_preamble ≡ nat_eq c.chunk_index 0

  -- The piece of the splitter that a chunk was cleaned from is the one at the chunk's place.
  abbrev IsPiece : List String → ChunkRecord → Type 0
  IsPiece raw c =
      (piece : String) × (piece_at raw c.chunk_index ≡ some piece)
      × (c.raw_chunk_text ≡ clean k piece)

  -- the same, with the places counted from `idx`
  abbrev IsPieceFrom : ℕ → List String → ChunkRecord → Type 0
  IsPieceFrom idx raw c =
      (n : ℕ) × (piece : String) × (c.chunk_index ≡ idx + n)
      × (piece_at raw n ≡ some piece)
      × (c.raw_chunk_text ≡ clean k piece)

  chunks-IsPieceFrom :
      (d title : String) (idx : ℕ) (raw : List String)
      → All (IsPieceFrom idx raw) (chunk_records k d title idx raw)
  unfolding chunk_records piece_at
  chunks-IsPieceFrom d title idx [] = tt
  chunks-IsPieceFrom d title idx (r ∷ raw) =
      let rest : All (IsPieceFrom idx (r ∷ raw)) (chunk_records k d title (suc idx) raw) =
        All-map (λ c (n, piece, at, there, same). (suc n, piece, omega arith, there, same))
          (chunk_records k d title (suc idx) raw) (chunks-IsPieceFrom d title (suc idx) raw) in
      elim (Bool-cases (is_blank (clean k r))) [
        | inl e ↦ rw (e, chunk_records) rest
        | inr e ↦ rw (e, chunk_records) ((0, r, omega arith, refl, refl), rest)
      ]

  chunks-IsPiece :
      (d title : String) (raw : List String) → All (IsPiece raw) (chunk_records k d title 0 raw)
  chunks-IsPiece d title raw =
      All-map
        (λ c (n, piece, at, there, same).
          let here : c.chunk_index ≡ n = omega arith in (piece, rw here there, same))
        (chunk_records k d title 0 raw) (chunks-IsPieceFrom d title 0 raw)

  chunks-IsChunk :
      (d title : String) (idx : ℕ) (raw : List String)
      → All (IsChunk d title) (chunk_records k d title idx raw)
  unfolding chunk_records content_hash
  chunks-IsChunk d title idx [] = tt
  chunks-IsChunk d title idx (r ∷ raw) =
      let rest = chunks-IsChunk d title (suc idx) raw in
      elim (Bool-cases (is_blank (clean k r))) [
        | inl e ↦ rw (e, chunk_records) rest
        | inr e ↦
            rw (e, chunk_records)
              (
                record {
                  of_document = refl;
                  addressed = refl;
                  filled = e;
                  embedded = refl;
                  hashed = refl;
                  first = refl;
                },
                rest,
              )
      ]

  abbrev IsAfter : ℕ → ChunkRecord → Type 0
  IsAfter idx c = idx ≤ c.chunk_index

  chunks-IsAfter :
      (d title : String) (idx : ℕ) (raw : List String)
      → All (IsAfter idx) (chunk_records k d title idx raw)
  unfolding chunk_records
  chunks-IsAfter d title idx [] = tt
  chunks-IsAfter d title idx (r ∷ raw) =
      let rest =
        All-map (λ c h. le_pred idx c.chunk_index h) (chunk_records k d title (suc idx) raw)
          (chunks-IsAfter d title (suc idx) raw) in
      elim (Bool-cases (is_blank (clean k r))) [
        | inl e ↦ rw (e, chunk_records) rest
        | inr e ↦ rw (e, chunk_records) (omega arith, rest)
      ]

  chunks-Apart :
      (d title : String) (idx : ℕ) (raw : List String)
      → Apart (λ a b. a.chunk_index < b.chunk_index) (chunk_records k d title idx raw)
  unfolding chunk_records
  chunks-Apart d title idx [] = tt
  chunks-Apart d title idx (r ∷ raw) = elim (Bool-cases (is_blank (clean k r))) [
    | inl e ↦ rw (e, chunk_records) (chunks-Apart d title (suc idx) raw)
    | inr e ↦
        rw (e, chunk_records)
          (
            All-map (λ c h. le_lt idx c.chunk_index h) (chunk_records k d title (suc idx) raw)
                (chunks-IsAfter d title (suc idx) raw),
            chunks-Apart d title (suc idx) raw,
          )
  ]

  -- the texts of the splitter's pieces that are not blank
  abbrev texts : List String → List String
  texts raw = select (λ s. not (is_blank s)) (map (clean k) raw)

  chunks_texts :
      (d title : String) (idx : ℕ) (raw : List String)
      → map (λ c. c.raw_chunk_text) (chunk_records k d title idx raw) ≡ texts raw
  unfolding chunk_records
  chunks_texts d title idx [] = refl
  chunks_texts d title idx (r ∷ raw) = elim (Bool-cases (is_blank (clean k r))) [
    | inl e ↦ rw (e, chunk_records) (chunks_texts d title (suc idx) raw)
    | inr e ↦ rw (e, chunk_records) (ap (◌∷◌ (clean k r)) (chunks_texts d title (suc idx) raw))
  ]

  pub record IsRecordOf (contract : Contract) (context : String) (size overlap : ℕ)
      (doc : DocumentRecord) : Type 0 where
    pub id : doc.document_id ≡ document_id_for k contract.title
    pub hash : doc.content_hash ≡ k.sha256_hex context
    pub texts_of :
        map (λ c. c.raw_chunk_text) doc.chunks ≡ texts (k.split_text size overlap context)
    pub pieces : All (IsPiece (k.split_text size overlap context)) doc.chunks
    pub chunks_of : All (IsChunk doc.document_id doc.document_title) doc.chunks
    pub in_order : Apart (λ a b. a.chunk_index < b.chunk_index) doc.chunks

  -- No record for a contract without text, and else the record of that text
  pub Built : Contract → ℕ → ℕ → Option String → Option DocumentRecord → Type 0
  Built contract size overlap none doc = doc ≡ none
  Built contract size overlap (some context) none = ⊥
  Built contract size overlap (some context) (some doc) =
      IsRecordOf contract context size overlap doc

  built :
      (contract : Contract) (context : String) (size overlap : ℕ)
      (identity : Option DocumentIdentity)
      → IsRecordOf contract context size overlap (
          metadata k (parse_title k.titling contract.title) identity (record {
            document_id = document_id_for k contract.title;
            raw_title = contract.title;
            document_title = (parse_title k.titling contract.title).clean_title;
            content_hash = content_hash k context;
            company_name = "";
            counterparty_name = "";
            contract_type = "";
            identity_source = "";
            identity_confidence = "";
            self_declared_hint = "";
            chunks =
                chunk_records k
                  (document_id_for k contract.title)
                  (parse_title k.titling contract.title).clean_title
                  0
                  (k.split_text size overlap context);
          }))
  unfolding metadata content_hash
  built contract context size overlap none =
      let d = document_id_for k contract.title in
      let t = (parse_title k.titling contract.title).clean_title in
      let raw = k.split_text size overlap context in
      record {
        id = refl;
        hash = refl;
        texts_of = chunks_texts d t 0 raw;
        pieces = chunks-IsPiece d t raw;
        chunks_of = chunks-IsChunk d t 0 raw;
        in_order = chunks-Apart d t 0 raw;
      }
  built contract context size overlap (some identity) =
      let d = document_id_for k contract.title in
      let t = (parse_title k.titling contract.title).clean_title in
      let raw = k.split_text size overlap context in
      record {
        id = refl;
        hash = refl;
        texts_of = chunks_texts d t 0 raw;
        pieces = chunks-IsPiece d t raw;
        chunks_of = chunks-IsChunk d t 0 raw;
        in_order = chunks-Apart d t 0 raw;
      }

  -- A contract without text has no record. A contract with text has one, whatever identity it has: its id is
  -- that of the title, its hash that of the text, its chunks are the cleaned pieces of the splitter that are
  -- not blank, in their order and with growing indices; the index of a chunk is the place of its piece, from
  -- 0, among all pieces of the splitter; each has the id of its document and its own text, is embedded
  -- behind the title, and is the preamble exactly if its piece is the splitter's first.
  pub build_document_record-Built :
      (contract : Contract) (size overlap : ℕ) (identity : Option DocumentIdentity)
      → Built contract size overlap
          (context_text contract)
          (build_document_record k contract size overlap identity)
  unfolding build_document_record Built
  build_document_record-Built contract size overlap identity =
      elim (Option-cases (context_text contract)) [
        | inl e ↦ rw (e, build_document_record) refl
        | inr (context, e) ↦
            rw (e, build_document_record) (built contract context size overlap identity)
      ]
