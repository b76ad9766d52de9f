-- ===== src/Chunking/Preflight/Ids.antt =====
-- Two documents with different ids share no chunk id.
use mathlib.Core.Path.{subst, subst₂}
use mathlib.Core.Option.{none-ne-some, some-injective}
use audit_flow_ai.Base.{
  ℕ, suc, String, ◌<>◌, ◌==◌, Bool, true, false, ◌≡◌, refl, sym, ap, ap₂, ◌∙◌, Option, none, some,
  List, [], ◌∷◌, ◌++◌, nat_eq, if◌then◌else◌, Bool-cases, Option-cases, inl, inr, eq_iff, arith,
  All,
}
use audit_flow_ai.Base.Dict.{Dict, get, put}
use audit_flow_ai.Base.Text.{is_blank, strip, strip_left}
use audit_flow_ai.Chunking.Regex.{collapse}
use audit_flow_ai.Chunking.Titles.{ParsedTitle, parse_title}
use audit_flow_ai.Chunking.Records.{
  Chunker, Contract, DocumentIdentity, is_no_alnum, take_text, slugify, document_id_for, clean,
  content_hash, chunk_records, metadata, build_document_record, context_text,
}
use audit_flow_ai.Chunking.Plain.{
  plain, plain_unique, plain-take_text, plain-strip_left, plain-strip_right, plain-collapse,
}
use audit_flow_ai.Chunking.Preflight.{
  clash, chunk_collisions, note_chunks, corpus_collisions, documents, identity_for, check_chunking,
}
use audit_flow_ai.Ingest.Store.{DocumentRecord}
use audit_flow_ai.Schemas.Retrieval.{ChunkRecord}

-- Lower case has a colon only where the text has one, and a hexadecimal digest has none.
pub record IsColonFree (k : Chunker) : Type 0 where
  pub lower : (s : String) → plain s ≡ true → plain (k.titling.tables.lower s) ≡ true
  pub hex : (s : String) → plain (k.sha256_hex s) ≡ true

module _ (k : Chunker) (laws : IsColonFree k) where
  plain-slugify : (s : String) → plain (slugify k s) ≡ true
  unfolding slugify strip
  plain-slugify s =
      let slug = collapse is_no_alnum "-" false s in
      let is_dash : ℕ → Bool = λ c. nat_eq c b'-' in
      plain-take_text 60 (k.titling.tables.lower (strip is_dash slug)) (
        laws.lower (strip is_dash slug) (
          plain-strip_right is_dash (strip_left is_dash slug)
            (plain-strip_left is_dash slug (plain-collapse false s))))

  plain-document_id_for : (s : String) → plain (document_id_for k s) ≡ true
  unfolding document_id_for
  plain-document_id_for s = elim (Bool-cases (is_blank (slugify k s))) [
    | inl e ↦ rw (e, document_id_for) (plain-take_text 16 (k.sha256_hex s) (laws.hex s))
    | inr e ↦ rw (e, document_id_for) (plain-slugify s)
  ]

-- a chunk id with the document that it is of
abbrev pub IsOwn : String → String → Type 0
IsOwn chunk_id document_id =
    (plain document_id ≡ true) × (h : String) × (chunk_id ≡ document_id <> "::" <> h)

IsOwn-put :
    (i d : String) (seen : Dict String)
    → IsOwn i d
    → All (λ item. IsOwn item.0 item.1) seen
    → All (λ item. IsOwn item.0 item.1) (put i d seen)
unfolding put
IsOwn-put i d [] o h = (o, tt)
IsOwn-put i d ((j, v) ∷ seen) o h = elim (Bool-cases (j == i)) [
  | inl e ↦ rw (e, put) (subst (λ x. IsOwn x d) (sym ((eq_iff j i).0 e)) o, h.1)
  | inr e ↦ rw (e, put) (h.0, IsOwn-put i d seen o h.1)
]

IsOwn-get :
    (i d : String) (seen : Dict String)
    → All (λ item. IsOwn item.0 item.1) seen
    → get i seen ≡ some d
    → IsOwn i d
unfolding get
IsOwn-get i d [] h e = absurd (none-ne-some d e)
IsOwn-get i d ((j, v) ∷ seen) h e = elim (Bool-cases (j == i)) [
  | inl f ↦
      subst₂ IsOwn ((eq_iff j i).0 f)
        (some-injective v d (ap (λ b. if b then some v else get i seen) (sym f) ∙ e)) (h.0)
  | inr f ↦ IsOwn-get i d seen h.1 (ap (λ b. if b then some v else get i seen) (sym f) ∙ e)
]

no_clash_own :
    (i d : String) (seen : Dict String)
    → IsOwn i d
    → All (λ item. IsOwn item.0 item.1) seen
    → clash i d (get i seen) ≡ []
unfolding clash
no_clash_own i d seen o h = elim (Option-cases (get i seen)) [
  | inl e ↦ rw (e, clash) refl
  | inr (v, e) ↦
      let w : IsOwn i v = IsOwn-get i v seen h e in
      let same : v ≡ d = plain_unique v d w.1 o.1 w.0 o.0 (sym w.2 ∙ o.2) in
      rw (e, clash) (ground (arith, (eq_iff v d).1 same))
]

-- The chunks of a record have ids of its document.
abbrev AllOwn : String → List ChunkRecord → Type 0
AllOwn document_id = All (λ c. IsOwn c.chunk_id document_id)

module _ (k : Chunker) where
  chunk_collisions_none :
      (d : String) (chunks : List ChunkRecord) (seen : Dict String)
      → AllOwn d chunks
      → All (λ item. IsOwn item.0 item.1) seen
      → (chunk_collisions k d chunks seen ≡ [])
        × All (λ item. IsOwn item.0 item.1) (note_chunks k d chunks seen)
  unfolding chunk_collisions note_chunks
  chunk_collisions_none d [] seen o h = (refl, h)
  chunk_collisions_none d (c ∷ chunks) seen o h =
      let (e, rest) =
        chunk_collisions_none d chunks (put c.chunk_id d seen) o.1
          (IsOwn-put c.chunk_id d seen o.0 h) in
      (ap₂ ◌++◌ (no_clash_own c.chunk_id d seen o.0 h) e, rest)

  corpus_collisions_none :
      (docs : List DocumentRecord) (seen : Dict String)
      → All (λ doc. AllOwn doc.document_id doc.chunks) docs
      → All (λ item. IsOwn item.0 item.1) seen
      → corpus_collisions k docs seen ≡ []
  unfolding corpus_collisions
  corpus_collisions_none [] seen o h = refl
  corpus_collisions_none (doc ∷ docs) seen o h =
      let (e, rest) = chunk_collisions_none doc.document_id doc.chunks seen o.0 h in
      ap₂ ◌++◌ e
        (corpus_collisions_none docs (note_chunks k doc.document_id doc.chunks seen) o.1 rest)

  chunk_records-AllOwn :
      (d title : String) (idx : ℕ) (raw : List String)
      → plain d ≡ true
      → AllOwn d (chunk_records k d title idx raw)
  unfolding chunk_records
  chunk_records-AllOwn d title idx [] h = tt
  chunk_records-AllOwn d title idx (r ∷ raw) h =
      let rest = chunk_records-AllOwn d title (suc idx) raw h in
      elim (Bool-cases (is_blank (clean k r))) [
        | inl e ↦ rw (e, chunk_records) rest
        | inr e ↦ rw (e, chunk_records) ((h, take_text 16 (content_hash k (clean k r)), refl), rest)
      ]

  metadata_kept :
      (parsed : ParsedTitle) (identity : Option DocumentIdentity) (doc : DocumentRecord)
      → AllOwn doc.document_id doc.chunks
      → AllOwn (metadata k parsed identity doc).document_id (metadata k parsed identity doc).chunks
  unfolding metadata
  metadata_kept parsed none doc h = h
  metadata_kept parsed (some identity) doc h = h

  module _ (laws : IsColonFree k) where
    documents-AllOwn :
        (identities : Option (Dict DocumentIdentity)) (contracts : List Contract)
        → All (λ doc. AllOwn doc.document_id doc.chunks) (documents k identities contracts)
    unfolding documents build_document_record
    documents-AllOwn identities [] = tt
    documents-AllOwn identities (c ∷ contracts) =
        let rest = documents-AllOwn identities contracts in
        elim (Option-cases (context_text c)) [
          | inl e ↦ rw (e, build_document_record, documents) rest
          | inr (text, e) ↦
              rw (e, build_document_record, documents)
                (
                  metadata_kept (parse_title k.titling c.title) (identity_for k identities c) _ (
                      chunk_records-AllOwn (document_id_for k c.title)
                        (parse_title k.titling c.title).clean_title 0 (k.split_text 1000 200 text)
                        (plain-document_id_for k laws c.title)),
                  rest,
                )
        ]

    -- The check of the chunks never reports a collision of chunk ids, whatever the contracts and whatever
    -- SHA-256 gives, as long as its digests have no colon and lower case makes none: the id of a chunk
    -- names its document.
    pub check_chunking_no_collision :
        (contracts : List Contract) (identities : Option (Dict DocumentIdentity))
        → (check_chunking k contracts identities).chunk_id_collisions ≡ []
    unfolding check_chunking
    check_chunking_no_collision contracts identities =
        corpus_collisions_none (documents k identities contracts) []
          (documents-AllOwn identities contracts) tt
