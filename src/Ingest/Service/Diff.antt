-- ===== src/Ingest/Service/Diff.antt =====
-- What an update does to the rows of the registry.
use audit_flow_ai.Base.{
  String, ◌≡◌, refl, sym, ap, ◌∙◌, true, false, not, ◌&&◌, none, some, List, [], ◌∷◌, ◌==◌, eq_iff,
  eq_refl, arith, inl, inr, All, if◌then◌else◌, Bool-cases, Option-cases,
}
use audit_flow_ai.Base.Dict.{Dict, get, put, pop, keys, contains, get-put, get-pop}
use audit_flow_ai.Schemas.Retrieval.{ChunkRecord}
use audit_flow_ai.Ingest.Store.{
  DocumentRecord, Registry, chunk_ids, get_chunk_ids_for_document, upsert_document_row, put_new,
  insert_rows, insert_chunks, delete_chunks, pop_all, corpus_add,
}
use audit_flow_ai.Ingest.Service.{by_id, minus, new_rows}

pub get-pop_all :
    (k : String) (ids : List String) (rows : Dict ChunkRecord)
    → get k (pop_all ids rows) ≡ (if contains ids k then none else get k rows)
unfolding pop_all contains
get-pop_all k [] rows = refl
get-pop_all k (j ∷ ids) rows = ground (arith, get-pop_all k ids (pop j rows), get-pop j k rows)

-- A row that is there stays.
get-put_new :
    (k : String) (c old : ChunkRecord) (rows : Dict ChunkRecord)
    → get k rows ≡ some old
    → get k (put_new c rows) ≡ some old
unfolding put_new
get-put_new k c old rows e = elim (Option-cases (get c.chunk_id rows)) [
  | inr (x, f) ↦ rw (f, put_new) e
  | inl f ↦ rw (f, put_new) (ground (arith, get-put c.chunk_id k c rows, eq_iff c.chunk_id k))
]

get-insert_rows :
    (k : String) (old : ChunkRecord) (chunks : List ChunkRecord) (rows : Dict ChunkRecord)
    → get k rows ≡ some old
    → get k (insert_rows chunks rows) ≡ some old
unfolding insert_rows
get-insert_rows k old [] rows e = e
get-insert_rows k old (c ∷ chunks) rows e =
    get-insert_rows k old chunks (put_new c rows) (get-put_new k c old rows e)

put_new_self :
    (c : ChunkRecord) (rows : Dict ChunkRecord)
    → (x : ChunkRecord) × (get c.chunk_id (put_new c rows) ≡ some x)
unfolding put_new
put_new_self c rows = elim (Option-cases (get c.chunk_id rows)) [
  | inr (x, f) ↦ rw (f, put_new) (x, f)
  | inl f ↦
      rw (f, put_new) (c, ground (arith, get-put c.chunk_id c.chunk_id c rows, eq_refl c.chunk_id))
]

-- A chunk that is inserted is there.
insert_rows_has :
    (k : String) (chunks : List ChunkRecord) (rows : Dict ChunkRecord)
    → contains (chunk_ids chunks) k ≡ true
    → (x : ChunkRecord) × (get k (insert_rows chunks rows) ≡ some x)
unfolding insert_rows contains
insert_rows_has k [] rows h = absurd (ground arith)
insert_rows_has k (c ∷ chunks) rows h = elim (Bool-cases (c.chunk_id == k)) [
  | inl same ↦
      let (x, e) = put_new_self c rows in
      (
        x,
        get-insert_rows k x chunks (put_new c rows)
            (ap (λ j. get j (put_new c rows)) (sym ((eq_iff c.chunk_id k).0 same)) ∙ e),
      )
  | inr other ↦ insert_rows_has k chunks (put_new c rows) (ground arith)
]

put_new_other :
    (k : String) (c : ChunkRecord) (rows : Dict ChunkRecord)
    → (c.chunk_id == k) ≡ false
    → get k (put_new c rows) ≡ get k rows
unfolding put_new
put_new_other k c rows h = elim (Option-cases (get c.chunk_id rows)) [
  | inr (x, f) ↦ rw (f, put_new) refl
  | inl f ↦ rw (f, put_new) (ground (arith, get-put c.chunk_id k c rows))
]

insert_rows_other :
    (k : String) (chunks : List ChunkRecord) (rows : Dict ChunkRecord)
    → contains (chunk_ids chunks) k ≡ false
    → get k (insert_rows chunks rows) ≡ get k rows
unfolding insert_rows contains
insert_rows_other k [] rows h = refl
insert_rows_other k (c ∷ chunks) rows h = elim (Bool-cases (c.chunk_id == k)) [
  | inl same ↦ absurd (ground arith)
  | inr other ↦
      insert_rows_other k chunks (put_new c rows) (ground arith) ∙ put_new_other k c rows other
]

-- A dict of chunks by their ids.
abbrev Keyed : Dict ChunkRecord → Type 0
Keyed = All (λ e. (e.1).chunk_id ≡ e.0)

Keyed-put : (c : ChunkRecord) (rows : Dict ChunkRecord) → Keyed rows → Keyed (put c.chunk_id c rows)
unfolding put
Keyed-put c [] h = (refl, tt)
Keyed-put c ((j, d) ∷ rows) h = elim (Bool-cases (j == c.chunk_id)) [
  | inl same ↦ rw same (sym ((eq_iff j c.chunk_id).0 same), h.1)
  | inr other ↦ rw other (h.0, Keyed-put c rows h.1)
]

Keyed-corpus_add :
    (chunks : List ChunkRecord) (rows : Dict ChunkRecord)
    → Keyed rows
    → Keyed (corpus_add chunks rows)
unfolding corpus_add
Keyed-corpus_add [] rows h = h
Keyed-corpus_add (c ∷ chunks) rows h =
    Keyed-corpus_add chunks (put c.chunk_id c rows) (Keyed-put c rows h)

-- The chunks to add are those of the new ids that are not old.
contains-new_rows :
    (k : String) (old : List String) (rows : Dict ChunkRecord)
    → Keyed rows
    → contains (chunk_ids (new_rows rows old)) k ≡ (contains (keys rows) k && not (contains old k))
unfolding new_rows keys contains
contains-new_rows k old [] h = refl
contains-new_rows k old ((j, c) ∷ rows) h =
    ground (arith, contains-new_rows k old rows h.1, h.0, eq_iff j k, eq_iff c.chunk_id k)

contains-minus :
    (k : String) (a b : List String) → contains (minus a b) k ≡ (contains a k && not (contains b k))
unfolding minus contains
contains-minus k [] b = refl
contains-minus k (j ∷ a) b = ground (arith, contains-minus k a b, eq_iff j k)

-- An id of a document's row has a row.
old_row :
    (d k : String) (rows : Dict ChunkRecord)
    → contains (get_chunk_ids_for_document d rows) k ≡ true
    → (x : ChunkRecord) × (get k rows ≡ some x)
unfolding get_chunk_ids_for_document contains get
old_row d k [] h = absurd (ground arith)
old_row d k ((j, c) ∷ rows) h = elim (Bool-cases (j == k)) [
  | inl same ↦ rw same (c, refl)
  | inr other ↦ let (x, e) = old_row d k rows (ground arith) in rw other (x, e)
]

-- What the registry holds once `doc` is written over the ids `old` of its rows.
pub record Updated (doc : DocumentRecord) (old : List String) (before after : Registry)
    : Type 0 where
  pub row : get doc.document_id after.documents ≡ some (record doc { chunks = [] })
  pub other_rows :
      (d : String) → (doc.document_id == d) ≡ false → get d after.documents ≡ get d before.documents
  pub present :
      (k : String)
      → contains (keys (by_id doc.chunks)) k ≡ true
      → (x : ChunkRecord) × (get k after.chunks ≡ some x)
  pub stale :
      (k : String)
      → contains old k ≡ true
      → contains (keys (by_id doc.chunks)) k ≡ false
      → get k after.chunks ≡ none
  pub kept :
      (k : String) (x : ChunkRecord)
      → (contains old k && not (contains (keys (by_id doc.chunks)) k)) ≡ false
      → get k before.chunks ≡ some x
      → get k after.chunks ≡ some x

-- The rows that `write` leaves.
abbrev pub written : DocumentRecord → List String → Registry → Registry
written doc old r =
    insert_chunks (new_rows (by_id doc.chunks) old)
      (delete_chunks (minus old (keys (by_id doc.chunks))) (upsert_document_row doc r))

module _ (doc : DocumentRecord) (r : Registry) where
  abbrev old_ids : List String
  old_ids = get_chunk_ids_for_document doc.document_id r.chunks

  abbrev new_by_id : Dict ChunkRecord
  new_by_id = by_id doc.chunks

  abbrev middle : Dict ChunkRecord
  middle = pop_all (minus old_ids (keys new_by_id)) r.chunks

  new-Keyed : Keyed new_by_id
  unfolding by_id
  new-Keyed = Keyed-corpus_add doc.chunks [] tt

  present_lem :
      (k : String)
      → contains (keys new_by_id) k ≡ true
      → (x : ChunkRecord) × (get k (insert_rows (new_rows new_by_id old_ids) middle) ≡ some x)
  present_lem k new = elim (Bool-cases (contains old_ids k)) [
    | inr fresh ↦
        insert_rows_has k (new_rows new_by_id old_ids) middle
          (ground (arith, contains-new_rows k old_ids new_by_id new-Keyed))
    | inl old ↦
        let (x, e) = old_row doc.document_id k r.chunks old in
        (
          x,
          get-insert_rows k x (new_rows new_by_id old_ids) middle (
              ground (
                arith,
                get-pop_all k (minus old_ids (keys new_by_id)) r.chunks,
                contains-minus k old_ids (keys new_by_id),
              )),
        )
  ]

  -- An update leaves exactly the chunks of the new version: each of them has a row, the chunks that
  -- it dropped have none, and every other row, of whatever document, is as it was.
  pub written-Updated : Updated doc old_ids r (written doc old_ids r)
  unfolding insert_chunks delete_chunks upsert_document_row
  written-Updated = record {
    row = ground (
      arith,
      get-put doc.document_id doc.document_id (record doc { chunks = [] }) r.documents,
      eq_refl doc.document_id,
    );
    other_rows =
        λ d n. ground (arith, get-put doc.document_id d (record doc { chunks = [] }) r.documents);
    present = present_lem;
    stale = λ k old dropped.
        insert_rows_other k (new_rows new_by_id old_ids) middle
          (ground (arith, contains-new_rows k old_ids new_by_id new-Keyed))
        ∙ ground (
          arith,
          get-pop_all k (minus old_ids (keys new_by_id)) r.chunks,
          contains-minus k old_ids (keys new_by_id),
        );
    kept = λ k x stays e. get-insert_rows k x (new_rows new_by_id old_ids) middle (
        ground (
          arith,
          get-pop_all k (minus old_ids (keys new_by_id)) r.chunks,
          contains-minus k old_ids (keys new_by_id),
        ));
  }
