-- ===== src/Ingest/Service/Update.antt =====
-- What `insert_or_update_document` leaves in the registry, whether it returns or raises.
use audit_flow_ai.Base.{
  String, ◌≡◌, ap, ◌∙◌, true, false, ◌⊎◌, inl, inr, none, some, List, [], ◌==◌, if◌then◌else◌,
  eq_refl, arith, length, select,
}
use audit_flow_ai.Base.Dict.{get, keys, contains, get-put}
use audit_flow_ai.Exec.{Result, ok, raised, ◌>>◌, pure}
use audit_flow_ai.Schemas.Retrieval.{ChunkRecord}
use audit_flow_ai.Ingest.Store.{
  DocumentRecord, Registry, get_chunk_ids_for_document, upsert_document_row, insert_chunks,
  delete_chunks,
}
use audit_flow_ai.Ingest.Service.{
  IngestResult, Engine, Ingest, by_id, minus, new_rows, on_engine, on_registry, unless_empty,
  faiss_delete, faiss_save, index_new, rewrite_corpus, write,
}
use audit_flow_ai.Ingest.Service.Diff.{Updated, written, written-Updated, get-pop_all}
use audit_flow_ai.Ingest.Service.Moves.{
  Here, quiet-bind, on_registry-Moves, unless_empty-Moves, move-bind, move-last,
  rewrite_corpus-quiet, insert_none, delete_none,
}

module _ (g : Engine) where
  module _ (doc : DocumentRecord) (before : Registry) where
    abbrev pub old_ids : List String
    old_ids = get_chunk_ids_for_document doc.document_id before.chunks

    abbrev pub to_delete : List String
    to_delete = minus old_ids (keys (by_id doc.chunks))

    abbrev pub to_add : List ChunkRecord
    to_add = new_rows (by_id doc.chunks) old_ids

    abbrev with_row : Registry
    with_row = upsert_document_row doc before

    -- Where the writing stands: the registry is as it was, or the row is written, or the stale chunks
    -- are gone as well.
    abbrev Short : Registry → Type 0
    Short r = (r ≡ before) ⊎ ((r ≡ with_row) ⊎ (r ≡ delete_chunks to_delete with_row))

    -- All of the update where the writing returns, and else a part of it.
    abbrev pub Wrote : Result Unit × Here g → Type 0
    Wrote (ok u, after) = after.registry ≡ written doc old_ids before
    Wrote (raised e, after) = Short after.registry

    -- the steps of `write`, from the last one
    abbrev insert_added : Ingest g Unit
    insert_added = unless_empty g to_add (on_registry g (insert_chunks to_add))

    abbrev drop : Ingest g Unit
    drop = unless_empty g to_delete (on_registry g (delete_chunks to_delete))

    abbrev register : Ingest g Unit
    register = on_registry g (upsert_document_row doc) >> (drop >> insert_added)

    abbrev from_corpus : Ingest g Unit
    from_corpus = rewrite_corpus g to_delete to_add >> register

    abbrev from_save : Ingest g Unit
    from_save = on_engine g (faiss_save g) >> from_corpus

    abbrev from_index : Ingest g Unit
    from_index = on_engine g (index_new g doc to_add) >> from_save

    insert_added-Wrote :
        (s : Here g) → s.registry ≡ delete_chunks to_delete with_row → Wrote (insert_added s)
    insert_added-Wrote s same =
        move-last g Wrote (delete_chunks to_delete with_row) (insert_chunks to_add) insert_added s
          (unless_empty-Moves g insert_chunks insert_none to_add) same (λ e u q. inr (inr q))
          (λ a u q. q)

    drop-Wrote : (s : Here g) → s.registry ≡ with_row → Wrote ((drop >> insert_added) s)
    drop-Wrote s same =
        move-bind g Wrote with_row (delete_chunks to_delete) drop insert_added s
          (unless_empty-Moves g delete_chunks delete_none to_delete) same (λ e u q. inr (inl q))
          insert_added-Wrote

    register-Wrote : (s : Here g) → s.registry ≡ before → Wrote (register s)
    register-Wrote s same =
        move-bind g Wrote before (upsert_document_row doc) (on_registry g (upsert_document_row doc))
          (drop >> insert_added) s (on_registry-Moves g (upsert_document_row doc)) same
          (λ e u q. inl q) drop-Wrote

    pub write-Wrote : (s : Here g) → s.registry ≡ before → Wrote (write g doc to_delete to_add s)
    unfolding write
    write-Wrote s same =
        quiet-bind g Wrote before (on_engine g (faiss_delete g to_delete)) (λ _. from_index) s same
          (λ e u q. inl q)
          (λ _ u q.
            quiet-bind g Wrote before (on_engine g (index_new g doc to_add)) (λ _. from_save) u q
              (λ e u q. inl q)
              (λ _ u q.
                quiet-bind g Wrote before (on_engine g (faiss_save g)) (λ _. from_corpus) u q
                  (λ e u q. inl q)
                  (λ _ u q.
                    quiet-bind g Wrote before (rewrite_corpus g to_delete to_add) (λ _. register) u
                      (rewrite_corpus-quiet g to_delete to_add u ∙ q) (λ e u q. inl q)
                      (λ _ u q. register-Wrote u q))))

    -- The row of the new version over the old chunks: all of them, or those that stay.
    pub record Half (after : Registry) : Type 0 where
      pub row : get doc.document_id after.documents ≡ some (record doc { chunks = [] })
      pub other_rows :
          (d : String)
          → (doc.document_id == d) ≡ false
          → get d after.documents ≡ get d before.documents
      pub chunks :
          (after.chunks ≡ before.chunks)
          ⊎ ((k : String)
              → get k after.chunks ≡ (if contains to_delete k then none else get k before.chunks))

    -- What an update comes to: nothing where the content is what it was; all of it where it returns
    -- otherwise; and where it raises nothing, a part, or all of it.
    abbrev pub Done : Result IngestResult × Here g → Type 0
    Done (ok result, after) =
        ((result.was_noop ≡ true) × (after.registry ≡ before))
        ⊎ ((result.was_noop ≡ false) × Updated doc old_ids before after.registry)
    Done (raised e, after) =
        (after.registry ≡ before)
        ⊎ (Half after.registry ⊎ Updated doc old_ids before after.registry)

    with_row-get : get doc.document_id with_row.documents ≡ some (record doc { chunks = [] })
    unfolding upsert_document_row
    with_row-get = ground (
      arith,
      get-put doc.document_id doc.document_id (record doc { chunks = [] }) before.documents,
      eq_refl doc.document_id,
    )

    with_row-other :
        (d : String)
        → (doc.document_id == d) ≡ false
        → get d with_row.documents ≡ get d before.documents
    unfolding upsert_document_row
    with_row-other d n =
        ground (arith, get-put doc.document_id d (record doc { chunks = [] }) before.documents)

    with_row-Half : (r : Registry) → r ≡ with_row → Half r
    unfolding upsert_document_row
    with_row-Half r e = record {
      row = ap (λ x. get doc.document_id x.documents) e ∙ with_row-get;
      other_rows = λ d n. ap (λ x. get d x.documents) e ∙ with_row-other d n;
      chunks = inl (ap (λ x. x.chunks) e);
    }

    dropped-Half : (r : Registry) → r ≡ delete_chunks to_delete with_row → Half r
    unfolding upsert_document_row delete_chunks
    dropped-Half r e = record {
      row = ap (λ x. get doc.document_id x.documents) e ∙ with_row-get;
      other_rows = λ d n. ap (λ x. get d x.documents) e ∙ with_row-other d n;
      chunks = inr (λ k. ap (λ x. get k x.chunks) e ∙ get-pop_all k to_delete before.chunks);
    }

    pub short : (r : Registry) → Short r → (r ≡ before) ⊎ Half r
    short r (inl e) = inl e
    short r (inr (inl e)) = inr (with_row-Half r e)
    short r (inr (inr e)) = inr (dropped-Half r e)

    pub updated :
        (u : Here g)
        → u.registry ≡ written doc old_ids before
        → Updated doc old_ids before u.registry
    updated u q = rw q (written-Updated doc before)

    abbrev pub result : IngestResult
    result = record {
      document_id = doc.document_id;
      added_chunks = length to_add;
      deleted_chunks = length to_delete;
      unchanged_chunks = length (select (λ k. contains old_ids k) (keys (by_id doc.chunks)));
      was_noop = false;
    }

    abbrev pub announce : Ingest g IngestResult
    announce = on_engine g g.bump_index_version >> pure result
