-- ===== src/Ingest/Service/Repeat.antt =====
-- What a second run of an update does.
use audit_flow_ai.Base.{
  ◌≡◌, refl, true, ◌⊎◌, inl, inr, some, [], ◌==◌, eq_refl, Bool-cases, Option-cases, length,
}
use audit_flow_ai.Base.Dict.{get, values}
use audit_flow_ai.Exec.{Result, ok, raised, ◌>>=◌, pure, reraise}
use audit_flow_ai.Schemas.Errors.{audit, ingestion_error}
use audit_flow_ai.Ingest.Store.{DocumentRecord, Registry, get_document, rows_of, by_index}
use audit_flow_ai.Ingest.Service.{
  IngestResult, Engine, on_engine, write, update_document, insert_or_update_document,
}
use audit_flow_ai.Ingest.Service.Diff.{written}
use audit_flow_ai.Ingest.Service.Moves.{Here, quiet-bind}
use audit_flow_ai.Ingest.Service.Update.{
  old_ids, to_delete, to_add, Wrote, write-Wrote, announce, result, updated, short,
}

module _ (g : Engine) (doc : DocumentRecord) where
  -- Running the update here does nothing and says so.
  pub record IsSettled (u : Here g) : Type 0 where
    pub outcome : IngestResult
    pub quiet : insert_or_update_document g (some doc) u ≡ (ok outcome, u)
    pub said : outcome.was_noop ≡ true

  module _ (before : Registry) where
    settled :
        (u : Here g)
        → get doc.document_id u.registry.documents ≡ some (record doc { chunks = [] })
        → IsSettled u
    unfolding insert_or_update_document get_document
    settled u h =
        let existing = record doc {
          chunks = by_index (rows_of doc.document_id (values u.registry.chunks));
        } in
        record {
          outcome = record {
            document_id = doc.document_id;
            added_chunks = 0;
            deleted_chunks = 0;
            unchanged_chunks = length existing.chunks;
            was_noop = true;
          };
          quiet = rw (h, insert_or_update_document, get_document, eq_refl doc.content_hash) refl;
          said = refl;
        }

    -- What a run leaves: a state that is settled, or, where it raised, the old registry.
    abbrev pub Repeats : Result IngestResult × Here g → Type 0
    Repeats (ok r, u) = IsSettled u
    Repeats (raised e, u) = (u.registry ≡ before) ⊎ IsSettled u

    announce-Repeats :
        (x : Result Unit × Here g)
        → Wrote g doc before x
        → (s : Here g)
        → Repeats (((λ _. reraise (audit ingestion_error) x) >>= λ _. announce g doc before) s)
    announce-Repeats (raised e, u) q s = elim (short g doc before u.registry q) [
      | inl same ↦ inl same
      | inr half ↦ inr (settled u half.row)
    ]
    announce-Repeats (ok a, u) q s =
        quiet-bind g Repeats (written doc (old_ids g doc before) before)
          (on_engine g g.bump_index_version) (λ _. pure (result g doc before)) u q
          (λ e v p. inr (settled v (updated g doc before v p).row))
          (λ _ v p. settled v (updated g doc before v p).row)

    update_document-Repeats :
        (s : Here g)
        → s.registry ≡ before
        → Repeats (update_document g doc (old_ids g doc before) s)
    unfolding update_document
    update_document-Repeats s same =
        announce-Repeats (write g doc (to_delete g doc before) (to_add g doc before) s)
          (write-Wrote g doc before s same) s

  -- After an update that returned, the same update changes nothing and says so. After one that raised,
  -- either the registry is as it was before, so that the update runs on the same old chunks again, or
  -- the same update changes nothing and says so, also where the one that raised has written the row of
  -- the new version and not its chunks.
  pub insert_or_update_document-Repeats :
      (s : Here g) → Repeats s.registry (insert_or_update_document g (some doc) s)
  unfolding insert_or_update_document
  insert_or_update_document-Repeats s =
      elim (Option-cases (get_document doc.document_id s.registry)) [
        | inl e ↦ rw (e, insert_or_update_document) (update_document-Repeats s.registry s refl)
        | inr (existing, e) ↦ elim (Bool-cases (existing.content_hash == doc.content_hash)) [
          | inl same ↦
              rw (e, insert_or_update_document, same)
                (record {
                  outcome = record {
                    document_id = doc.document_id;
                    added_chunks = 0;
                    deleted_chunks = 0;
                    unchanged_chunks = length existing.chunks;
                    was_noop = true;
                  };
                  quiet = rw (e, insert_or_update_document, same) refl;
                  said = refl;
                })
          | inr new ↦
              rw (e, insert_or_update_document, new) (update_document-Repeats s.registry s refl)
        ]
      ]
