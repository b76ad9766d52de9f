-- ===== src/Ingest/Service/Deletion.antt =====
-- What `delete_document` leaves in the registry.
use audit_flow_ai.Base.{
  String, ◌≡◌, ◌≢◌, refl, sym, ap, ◌∙◌, ◌⊎◌, inl, inr, false, none, some, List, [], ◌∷◌, ◌==◌,
  eq_iff, eq_refl, arith, Bool-cases,
}
use audit_flow_ai.Base.Dict.{Dict, get, get-pop}
use audit_flow_ai.Exec.{Result, ok, raised, ◌>>=◌, ◌>>◌, reraise}
use audit_flow_ai.Schemas.Errors.{audit, ingestion_error}
use audit_flow_ai.Schemas.Retrieval.{ChunkRecord}
use audit_flow_ai.Ingest.Store.{Registry, without_document, delete_document_row}
use audit_flow_ai.Ingest.Service.{
  Engine, Ingest, on_engine, on_registry, faiss_delete, faiss_save, rewrite_corpus, erase,
  delete_ids, delete_document,
}
use audit_flow_ai.Ingest.Service.Moves.{
  Here, quiet-bind, move-last, on_registry-Moves, rewrite_corpus-quiet,
}

without_document-gone :
    (d k : String) (rows : Dict ChunkRecord) (c : ChunkRecord)
    → get k (without_document d rows) ≡ some c
    → c.document_id ≢ d
unfolding without_document get
without_document-gone d k [] c h = absurd (ground arith)
without_document-gone d k ((j, x) ∷ rows) c h = elim (Bool-cases (x.document_id == d)) [
  | inl mine ↦ without_document-gone d k rows c (ground arith)
  | inr other ↦ elim (Bool-cases (j == k)) [
    | inl same ↦
        let e : x ≡ c = ground arith in
        λ f. ground (arith, eq_iff x.document_id d, ap (λ y. y.document_id) e)
    | inr later ↦ without_document-gone d k rows c (ground arith)
  ]
]

without_document-kept :
    (d k : String) (rows : Dict ChunkRecord) (c : ChunkRecord)
    → get k rows ≡ some c
    → c.document_id ≢ d
    → get k (without_document d rows) ≡ some c
unfolding without_document get
without_document-kept d k [] c h n = h
without_document-kept d k ((j, x) ∷ rows) c h n = elim (Bool-cases (x.document_id == d)) [
  | inl mine ↦ elim (Bool-cases (j == k)) [
    | inl same ↦
        let e : x ≡ c = ground arith in
        absurd (n (ap (λ y. y.document_id) (sym e) ∙ (eq_iff x.document_id d).0 mine))
    | inr later ↦ rw mine (without_document-kept d k rows c (ground arith) n)
  ]
  | inr other ↦ elim (Bool-cases (j == k)) [
    | inl same ↦ rw (other, same) (ground arith)
    | inr later ↦ rw (other, later) (without_document-kept d k rows c (ground arith) n)
  ]
]

-- The document and its chunks are gone, and everything else is as it was.
pub record Deleted (d : String) (before after : Registry) : Type 0 where
  pub no_document : get d after.documents ≡ none
  pub other_documents :
      (j : String) → (d == j) ≡ false → get j after.documents ≡ get j before.documents
  pub no_chunk : (k : String) (c : ChunkRecord) → get k after.chunks ≡ some c → c.document_id ≢ d
  pub other_chunks :
      (k : String) (c : ChunkRecord)
      → get k before.chunks ≡ some c
      → c.document_id ≢ d
      → get k after.chunks ≡ some c

delete_document_row-Deleted : (d : String) (r : Registry) → Deleted d r (delete_document_row d r)
unfolding delete_document_row
delete_document_row-Deleted d r = record {
  no_document = ground (arith, get-pop d d r.documents, eq_refl d);
  other_documents = λ j n. ground (arith, get-pop d j r.documents);
  no_chunk = λ k c e. without_document-gone d k r.chunks c e;
  other_chunks = λ k c e n. without_document-kept d k r.chunks c e n;
}

module _ (g : Engine) (d : String) (before : Registry) where
  -- What a deletion comes to: all of it where it returns; where it raises, all or nothing.
  abbrev pub Done : Result Unit × Here g → Type 0
  Done (ok u, after) = Deleted d before after.registry
  Done (raised e, after) = (after.registry ≡ before) ⊎ Deleted d before after.registry

  abbrev Erased : Result Unit × Here g → Type 0
  Erased (ok u, after) = after.registry ≡ delete_document_row d before
  Erased (raised e, after) = after.registry ≡ before

  -- the steps of `erase`, from the last one
  abbrev unregister : Ingest g Unit
  unregister = on_registry g (delete_document_row d)

  abbrev from_corpus : List String → Ingest g Unit
  from_corpus ids = rewrite_corpus g ids [] >> unregister

  abbrev from_save : List String → Ingest g Unit
  from_save ids = on_engine g (faiss_save g) >> from_corpus ids

  erase-Erased : (ids : List String) (s : Here g) → s.registry ≡ before → Erased (erase g d ids s)
  unfolding erase
  erase-Erased ids s same =
      quiet-bind g Erased before (on_engine g (faiss_delete g ids)) (λ _. from_save ids) s same
        (λ e u q. q)
        (λ _ u q.
          quiet-bind g Erased before (on_engine g (faiss_save g)) (λ _. from_corpus ids) u q
            (λ e u q. q)
            (λ _ u q.
              quiet-bind g Erased before (rewrite_corpus g ids []) (λ _. unregister) u
                (rewrite_corpus-quiet g ids [] u ∙ q) (λ e u q. q)
                (λ _ u q.
                  move-last g Erased before (delete_document_row d) unregister u
                    (on_registry-Moves g (delete_document_row d)) q (λ e u q. q) (λ a u q. q))))

  erased : (u : Here g) → u.registry ≡ delete_document_row d before → Deleted d before u.registry
  erased u q = rw q (delete_document_row-Deleted d before)

  announce-Done :
      (x : Result Unit × Here g)
      → Erased x
      → (s : Here g)
      → Done
          (((λ _. reraise (audit ingestion_error) x) >>= λ _. on_engine g g.bump_index_version) s)
  announce-Done (raised e, u) q s = inl q
  announce-Done (ok a, u) q s = bumped (g.bump_index_version u.engine)
    where
      bumped : (y : Result Unit × g.World) → Done (y.0, record u { engine = y.1 })
      bumped (ok z, w) = erased u q
      bumped (raised e, w) = inr (erased u q)

  delete_ids-Done :
      (ids : List String) (s : Here g) → s.registry ≡ before → Done (delete_ids g d ids s)
  unfolding delete_ids
  delete_ids-Done [] s same = inl same
  delete_ids-Done (k ∷ ids) s same =
      announce-Done (erase g d (k ∷ ids) s) (erase-Erased (k ∷ ids) s same) s

-- A deletion that returns leaves no row of the document and no chunk of it in the registry, and every
-- other row as it was. One that raises has left the registry alone, or has only failed to announce
-- the new version.
pub delete_document-Done :
    (g : Engine) (d : String) (s : Here g) → Done g d s.registry (delete_document g d s)
unfolding delete_document
delete_document-Done g d s = delete_ids-Done g d s.registry _ s refl
