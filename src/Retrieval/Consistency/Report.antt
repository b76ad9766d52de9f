-- ===== src/Retrieval/Consistency/Report.antt =====
-- What the report on the reranked chunks says of them.
use audit_flow_ai.Base.{
  String, true, false, ◌&&◌, ◌≡◌, refl, sym, ap, ap₂, none, some, List, [], ◌∷◌, map, if◌then◌else◌,
  Bool-cases, arith, inl, inr, All, is_empty, length, In, All-In,
}
use audit_flow_ai.Base.Dict.{get, contains}
use audit_flow_ai.Base.Sorting.{IsOrder, IsRanked, sort_desc-IsRanked}
use audit_flow_ai.Exec.{Result, ok, raised}
use audit_flow_ai.Schemas.Errors.{other}
use audit_flow_ai.Schemas.Floats.{Floats}
use audit_flow_ai.Schemas.Retrieval.{ConsistencyReport}
use audit_flow_ai.Retrieval.Consistency.{
  Scored, Entries, report, check_docement_consistency, scores_of, total_of, score_of, doc_of,
}
use audit_flow_ai.Retrieval.Consistency.Totals.{
  tallied, ranked, ranked_found, ranked_has, Counted, counted, ranked_total, breakdown_counts,
}

module _ (F : Floats) where
  -- What a report says of the reranked chunks, for the document `top` that it names.
  pub record Reports (concentration_threshold score_threshold : F.Float) (results : List (Scored F))
      (r : ConsistencyReport F.Float) (top : String) : Type 0 where
    pub names : r.top_contract ≡ some top
    pub some_chunk : is_empty (scores_of F top results) ≡ false
    pub leads :
        All
          (λ x. F.ltb (total_of F results top) (total_of F results x.0.document_id) ≡ false)
          results
    pub concentration :
        r.concentration
        ≡ F.div (F.decimal (length (scores_of F top results)) 0) (F.decimal (length results) 0)
    pub average :
        r.avg_top_score
        ≡ F.div (total_of F results top) (F.decimal (length (scores_of F top results)) 0)
    pub confident :
        r.is_confident
        ≡ F.leb concentration_threshold r.concentration && F.leb score_threshold r.avg_top_score
    pub counts :
        (doc : String)
        → get doc r.contract_breakdown ≡ (
            if is_empty (scores_of F doc results)
            then none
            else some (length (scores_of F doc results)))

  -- The outcome of the check: without results it raises, else it reports on the leading document.
  unfoldable pub Checked :
      F.Float → F.Float → List (Scored F) → Result (ConsistencyReport F.Float) → Type 0
  Checked concentration_threshold score_threshold results (raised e) =
      (is_empty results ≡ true) × (e ≡ other)
  Checked concentration_threshold score_threshold results (ok r) =
      (is_empty results ≡ false)
      × (top : String) × Reports concentration_threshold score_threshold results r top

  no_docs :
      (results : List (Scored F))
      → ((x : Scored F) → In x results → contains [] x.0.document_id ≡ true)
      → is_empty results ≡ true
  unfolding contains
  no_docs [] h = refl
  no_docs (x ∷ results) h = absurd (ground (arith, h x (inl refl)))

  some_results :
      (doc : String) (results : List (Scored F))
      → is_empty (scores_of F doc results) ≡ false
      → is_empty results ≡ false
  unfolding scores_of
  some_results doc [] h = h
  some_results doc (x ∷ results) h = refl

  module _ (concentration_threshold score_threshold : F.Float) (order : IsOrder F.ltb) where
    irreflexive : (x : F.Float) → F.ltb x x ≡ false
    irreflexive x = elim (Bool-cases (F.ltb x x)) [ inl e ↦ order.asym x x e | inr e ↦ e ]

    checked :
        (results : List (Scored F)) (items : Entries F)
        → All (λ item. get item.0 (tallied F results) ≡ some item.1) items
        → IsRanked F.ltb (score_of F) items
        → ((x : Scored F) → In x results → contains (map (doc_of F) items) x.0.document_id ≡ true)
        → Checked concentration_threshold score_threshold results (
            report F concentration_threshold score_threshold
              (length results)
              (tallied F results)
              items)
    unfolding report Checked
    checked results [] found below has = (no_docs results has, refl)
    checked results ((top_doc, s) ∷ rest) found below has =
        let c : Counted F results top_doc s = counted F results top_doc s (found.0) in
        (
          some_results top_doc results c.some_chunk,
          top_doc,
          record {
            names = refl;
            some_chunk = c.some_chunk;
            leads = All-In results λ x m. rw (sym c.total) (
                ranked_total F (λ y. F.ltb s.total_score y ≡ false) x.0.document_id results
                  ((top_doc, s) ∷ rest) found (irreflexive s.total_score, below.0) (has x m));
            concentration = ap (λ n. F.div (F.decimal n 0) (F.decimal (length results) 0)) c.count;
            average = ap₂ (λ y n. F.div y (F.decimal n 0)) c.total c.count;
            confident = refl;
            counts = λ doc. breakdown_counts F doc results;
          },
        )

    -- Without results the check raises an exception that is not of the program's own, and with results it
    -- always reports: on a document of the results whose scores have a sum that no other document's
    -- exceeds, with the share of the results that are its chunks, the average of its scores, whether
    -- both reach their thresholds, and for every document the number of its chunks in the results.
    -- Scores are compared by an order.
    pub check_docement_consistency-Checked :
        (results : List (Scored F))
        → Checked concentration_threshold score_threshold results
            (check_docement_consistency F results concentration_threshold score_threshold)
    unfolding check_docement_consistency
    check_docement_consistency-Checked results =
        checked results (ranked F results) (ranked_found F results)
          (sort_desc-IsRanked F.ltb (score_of F) order (tallied F results))
          (λ x m. ranked_has F x results m)
