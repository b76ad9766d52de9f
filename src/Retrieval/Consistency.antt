-- ===== src/Retrieval/Consistency.antt =====
-- `check_docement_consistency` of src/auditflow/retrieval/retrieve.py
pub mod Totals
pub mod Report
use audit_flow_ai.Base.{
  ℕ, suc, String, true, false, not, ◌&&◌, ◌≡◌, refl, sym, ap, ◌∙◌, Option, none, some, List, [],
  ◌∷◌, map, ◌==◌, if◌then◌else◌, Bool-cases, eq_iff, eq_refl, arith, inl, inr, All, All-map,
  is_none, is_empty, length,
}
use audit_flow_ai.Base.Dict.{Dict, get, put, keys, contains, get-put}
use audit_flow_ai.Base.Keys.{IsDistinct, key_of, IsDistinct-put, IsDistinct-get, contains-keys}
use audit_flow_ai.Base.Sorting.{
  IsOrder, sort_desc, IsRanked, sort_desc-IsRanked, All-sort_desc, contains-sort_desc,
}
use audit_flow_ai.Exec.{Result, ok, raised}
use audit_flow_ai.Schemas.Errors.{other}
use audit_flow_ai.Schemas.Floats.{Floats}
use audit_flow_ai.Schemas.Retrieval.{ChunkRecord, ConsistencyReport}

pub record Stats (Float : Type 0) : Type 0 where
  pub total_score : Float
  pub chunk_count : ℕ

module _ (F : Floats) where
  abbrev pub Scored : Type 0
  Scored = ChunkRecord × F.Float

  abbrev pub Entries : Type 0
  Entries = Dict (Stats F.Float)

  -- the entry that `setdefault` gives, with the score and one chunk added
  unfoldable pub add_score : Option (Stats F.Float) → F.Float → Stats F.Float
  add_score none score = record { total_score = F.add (F.decimal 0 0) score; chunk_count = 1 }
  add_score (some entry) score = record {
    total_score = F.add entry.total_score score;
    chunk_count = suc entry.chunk_count;
  }

  unfoldable pub scores_by_doc : List Scored → Entries → Entries
  unfolding add_score
  scores_by_doc [] entries = entries
  scores_by_doc ((chunk, score) ∷ results) entries =
      scores_by_doc results
        (put chunk.document_id (add_score (get chunk.document_id entries) score) entries)

  abbrev doc_of : String × Stats F.Float → String
  doc_of item = item.0

  abbrev score_of : String × Stats F.Float → F.Float
  score_of item = item.1.total_score

  -- `{doc_id: stats["chunk_count"] for …}`
  unfoldable pub breakdown : Entries → Dict ℕ
  breakdown [] = []
  breakdown ((doc_id, stats) ∷ entries) = (doc_id, stats.chunk_count) ∷ breakdown entries

  -- `ranked_docs[1][1]["total_score"] if len(ranked_docs) > 1 else float("-inf")`
  unfoldable pub second_best : Entries → F.Float
  second_best [] = F.neg_infinity
  second_best ((doc, stats) ∷ rest) = stats.total_score

  unfoldable pub report :
      F.Float → F.Float → ℕ → Entries → Entries → Result (ConsistencyReport F.Float)
  unfolding breakdown second_best
  report concentration_threshold score_threshold count entries [] = raised other
  report concentration_threshold score_threshold count entries ((top_doc, top_stats) ∷ rest) =
      let concentration = F.div (F.decimal top_stats.chunk_count 0) (F.decimal count 0) in
      let avg_top_score = F.div top_stats.total_score (F.decimal top_stats.chunk_count 0) in
      ok (record {
        top_contract = some top_doc;
        concentration = concentration;
        avg_top_score = avg_top_score;
        best_score = none;
        margin = F.sub top_stats.total_score (second_best rest);
        is_confident =
            F.leb concentration_threshold concentration && F.leb score_threshold avg_top_score;
        contract_breakdown = breakdown entries;
      })

  -- `ranked_docs[0]` raises IndexError where there are no results.
  unfoldable pub check_docement_consistency :
      List Scored → F.Float → F.Float → Result (ConsistencyReport F.Float)
  unfolding scores_by_doc sort_desc report
  check_docement_consistency reranked_results concentration_threshold score_threshold =
      let entries = scores_by_doc reranked_results [] in
      report concentration_threshold score_threshold (length reranked_results) entries
        (sort_desc F.ltb score_of entries)

  -- The scores of a document's chunks, in order, and their sum.
  unfoldable pub scores_of : String → List Scored → List F.Float
  scores_of doc [] = []
  scores_of doc ((chunk, score) ∷ results) =
      let rest = scores_of doc results in if chunk.document_id == doc then score ∷ rest else rest

  unfoldable pub sum_from : F.Float → List F.Float → F.Float
  sum_from x [] = x
  sum_from x (y ∷ ys) = sum_from (F.add x y) ys

  abbrev pub total_of : List Scored → String → F.Float
  total_of results doc = sum_from (F.decimal 0 0) (scores_of doc results)
