-- ===== src/Retrieval/Consistency/Totals.antt =====
-- The entries of the documents: the sums and counts of their scores, and their order.
use mathlib.Core.Option.{none-ne-some, some-injective}
use audit_flow_ai.Base.{
  ℕ, ◌+◌, String, true, false, ◌≡◌, refl, sym, ap, ◌∙◌, Option, none, some, List, [], ◌∷◌, map,
  ◌==◌, if◌then◌else◌, Bool-cases, eq_iff, eq_refl, arith, inl, inr, All, is_empty, length, In,
}
use audit_flow_ai.Base.Dict.{get, put, keys, contains, get-put}
use audit_flow_ai.Base.Keys.{IsDistinct, key_of, IsDistinct-put, IsDistinct-get, contains-keys}
use audit_flow_ai.Base.Sorting.{sort_desc, All-sort_desc, contains-sort_desc}
use audit_flow_ai.Schemas.Floats.{Floats}
use audit_flow_ai.Retrieval.Consistency.{
  Stats, Scored, Entries, add_score, scores_by_doc, breakdown, scores_of, sum_from, total_of,
  score_of, doc_of,
}

module _ (F : Floats) where
  stats_from : List F.Float → Option (Stats F.Float) → Option (Stats F.Float)
  stats_from [] old = old
  stats_from (y ∷ ys) old = stats_from ys (some (add_score F old y))

  get-scores_by_doc :
      (doc : String) (results : List (Scored F)) (entries : Entries F)
      → get doc (scores_by_doc F results entries)
        ≡ stats_from (scores_of F doc results) (get doc entries)
  unfolding scores_by_doc stats_from scores_of
  get-scores_by_doc doc [] entries = refl
  get-scores_by_doc doc ((c, y) ∷ results) entries =
      let x = add_score F (get c.document_id entries) y in
      elim (Bool-cases (c.document_id == doc)) [
        | inl e ↦
            let same = (eq_iff c.document_id doc).0 e in
            rw (e, scores_of)
              (get-scores_by_doc doc results (put c.document_id x entries)
                ∙ ap (stats_from (scores_of F doc results))
                    (rw (get-put c.document_id doc x entries, e, same) refl))
        | inr e ↦
            rw (e, scores_of)
              (get-scores_by_doc doc results (put c.document_id x entries)
                ∙ ap (stats_from (scores_of F doc results))
                    (rw (get-put c.document_id doc x entries, e) refl))
      ]

  stats_from-some :
      (ys : List F.Float) (e : Stats F.Float)
      → stats_from ys (some e)
        ≡ some (record {
          total_score = sum_from F e.total_score ys;
          chunk_count = e.chunk_count + length ys;
        })
  unfolding stats_from sum_from add_score
  stats_from-some [] e =
      ap (λ n. some (record { total_score = e.total_score; chunk_count = n })) (omega arith)
  stats_from-some (y ∷ ys) e =
      stats_from-some ys (add_score F (some e) y)
      ∙ ap
          (λ n.
            some (record { total_score = sum_from F (F.add e.total_score y) ys; chunk_count = n }))
          (omega arith)

  -- The entry of a document that has chunks
  abbrev expected : List (Scored F) → String → Stats F.Float
  expected results doc = record {
    total_score = total_of F results doc;
    chunk_count = length (scores_of F doc results);
  }

  stats_from-none :
      (ys : List F.Float)
      → stats_from ys none ≡ (
          if is_empty ys
          then none
          else some
              (record { total_score = sum_from F (F.decimal 0 0) ys; chunk_count = length ys }))
  unfolding stats_from sum_from add_score
  stats_from-none [] = refl
  stats_from-none (y ∷ ys) =
      stats_from-some ys (record { total_score = F.add (F.decimal 0 0) y; chunk_count = 1 })
      ∙ ap
          (λ n.
            some
              (record { total_score = sum_from F (F.add (F.decimal 0 0) y) ys; chunk_count = n }))
          (omega arith)

  -- the entries once the loop is through
  abbrev pub tallied : List (Scored F) → Entries F
  tallied results = scores_by_doc F results []

  get-tallied :
      (doc : String) (results : List (Scored F))
      → get doc (tallied results)
        ≡ (if is_empty (scores_of F doc results) then none else some (expected results doc))
  unfolding get
  get-tallied doc results =
      get-scores_by_doc doc results [] ∙ stats_from-none (scores_of F doc results)

  scores_by_doc-IsDistinct :
      (results : List (Scored F)) (entries : Entries F)
      → IsDistinct key_of entries
      → IsDistinct key_of (scores_by_doc F results entries)
  unfolding scores_by_doc
  scores_by_doc-IsDistinct [] entries h = h
  scores_by_doc-IsDistinct ((c, y) ∷ results) entries h =
      let x = add_score F (get c.document_id entries) y in
      scores_by_doc-IsDistinct results (put c.document_id x entries)
        (IsDistinct-put c.document_id x entries h)

  get-breakdown :
      (doc : String) (entries : Entries F) (n : ℕ) (x : F.Float)
      → get doc entries ≡ some (record { total_score = x; chunk_count = n })
      → get doc (breakdown F entries) ≡ some n
  unfolding breakdown get
  get-breakdown doc [] n x e = absurd (ground arith)
  get-breakdown doc ((k, s) ∷ entries) n x e = ground (arith, get-breakdown doc entries n x)

  get-breakdown-none :
      (doc : String) (entries : Entries F)
      → get doc entries ≡ none
      → get doc (breakdown F entries) ≡ none
  unfolding breakdown get
  get-breakdown-none doc [] e = refl
  get-breakdown-none doc ((k, s) ∷ entries) e = ground (arith, get-breakdown-none doc entries)

  pub breakdown_counts :
      (doc : String) (results : List (Scored F))
      → get doc (breakdown F (tallied results)) ≡ (
          if is_empty (scores_of F doc results)
          then none
          else some (length (scores_of F doc results)))
  breakdown_counts doc results = elim (Bool-cases (is_empty (scores_of F doc results))) [
    | inl e ↦ rw e (get-breakdown-none doc (tallied results) (get-tallied doc results ∙ rw e refl))
    | inr e ↦ rw e (
        get-breakdown doc (tallied results) (length (scores_of F doc results))
          (total_of F results doc) (get-tallied doc results ∙ rw e refl))
  ]

  has_scores :
      (r : Scored F) (results : List (Scored F))
      → In r results
      → is_empty (scores_of F r.0.document_id results) ≡ false
  unfolding scores_of
  has_scores r [] m = absurd m
  has_scores r ((c, y) ∷ results) (inl m) = rw (m, eq_refl c.document_id) refl
  has_scores r ((c, y) ∷ results) (inr m) = elim (Bool-cases (c.document_id == r.0.document_id)) [
    | inl e ↦ rw (e, scores_of) refl
    | inr e ↦ rw (e, scores_of) (has_scores r results m)
  ]

  -- `ranked_docs`
  abbrev pub ranked : List (Scored F) → Entries F
  ranked results = sort_desc F.ltb (score_of F) (tallied results)

  pub ranked_found :
      (results : List (Scored F))
      → All (λ item. get item.0 (tallied results) ≡ some item.1) (ranked results)
  ranked_found results =
      All-sort_desc F.ltb (score_of F) (λ item. get item.0 (tallied results) ≡ some item.1)
        (tallied results)
        (IsDistinct-get (tallied results) (scores_by_doc-IsDistinct results [] tt))

  docs-keys : (d : Entries F) → map (doc_of F) d ≡ keys d
  unfolding keys
  docs-keys [] = refl
  docs-keys ((k, s) ∷ d) = ap (◌∷◌ k) (docs-keys d)

  pub ranked_has :
      (r : Scored F) (results : List (Scored F))
      → In r results
      → contains (map (doc_of F) (ranked results)) r.0.document_id ≡ true
  ranked_has r results m =
      contains-sort_desc F.ltb (score_of F) (doc_of F) r.0.document_id (tallied results)
      ∙ ap (λ ids. contains ids r.0.document_id) (docs-keys (tallied results))
      ∙ contains-keys r.0.document_id (tallied results)
      ∙ rw (get-tallied r.0.document_id results, has_scores r results m) refl

  -- The entry of a document is what its scores come to.
  pub record Counted (results : List (Scored F)) (doc : String) (s : Stats F.Float) : Type 0 where
    pub total : s.total_score ≡ total_of F results doc
    pub count : s.chunk_count ≡ length (scores_of F doc results)
    pub some_chunk : is_empty (scores_of F doc results) ≡ false

  pub counted :
      (results : List (Scored F)) (doc : String) (s : Stats F.Float)
      → get doc (tallied results) ≡ some s
      → Counted results doc s
  counted results doc s e = elim (Bool-cases (is_empty (scores_of F doc results))) [
    | inl f ↦ absurd (none-ne-some s (sym (get-tallied doc results ∙ rw f refl) ∙ e))
    | inr f ↦
        let same : expected results doc ≡ s =
          some-injective (expected results doc) s (sym (get-tallied doc results ∙ rw f refl) ∙ e) in
        record {
          total = ap (λ x. x.total_score) (sym same);
          count = ap (λ x. x.chunk_count) (sym same);
          some_chunk = f;
        }
  ]

  -- What holds of the total of every ranked item holds of a document among them.
  pub ranked_total :
      (P : F.Float → Type 0) (doc : String) (results : List (Scored F)) (items : Entries F)
      → All (λ item. get item.0 (tallied results) ≡ some item.1) items
      → All (λ item. P (score_of F item)) items
      → contains (map (doc_of F) items) doc ≡ true
      → P (total_of F results doc)
  unfolding contains
  ranked_total P doc results [] found h m = absurd (ground arith)
  ranked_total P doc results ((k, s) ∷ items) found h m = elim (Bool-cases (k == doc)) [
    | inl e ↦
        rw (sym ((counted results doc s (rw (sym ((eq_iff k doc).0 e)) (found.0))).total)) (h.0)
    | inr e ↦ ranked_total P doc results items found.1 h.1 (ground (arith, m, e))
  ]
