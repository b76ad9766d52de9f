-- ===== src/Retrieval/Context/Corpus.antt =====
-- Where the chunks of a context come from, and what the queries keep of the caches.
use audit_flow_ai.Base.{
  ℕ, String, ◌≡◌, ◌≤◌, refl, ◌⊎◌, inl, inr, Option, none, some, List, [], ◌∷◌, map, take, length,
  length-take-le, All, All-take, Option-cases,
}
use audit_flow_ai.Base.Dict.{Dict, get}
use audit_flow_ai.Base.Sorting.{
  IsOrder, sort_desc, IsRanked, sort_desc-IsRanked, IsRanked-take, All-sort_desc,
}
use audit_flow_ai.Exec.{Result, ok, raised, ◌>>=◌, pure, reraise, After, After-bind, After-mono}
use audit_flow_ai.Schemas.Errors.{audit, retrieval_error, other}
use audit_flow_ai.Schemas.Floats.{Floats}
use audit_flow_ai.Schemas.Retrieval.{ChunkRecord, ConsistencyReport, RetrievalContext}
use audit_flow_ai.Retrieval.Caches.{
  Engines, Caches, Query, on_engines, tokens, get_indexes, get_cached_bm25, store,
}
use audit_flow_ai.Retrieval.Caches.Coherence.{
  IsCoherent, Has, on_engines-After, get_indexes-After, get_cached_bm25_stays,
}
use audit_flow_ai.Retrieval.Consistency.{check_docement_consistency}
use audit_flow_ai.Retrieval.Consistency.Report.{Checked, check_docement_consistency-Checked}
use audit_flow_ai.Retrieval.Fusion.{reciprocal_rank_fusion}
use audit_flow_ai.Retrieval.Context.{
  enumerate, get_elem?, zip, records, to_chunk_match, pick, bm25_ranked, search, hybrid_retrieve,
  cross_encoder_rank, rank_candidates, context_of, get_verification_context,
}

abbrev pub IsOf : Dict ChunkRecord → ChunkRecord → Type 0
IsOf corpus c = (id : String) × (get id corpus ≡ some c)

records-IsOf :
    (corpus : Dict ChunkRecord) (ids : List String) → All (IsOf corpus) (records corpus ids)
unfolding records
records-IsOf corpus [] = tt
records-IsOf corpus (id ∷ ids) = elim (Option-cases (get id corpus)) [
  | inl e ↦ rw (e, records) (records-IsOf corpus ids)
  | inr (c, e) ↦ rw (e, records) ((id, e), records-IsOf corpus ids)
]

All-zip :
    {A B : Type 0} (P : A → Type 0) (xs : List A) (ys : List B)
    → All P xs
    → All (λ x. P x.0) (zip xs ys)
unfolding zip
All-zip P [] ys h = tt
All-zip P (x ∷ xs) [] h = tt
All-zip P (x ∷ xs) (y ∷ ys) h = (h.0, All-zip P xs ys h.1)

module _ {F : Floats} (g : Engines F) where
  pick-After :
      (I : Caches g → Type 0) (ids : List String) (top : List (ℕ × F.Float)) (s : Caches g)
      → I s
      → After I (λ _ u. I u) (pick g ids top s)
  unfolding pick
  pick-After I ids [] s h = h
  pick-After I ids ((i, score) ∷ top) s h = elim (Option-cases (get_elem? ids i)) [
    | inl e ↦ rw (e, pick) h
    | inr (id, e) ↦
        rw (e, pick)
          (After-bind I (λ _ u. I u) (λ _ u. I u) (pick g ids top) s (λ rest. pure (id ∷ rest))
            (pick-After I ids top s h) (λ rest u i. i))
  ]

  store-After :
      (I : Caches g → Type 0) (faiss : Option g.Store) (s : Caches g)
      → I s
      → After I (λ _ u. I u) (store g faiss s)
  unfolding store
  store-After I none s h = h
  store-After I (some vectors) s h = h

  abbrev Found : List ChunkRecord → Caches g → Type 0
  Found chunks u = (corpus : Dict ChunkRecord) × Has g corpus u × All (IsOf corpus) chunks

  abbrev records_of : ℕ → Dict ChunkRecord → List String → List String → Query g (List ChunkRecord)
  records_of n corpus hits ranked =
      pure (records corpus (take n (reciprocal_rank_fusion F 60 (hits ∷ ranked ∷ []))))

  -- Any predicate that does not speak of the engines is kept by a search.
  search-After :
      (query : String) (n : ℕ) (faiss : Option g.Store) (corpus : Dict ChunkRecord)
      (cache : List String × g.Okapi) (s : Caches g)
      → Has g corpus s
      → After
          (Has g corpus)
          (λ chunks u. Has g corpus u × All (IsOf corpus) chunks)
          (search g query n faiss corpus cache s)
  unfolding search bm25_ranked
  search-After query n faiss corpus cache s h =
      let I : Caches g → Type 0 = Has g corpus in
      let Q : List ChunkRecord → Caches g → Type 0 =
        λ chunks u. Has g corpus u × All (IsOf corpus) chunks in
      let scored : List String → Query g (List ChunkRecord) = λ hits.
        on_engines g (g.get_scores cache.1 (tokens g query)) >>= λ scores.
        bm25_ranked g cache.0 scores >>= λ ranked. records_of n corpus hits ranked in
      After-bind I (λ _ u. I u) Q (store g faiss) s
        (λ vectors. on_engines g (g.similarity_search vectors query 20) >>= scored)
        (store-After I faiss s h)
        λ vectors u i.
          After-bind I (λ _ u. I u) Q (on_engines g (g.similarity_search vectors query 20)) u scored
            (on_engines-After g I (g.similarity_search vectors query 20) u (λ w. i))
            λ hits v j.
              After-bind I (λ _ u. I u) Q (on_engines g (g.get_scores cache.1 (tokens g query))) v
                (λ scores.
                  bm25_ranked g cache.0 scores >>= λ ranked. records_of n corpus hits ranked)
                (on_engines-After g I (g.get_scores cache.1 (tokens g query)) v (λ w. j))
                λ scores w k.
                  After-bind I (λ _ u. I u) Q (bm25_ranked g cache.0 scores) w
                    (λ ranked. records_of n corpus hits ranked)
                    (pick-After I cache.0
                      (take 20 (sort_desc F.ltb (λ x. x.1) (enumerate 0 scores))) w k)
                    (λ ranked x l. (
                      l,
                      records-IsOf corpus
                          (take n (reciprocal_rank_fusion F 60 (hits ∷ ranked ∷ []))),
                    ))

  hybrid_retrieve-After :
      (query : String) (n : ℕ) (s : Caches g)
      → IsCoherent g s
      → After (IsCoherent g) Found (hybrid_retrieve g query n s)
  unfolding hybrid_retrieve
  hybrid_retrieve-After query n s h =
      After-bind (IsCoherent g) (λ indexes u. Has g indexes.1 u) Found (get_indexes g) s
        (λ indexes. get_cached_bm25 g >>= search g query n indexes.0 indexes.1)
        (get_indexes-After g s h)
        λ indexes u i.
          After-mono (Has g indexes.1) (IsCoherent g)
            (λ chunks v. Has g indexes.1 v × All (IsOf indexes.1) chunks) Found
            ((get_cached_bm25 g >>= search g query n indexes.0 indexes.1) u) (λ v j. j.0)
            (λ chunks v j. (indexes.1, j.0, j.1))
            (After-bind (Has g indexes.1) (λ _ v. Has g indexes.1 v)
              (λ chunks v. Has g indexes.1 v × All (IsOf indexes.1) chunks) (get_cached_bm25 g) u
              (search g query n indexes.0 indexes.1) (get_cached_bm25_stays g indexes.1 u i)
              (λ cache v j. search-After query n indexes.0 indexes.1 cache v j))

  -- What the reranked chunks are: chunks of the loaded corpus, at most `n`, the best score first.
  pub record IsTop (n : ℕ) (reranked : List (ChunkRecord × F.Float)) (u : Caches g) : Type 0 where
    pub corpus : Dict ChunkRecord
    pub loaded : Has g corpus u
    pub from_corpus : All (λ x. IsOf corpus x.0) reranked
    pub few : length reranked ≤ n
    pub ranked : IsRanked F.ltb (λ x. x.1) reranked

  -- The outcome of a query of the caches
  unfoldable pub Context : Result (RetrievalContext F.Float) × Caches g → Type 0
  Context (raised e, u) = IsCoherent g u × ((e ≡ audit retrieval_error) ⊎ (e ≡ other))
  Context (ok context, u) =
      (reranked : List (ChunkRecord × F.Float)) × IsTop 5 reranked u
      × (context.chunks ≡ map to_chunk_match reranked)
      × Checked F (F.decimal 6 1) (F.decimal 355 3) reranked (ok context.consistency)

  module _ (order : IsOrder F.ltb) where
    cross_encoder_rank-After :
        (query : String) (candidates : List ChunkRecord) (n : ℕ) (s : Caches g)
        → Found candidates s
        → After (IsCoherent g) (IsTop n) (cross_encoder_rank g query candidates n s)
    unfolding cross_encoder_rank
    cross_encoder_rank-After query candidates n s (corpus, h, all) =
        let pairs = map (λ c. (query, c.embedding_text)) candidates in
        After-mono (Has g corpus) (IsCoherent g) (IsTop n) (IsTop n)
          (cross_encoder_rank g query candidates n s) (λ v j. j.0) (λ a v j. j)
          (After-bind (Has g corpus) (λ _ u. Has g corpus u) (IsTop n)
            (on_engines g (g.rerank pairs)) s
            (λ scores. pure (take n (sort_desc F.ltb (λ x. x.1) (zip candidates scores))))
            (on_engines-After g (Has g corpus) (g.rerank pairs) s (λ w. h))
            (λ scores u i.
              let scored : List (ChunkRecord × F.Float) = zip candidates scores in
              record {
                corpus = corpus;
                loaded = i;
                from_corpus =
                    All-take (λ x. IsOf corpus x.0) n (sort_desc F.ltb (λ x. x.1) scored)
                      (All-sort_desc F.ltb (λ x. x.1) (λ x. IsOf corpus x.0) scored
                        (All-zip (IsOf corpus) candidates scores all));
                few = length-take-le n (sort_desc F.ltb (λ x. x.1) scored);
                ranked =
                    IsRanked-take F.ltb (λ x. x.1) n (sort_desc F.ltb (λ x. x.1) scored)
                      (sort_desc-IsRanked F.ltb (λ x. x.1) order scored);
              }))

    rank_candidates-After :
        (query : String) (s : Caches g)
        → IsCoherent g s
        → After (IsCoherent g) (IsTop 5) (rank_candidates g query s)
    unfolding rank_candidates
    rank_candidates-After query s h =
        After-bind (IsCoherent g) Found (IsTop 5) (hybrid_retrieve g query 20) s
          (λ candidates. cross_encoder_rank g query candidates 5)
          (hybrid_retrieve-After query 20 s h)
          (λ candidates u i. cross_encoder_rank-After query candidates 5 u i)

    context_of-Context :
        (reranked : List (ChunkRecord × F.Float)) (u : Caches g)
        → IsTop 5 reranked u
        → Context (context_of g reranked u)
    unfolding context_of Context Checked
    context_of-Context reranked u top =
        let said =
          check_docement_consistency-Checked F (F.decimal 6 1) (F.decimal 355 3) order reranked in
        go (check_docement_consistency F reranked (F.decimal 6 1) (F.decimal 355 3)) refl said
      where
        go :
            (r : Result (ConsistencyReport F.Float))
            → check_docement_consistency F reranked (F.decimal 6 1) (F.decimal 355 3) ≡ r
            → Checked F (F.decimal 6 1) (F.decimal 355 3) reranked r
            → Context (context_of g reranked u)
        go (ok report) e said = rw (e, context_of) (reranked, top, refl, said)
        go (raised x) e said = rw (e, context_of) (top.loaded.0, inr said.1)

    contexts :
        (r : Result (List (ChunkRecord × F.Float)) × Caches g) (s : Caches g)
        → After (IsCoherent g) (IsTop 5) r
        → Context (((λ _. reraise (audit retrieval_error) r) >>= context_of g) s)
    unfolding Context
    contexts (ok reranked, u) s h = context_of-Context reranked u h
    contexts (raised e, u) s h = (h, inl refl)

    -- Where the BM25 cache is of the corpus that is loaded, a context has at most five chunks, each a chunk
    -- of the corpus that is loaded afterwards, in the order of their scores, with the report of the
    -- consistency check on them; and an exception is a RetrievalError, or one that is not of the program's
    -- own, and leaves a BM25 cache that is of the corpus. Scores are compared by an order.
    pub get_verification_context-Context :
        (query : String) (s : Caches g)
        → IsCoherent g s
        → Context (get_verification_context g query s)
    unfolding get_verification_context
    get_verification_context-Context query s h =
        contexts (rank_candidates g query s) s (rank_candidates-After query s h)
