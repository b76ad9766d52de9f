-- ===== src/Retrieval/Scope.antt =====
-- The retry layer of src/auditflow/orchestration/retry_layer.py over this retrieval, as
-- orchestration/pipeline.py puts them together.
use mathlib.Core.Path.{subst}
use mathlib.Core.Option.{none-ne-some, some-injective}
use audit_flow_ai.Base.{
  ℕ, String, ◌==◌, Bool, ◌&&◌, ◌≡◌, refl, sym, ap, ◌∙◌, ◌⊎◌, inl, inr, Option, none, some, List, [],
  ◌∷◌, map, In, select, any, All, All-take, All-append, if◌then◌else◌, Bool-cases,
}
use audit_flow_ai.Base.Dict.{Dict, get, values}
use audit_flow_ai.Base.Sorting.{IsOrder}
use audit_flow_ai.Exec.{
  Result, ok, raised, Exec, ◌>>=◌, pure, reraise, After, After-bind, After-mono,
}
use audit_flow_ai.Schemas.Errors.{audit, retrieval_error}
use audit_flow_ai.Schemas.Floats.{Floats}
use audit_flow_ai.Schemas.Generation.{GenerationResult}
use audit_flow_ai.Schemas.Retrieval.{ChunkRecord, ChunkMatch, RetrievalContext}
use audit_flow_ai.Retry.{
  Layer, matching, preamble_match, append_first, with_preamble, scoped_context, first_context,
  get_scoped_context,
}
use audit_flow_ai.Retrieval.Caches.{Engines, Caches, on_engines, get_indexes, get_all_chunks}
use audit_flow_ai.Retrieval.Caches.Coherence.{IsCoherent, Has, get_indexes_stays}
use audit_flow_ai.Retrieval.Context.{to_chunk_match, get_verification_context}
use audit_flow_ai.Retrieval.Context.Corpus.{IsOf, Context, get_verification_context-Context}

module _ {F : Floats} (g : Engines F) where
  module _ (generate : String → List (ChunkMatch F.Float) → Exec g.World GenerationResult) where
    -- `get_verification_context`, `get_all_chunks` and `generate_answer`
    abbrev pub retrieval_layer : Layer F
    retrieval_layer = record {
      World = Caches g;
      tables = g.tables;
      get_all_chunks = get_all_chunks g;
      full_context_fn = get_verification_context g;
      generate_fn = λ question chunks. on_engines g (generate question chunks);
    }

-- A chunk that is shown to the model is one of the corpus, with its id and its text.
pub record IsShown {Float : Type 0} (corpus : Dict ChunkRecord) (m : ChunkMatch Float)
    : Type 0 where
  pub chunk : ChunkRecord
  pub in_corpus : In chunk (values corpus)
  pub same_id : m.chunk_id ≡ chunk.chunk_id
  pub same_text : m.raw_chunk_text ≡ chunk.raw_chunk_text

In-values : (corpus : Dict ChunkRecord) (c : ChunkRecord) → IsOf corpus c → In c (values corpus)
unfolding get values
In-values [] c (id, e) = absurd (none-ne-some c e)
In-values ((k, d) ∷ corpus) c (id, e) = elim (Bool-cases (k == id)) [
  | inl f ↦
      inl (sym (some-injective d c (ap (λ b. if b then some d else get id corpus) (sym f) ∙ e)))
  | inr f ↦ inr (In-values corpus c (id, ap (λ b. if b then some d else get id corpus) (sym f) ∙ e))
]

module _ (F : Floats) (corpus : Dict ChunkRecord) where
  matches-IsShown :
      (reranked : List (ChunkRecord × F.Float))
      → All (λ x. IsOf corpus x.0) reranked
      → All (IsShown corpus) (map to_chunk_match reranked)
  unfolding to_chunk_match
  matches-IsShown [] h = tt
  matches-IsShown ((c, score) ∷ reranked) h = (
    record { chunk = c; in_corpus = In-values corpus c h.0; same_id = refl; same_text = refl },
    matches-IsShown reranked h.1,
  )

  All-kept :
      (P : ChunkMatch F.Float → Type 0) (p : ChunkMatch F.Float → Bool)
      (chunks : List (ChunkMatch F.Float))
      → All P chunks
      → All P (select p chunks)
  All-kept P p [] h = tt
  All-kept P p (c ∷ chunks) h = elim (Bool-cases (p c)) [
    | inl e ↦ rw (e, select) (h.0, All-kept P p chunks h.1)
    | inr e ↦ rw (e, select) (All-kept P p chunks h.1)
  ]

  later :
      (d c : ChunkRecord) (p : ChunkRecord → Bool) (chunks : List ChunkRecord)
      → (In c (select p chunks) → In c chunks)
      → (c ≡ d) ⊎ In c (select p chunks)
      → (c ≡ d) ⊎ In c chunks
  later d c p chunks rest (inl e) = inl e
  later d c p chunks rest (inr m) = inr (rest m)

  In-kept :
      (p : ChunkRecord → Bool) (c : ChunkRecord) (chunks : List ChunkRecord)
      → In c (select p chunks)
      → In c chunks
  In-kept p c [] m = m
  In-kept p c (d ∷ chunks) m = elim (Bool-cases (p d)) [
    | inl e ↦
        later d c p chunks (In-kept p c chunks)
          (subst (λ b. In c (if b then d ∷ select p chunks else select p chunks)) e m)
    | inr e ↦ inr (
        In-kept p c chunks
          (subst (λ b. In c (if b then d ∷ select p chunks else select p chunks)) e m))
  ]

  -- The preamble that is added is of the corpus too.
  first-IsShown :
      (d : String) (scoped : List (ChunkMatch F.Float)) (found : List ChunkRecord)
      → ((c : ChunkRecord) → In c found → In c (values corpus))
      → All (IsShown corpus) scoped
      → All (IsShown corpus) (append_first F d scoped found)
  unfolding append_first
  first-IsShown d scoped [] m h = h
  first-IsShown d scoped (p ∷ found) m h =
      elim (Bool-cases (any (λ c. c.chunk_id == p.chunk_id) scoped)) [
        | inl e ↦ rw (e, append_first) h
        | inr e ↦
            rw (e, append_first)
              (All-append (IsShown corpus) scoped (preamble_match F d p ∷ []) h (
                record { chunk = p; in_corpus = m p (inl refl); same_id = refl; same_text = refl },
                tt,
              ))
      ]

  scope-IsShown :
      (d : String) (k : ℕ) (chunks : List (ChunkMatch F.Float))
      → All (IsShown corpus) chunks
      → All (IsShown corpus) (with_preamble F d (matching d k chunks) (values corpus))
  unfolding with_preamble matching
  scope-IsShown d k chunks h =
      first-IsShown d (matching d k chunks)
        (select (λ c. (c.document_id == d) && c.is_preamble) (values corpus))
        (λ c m. In-kept (λ c. (c.document_id == d) && c.is_preamble) c (values corpus) m)
        (All-take (IsShown corpus) k (select (λ c. c.document_id == d) chunks)
          (All-kept (IsShown corpus) (λ c. c.document_id == d) chunks h))

  -- The scope, where there is one
  abbrev Shown : Option (RetrievalContext F.Float) → Type 0
  Shown none = Unit
  Shown (some context) = All (IsShown corpus) context.chunks

  scoped-Shown :
      (d : String) (chunks : List (ChunkMatch F.Float))
      → All (IsShown corpus) chunks
      → Shown (scoped_context F d chunks)
  scoped-Shown d [] h = tt
  scoped-Shown d (c ∷ chunks) h = h

module _ {F : Floats} (g : Engines F) where
  -- All that is shown to the model is of the corpus that is loaded.
  abbrev pub Grounded : Option (RetrievalContext F.Float) → Caches g → Type 0
  Grounded o u = (corpus : Dict ChunkRecord) × Has g corpus u × Shown F corpus o

module _ {F : Floats} (g : Engines F) (order : IsOrder F.ltb) where
  module _ (generate : String → List (ChunkMatch F.Float) → Exec g.World GenerationResult) where
    abbrev layer : Layer F
    layer = retrieval_layer g generate

    all_chunks-After :
        (corpus : Dict ChunkRecord) (s : Caches g)
        → Has g corpus s
        → After
            (Has g corpus)
            (λ chunks u. Has g corpus u × (chunks ≡ values corpus))
            (get_all_chunks g s)
    unfolding get_all_chunks
    all_chunks-After corpus s h =
        After-bind (Has g corpus) (λ indexes u. Has g corpus u × (indexes.1 ≡ corpus))
          (λ chunks u. Has g corpus u × (chunks ≡ values corpus)) (get_indexes g) s
          (λ indexes. pure (values indexes.1)) (get_indexes_stays g corpus s h)
          (λ indexes u i. (i.0, ap values i.1))

    abbrev Full : RetrievalContext F.Float → Caches g → Type 0
    Full context u =
        (corpus : Dict ChunkRecord) × Has g corpus u × All (IsShown corpus) context.chunks

    Full-After :
        (question : String) (s : Caches g)
        → IsCoherent g s
        → After (IsCoherent g) Full (first_context F layer question none s)
    unfolding first_context Context
    Full-After question s h =
        go (get_verification_context g question s)
          (get_verification_context-Context g order question s h)
      where
        go :
            (r : Result (RetrievalContext F.Float) × Caches g)
            → Context g r
            → After (IsCoherent g) Full (reraise (audit retrieval_error) r)
        go (ok context, u) (reranked, top, e, _) = (
          top.corpus,
          top.loaded,
          subst (All (IsShown top.corpus)) (sym e)
              (matches-IsShown F top.corpus reranked top.from_corpus),
        )
        go (raised x, u) (i, _) = i

    -- Where the BM25 cache is of the corpus that is loaded, every chunk of the scoped context of a question,
    -- retrieved or added as the preamble, has the id and the text of a chunk of the corpus that is loaded
    -- afterwards; and an exception leaves a BM25 cache that is of the corpus. Scores are compared by an order.
    pub get_scoped_context-Grounded :
        (question d : String) (k : ℕ) (s : Caches g)
        → IsCoherent g s
        → After (IsCoherent g) (Grounded g) (get_scoped_context F layer question d k none s)
    unfolding get_scoped_context
    get_scoped_context-Grounded question d k s h =
        After-bind (IsCoherent g) Full (Grounded g) (first_context F layer question none) s
          (λ full. get_all_chunks g >>= λ chunks.
            pure (scoped_context F d (with_preamble F d (matching d k full.chunks) chunks)))
          (Full-After question s h)
          λ full u (corpus, i, shown).
            After-mono (Has g corpus) (IsCoherent g) (Grounded g) (Grounded g)
              ((get_all_chunks g >>= λ chunks.
                  pure (scoped_context F d (with_preamble F d (matching d k full.chunks) chunks)))
                u)
              (λ v j. j.0) (λ o v j. j)
              (After-bind (Has g corpus) (λ chunks v. Has g corpus v × (chunks ≡ values corpus))
                (Grounded g) (get_all_chunks g) u
                (λ chunks.
                  pure (scoped_context F d (with_preamble F d (matching d k full.chunks) chunks)))
                (all_chunks-After corpus u i)
                (λ chunks v j. (
                  corpus,
                  j.0,
                  subst
                      (λ c.
                        Shown F corpus
                          (scoped_context F d (with_preamble F d (matching d k full.chunks) c)))
                      (sym j.1)
                      (scoped-Shown F corpus d _ (scope-IsShown F corpus d k full.chunks shown)),
                )))
