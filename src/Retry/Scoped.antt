-- ===== src/Retry/Scoped.antt =====
-- What `get_scoped_context` hands to the model.
use mathlib.Core.Path.{subst}
use audit_flow_ai.Base.{
  ℕ, ◌+◌, ◌≤◌, String, ◌≡◌, ◌≢◌, ◌⊎◌, refl, inl, inr, In, Bool, true, Option, none, some, List, [],
  ◌∷◌, ◌==◌, ◌&&◌, eq_iff, arith, length, select, any, All, All-append, All-take, All-select,
  All-map, length-append, length-take-le, Bool-cases,
}
use audit_flow_ai.Exec.{ok, Result-cases}
use audit_flow_ai.Schemas.Floats.{Floats}
use audit_flow_ai.Schemas.Retrieval.{ChunkRecord, ChunkMatch, RetrievalContext}
use audit_flow_ai.Retry.{
  Layer, matching, append_first, with_preamble, scoped_context, first_context, get_scoped_context,
}

-- A context for one document: at least one chunk, at most `k + 1`, and all of that document.
pub record IsScoped (f : Floats) (d : String) (k : ℕ) (context : RetrievalContext f.Float)
    : Type 0 where
  pub of_document : All (λ c. c.document_id ≡ d) context.chunks
  pub few : length context.chunks ≤ k + 1
  pub some_chunk : context.chunks ≢ []
  pub top : context.consistency.top_contract ≡ some d

-- A chunk of the context is one that was retrieved for the document, or the preamble of the document
-- in the corpus, by its id and its text.
pub IsDrawn :
    (f : Floats)
    → String
    → List (ChunkMatch f.Float)
    → List ChunkRecord
    → ChunkMatch f.Float
    → Type 0
IsDrawn f d retrieved all_chunks c =
    (In c retrieved × (c.document_id ≡ d))
    ⊎ ((p : ChunkRecord) × In p all_chunks
        × (p.document_id ≡ d)
        × (p.is_preamble ≡ true)
        × (c.chunk_id ≡ p.chunk_id)
        × (c.raw_chunk_text ≡ p.raw_chunk_text))

In-select :
    {A : Type 0} (p : A → Bool) (xs : List A) → All (λ c. In c xs × (p c ≡ true)) (select p xs)
In-select p [] = tt
In-select p (x ∷ xs) =
    let rest : All (λ c. In c (x ∷ xs) × (p c ≡ true)) (select p xs) =
      All-map (λ c (m, e). (inr m, e)) (select p xs) (In-select p xs) in
    elim (Bool-cases (p x)) [ inl e ↦ rw e ((inl refl, e), rest) | inr e ↦ rw e rest ]

module _ (f : Floats) (d : String) where
  append_first-IsDrawn :
      (retrieved scoped : List (ChunkMatch f.Float)) (all_chunks preambles : List ChunkRecord)
      → All (IsDrawn f d retrieved all_chunks) scoped
      → All (λ p. In p all_chunks × (((p.document_id == d) && p.is_preamble) ≡ true)) preambles
      → All (IsDrawn f d retrieved all_chunks) (append_first f d scoped preambles)
  unfolding append_first IsDrawn
  append_first-IsDrawn retrieved scoped all_chunks [] h ps = h
  append_first-IsDrawn retrieved scoped all_chunks (p ∷ _) h ps =
      elim (Bool-cases (any (λ c. c.chunk_id == p.chunk_id) scoped)) [
        | inl there ↦ rw there h
        | inr missing ↦ rw missing (
            All-append (IsDrawn f d retrieved all_chunks) scoped _ h (
              inr (
                p,
                ps.0.0,
                (eq_iff p.document_id d).0 (ground (arith, ps.0.1)),
                ground (arith, ps.0.1),
                refl,
                refl,
              ),
              tt,
            ))
      ]

  with_preamble-IsDrawn :
      (k : ℕ) (retrieved : List (ChunkMatch f.Float)) (all_chunks : List ChunkRecord)
      → All
          (IsDrawn f d retrieved all_chunks)
          (with_preamble f d (matching d k retrieved) all_chunks)
  unfolding with_preamble matching IsDrawn
  with_preamble-IsDrawn k retrieved all_chunks =
      append_first-IsDrawn retrieved _ all_chunks _
        (All-take (IsDrawn f d retrieved all_chunks) k _ (
          All-map (λ c (m, e). inl (m, (eq_iff c.document_id d).0 e)) _
            (In-select (λ c. c.document_id == d) retrieved)))
        (In-select (λ p. (p.document_id == d) && p.is_preamble) all_chunks)

  matching-of_document :
      (k : ℕ) (chunks : List (ChunkMatch f.Float))
      → All (λ c. c.document_id ≡ d) (matching d k chunks)
  unfolding matching
  matching-of_document k chunks = All-take _ k _ (
      All-map (λ c h. (eq_iff c.document_id d).0 h) _ (All-select (λ c. c.document_id == d) chunks))

  length-matching : (k : ℕ) (chunks : List (ChunkMatch f.Float)) → length (matching d k chunks) ≤ k
  unfolding matching
  length-matching k chunks = length-take-le k _

  append_first-of_document :
      (scoped : List (ChunkMatch f.Float)) (preambles : List ChunkRecord)
      → All (λ c. c.document_id ≡ d) scoped
      → All (λ c. c.document_id ≡ d) (append_first f d scoped preambles)
        × (length (append_first f d scoped preambles) ≤ length scoped + 1)
  unfolding append_first
  append_first-of_document scoped [] h = (h, omega arith)
  append_first-of_document scoped (p ∷ _) h =
      elim (Bool-cases (any (λ c. c.chunk_id == p.chunk_id) scoped)) [
        | inl there ↦ rw there (h, omega arith)
        | inr missing ↦
            rw missing (All-append _ scoped _ h (refl, tt), omega (arith, length-append scoped))
      ]

  with_preamble-of_document :
      (scoped : List (ChunkMatch f.Float)) (all_chunks : List ChunkRecord)
      → All (λ c. c.document_id ≡ d) scoped
      → All (λ c. c.document_id ≡ d) (with_preamble f d scoped all_chunks)
        × (length (with_preamble f d scoped all_chunks) ≤ length scoped + 1)
  unfolding with_preamble
  with_preamble-of_document scoped all_chunks h = append_first-of_document scoped _ h

  scoped_context-chunks :
      (chunks : List (ChunkMatch f.Float)) (context : RetrievalContext f.Float)
      → scoped_context f d chunks ≡ some context
      → chunks ≡ context.chunks
  scoped_context-chunks [] context e = cc
  scoped_context-chunks (c ∷ chunks) context e = ground arith

  scoped_context-IsScoped :
      (k : ℕ) (chunks : List (ChunkMatch f.Float)) (context : RetrievalContext f.Float)
      → All (λ c. c.document_id ≡ d) chunks
      → length chunks ≤ k + 1
      → scoped_context f d chunks ≡ some context
      → IsScoped f d k context
  scoped_context-IsScoped k [] context h few e = cc
  scoped_context-IsScoped k (c ∷ chunks) context h few e =
      let same : c ∷ chunks ≡ context.chunks = ground arith in
      record {
        of_document = rw (← same) h;
        few = rw (← same) few;
        some_chunk = λ empty. cc;
        top = ground arith;
      }

module _ (f : Floats) (l : Layer f) (question d : String) (k : ℕ) where
  -- what the first context is: the one that was handed in, or what the retrieval gave
  pub IsGiven : Option (RetrievalContext f.Float) → l.World → RetrievalContext f.Float → Type 0
  IsGiven none w full = (l.full_context_fn question w).0 ≡ ok full
  IsGiven (some pre) w full = full ≡ pre

  first_context-IsGiven :
      (pre : Option (RetrievalContext f.Float)) (w : l.World) (full : RetrievalContext f.Float)
      → (first_context f l question pre w).0 ≡ ok full
      → IsGiven pre w full
  unfolding first_context IsGiven
  first_context-IsGiven none w full e = elim (Result-cases (l.full_context_fn question w).0) [
    | inl (x, e') ↦ ground arith
    | inr (x, e') ↦ absurd (ground arith)
  ]
  first_context-IsGiven (some pre) w full e = ground arith

  -- A scoped context is made of what the retrieval and the corpus hold, in that order.
  get_scoped_context-made :
      (pre : Option (RetrievalContext f.Float)) (w : l.World)
      (o : Option (RetrievalContext f.Float))
      → (get_scoped_context f l question d k pre w).0 ≡ ok o
      → (full : RetrievalContext f.Float) × (all_chunks : List ChunkRecord) × (w' : l.World)
        × IsGiven pre w full
        × ((l.get_all_chunks w').0 ≡ ok all_chunks)
        × (scoped_context f d (with_preamble f d (matching d k full.chunks) all_chunks) ≡ o)
  unfolding get_scoped_context
  get_scoped_context-made pre w o h = elim (Result-cases (first_context f l question pre w).0) [
    | inr (x, e) ↦ absurd (ground arith)
    | inl (full, e) ↦
        let w' : l.World = (first_context f l question pre w).1 in
        elim (Result-cases (l.get_all_chunks w').0) [
          | inr (x, e') ↦ absurd (ground arith)
          | inl (all_chunks, e') ↦
              (full, all_chunks, w', first_context-IsGiven pre w full e, e', ground arith)
        ]
  ]

  -- The chunks that reach the model all belong to the chosen document; they are at most `top_k`
  -- and the preamble, and at least one.
  pub get_scoped_context-IsScoped :
      (pre : Option (RetrievalContext f.Float)) (w : l.World) (context : RetrievalContext f.Float)
      → (get_scoped_context f l question d k pre w).0 ≡ ok (some context)
      → IsScoped f d k context
  get_scoped_context-IsScoped pre w context h =
      let (full, all_chunks, w', first, e, made) = get_scoped_context-made pre w (some context) h in
      let (of_document, few) =
        with_preamble-of_document f d (matching d k full.chunks) all_chunks
          (matching-of_document f d k full.chunks) in
      scoped_context-IsScoped f d k _ context of_document
        (omega (arith, length-matching f d k full.chunks)) made

  -- A context that is returned has at least one chunk and at most `top_k` and one more. Each is a
  -- chunk of the chosen document in the context that was handed in or retrieved, or carries the id and
  -- the text of a preamble of the chosen document in the corpus.
  pub get_scoped_context-IsDrawn :
      (pre : Option (RetrievalContext f.Float)) (w : l.World) (context : RetrievalContext f.Float)
      → (get_scoped_context f l question d k pre w).0 ≡ ok (some context)
      → IsScoped f d k context
        × ((full : RetrievalContext f.Float) × (all_chunks : List ChunkRecord) × (w' : l.World)
            × IsGiven pre w full
            × ((l.get_all_chunks w').0 ≡ ok all_chunks)
            × All (IsDrawn f d full.chunks all_chunks) context.chunks)
  get_scoped_context-IsDrawn pre w context h =
      let (full, all_chunks, w', first, e, made) = get_scoped_context-made pre w (some context) h in
      (
        get_scoped_context-IsScoped pre w context h,
        (
          full,
          all_chunks,
          w',
          first,
          e,
          subst (All (IsDrawn f d full.chunks all_chunks))
              (scoped_context-chunks f d _ context made)
              (with_preamble-IsDrawn f d k full.chunks all_chunks),
        ),
      )
