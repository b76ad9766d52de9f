-- ===== src/Retry/Bounded.antt =====
-- The answer that the bounded retry gives.
use audit_flow_ai.Base.{
  ℕ, ◌+◌, ◌≤◌, String, ◌≡◌, refl, inl, inr, true, false, Option, none, some, List, arith,
  Bool-cases,
}
use audit_flow_ai.Exec.{ok, Result-cases}
use audit_flow_ai.Schemas.Floats.{Floats}
use audit_flow_ai.Schemas.Generation.{GenerationResult}
use audit_flow_ai.Schemas.Retrieval.{ChunkMatch, RetrievalContext}
use audit_flow_ai.Retry.{
  Layer, get_scoped_context, needs_retry, reformulate_query, generate_with_bounded_retry,
  first_pass, after_first, retry_with, second_pass,
}
use audit_flow_ai.Retry.Scoped.{IsScoped, get_scoped_context-IsScoped}

module _ (f : Floats) (l : Layer f) (question d : String) where
  -- `result` is what the model wrote for the question itself over a context scoped to `d`.
  pub record Grounded (result : GenerationResult) : Type 0 where
    pub context : RetrievalContext f.Float
    pub scoped : IsScoped f d 12 context
    pub before : l.World
    pub written : (l.generate_fn question context.chunks before).0 ≡ ok result

  -- Why the second pass gave nothing better: no search phrase, no chunk of the document for the
  -- phrase, or an answer over a context of the document that has a claim without a source again.
  pub data NoBetter : Type 0 where
    no_phrase : reformulate_query l.tables question ≡ none → NoBetter
    nothing_found :
        (phrase : String) (w : l.World)
        → reformulate_query l.tables question ≡ some phrase
        → (get_scoped_context f l phrase d 12 none w).0 ≡ ok none
        → NoBetter
    no_source :
        (phrase : String) (again : GenerationResult)
        → reformulate_query l.tables question ≡ some phrase
        → Grounded again
        → needs_retry again.claims ≡ true
        → NoBetter

  -- How an answer comes about: the first pass wrote it and all its claims have a source, or there was
  -- no better; or the first pass wrote `first` with a claim that has none, and a search with the
  -- reformulated phrase led to an answer with a source for every claim.
  pub data Answer (result : GenerationResult) : Type 0 where
    by_first : Grounded result → needs_retry result.claims ≡ false → Answer result
    kept : Grounded result → needs_retry result.claims ≡ true → NoBetter → Answer result
    by_second :
        (first : GenerationResult) (phrase : String)
        → Grounded first
        → needs_retry first.claims ≡ true
        → reformulate_query l.tables question ≡ some phrase
        → Grounded result
        → needs_retry result.claims ≡ false
        → Answer result

  kept-move :
      (first result : GenerationResult)
      → first ≡ result
      → Grounded first
      → needs_retry first.claims ≡ true
      → NoBetter
      → Answer result
  kept-move first result same g bad n = rw (← same) (kept g bad n)

  second_pass-Answer :
      (first : GenerationResult) (phrase : String) (o : Option (RetrievalContext f.Float))
      (w u : l.World) (result : GenerationResult)
      → Grounded first
      → needs_retry first.claims ≡ true
      → reformulate_query l.tables question ≡ some phrase
      → (get_scoped_context f l phrase d 12 none u).0 ≡ ok o
      → (second_pass f l question d first o w).0 ≡ ok (some result)
      → Answer result
  unfolding second_pass
  second_pass-Answer first phrase none w u result g bad named none_found h =
      kept-move first result (ground arith) g bad (nothing_found phrase u named none_found)
  second_pass-Answer first phrase (some wider) w u result g bad named found h =
      elim (Result-cases (l.generate_fn question wider.chunks w).0) [
        | inr (x, e) ↦ absurd (ground arith)
        | inl (again, e) ↦
            let g' : Grounded again = record {
              context = wider;
              scoped = get_scoped_context-IsScoped f l phrase d 12 none u wider found;
              before = w;
              written = e;
            } in
            elim (Bool-cases (needs_retry again.claims)) [
              | inl worse ↦
                  kept-move first result (ground arith) g bad
                    (no_source phrase again named g' worse)
              | inr better ↦
                  let same : again ≡ result = ground arith in
                  rw (← same) (by_second first phrase g bad named g' better)
            ]
      ]

  retry_with-Answer :
      (first : GenerationResult) (o : Option String) (w : l.World) (result : GenerationResult)
      → Grounded first
      → needs_retry first.claims ≡ true
      → reformulate_query l.tables question ≡ o
      → (retry_with f l question d first o w).0 ≡ ok (some result)
      → Answer result
  unfolding retry_with
  retry_with-Answer first none w result g bad named h =
      kept-move first result (ground arith) g bad (no_phrase named)
  retry_with-Answer first (some q) w result g bad named h =
      elim (Result-cases (get_scoped_context f l q d 12 none w).0) [
        | inr (x, e) ↦ absurd (ground arith)
        | inl (o, e) ↦
            second_pass-Answer first q o (get_scoped_context f l q d 12 none w).1 w result g bad
              named e (ground arith)
      ]

  after_first-Answer :
      (first : GenerationResult) (w : l.World) (result : GenerationResult)
      → Grounded first
      → (after_first f l question d first w).0 ≡ ok (some result)
      → Answer result
  unfolding after_first
  after_first-Answer first w result g h = elim (Bool-cases (needs_retry first.claims)) [
    | inl bad ↦
        retry_with-Answer first (reformulate_query l.tables question) w result g bad refl
          (ground arith)
    | inr fine ↦ let same : first ≡ result = ground arith in rw (← same) (by_first g fine)
  ]

  first_pass-Answer :
      (o : Option (RetrievalContext f.Float)) (w : l.World) (result : GenerationResult)
      → ((context : RetrievalContext f.Float) → o ≡ some context → IsScoped f d 12 context)
      → (first_pass f l question d o w).0 ≡ ok (some result)
      → Answer result
  unfolding first_pass
  first_pass-Answer none w result scoped h = absurd (ground arith)
  first_pass-Answer (some context) w result scoped h =
      elim (Result-cases (l.generate_fn question context.chunks w).0) [
        | inr (x, e) ↦ absurd (ground arith)
        | inl (first, e) ↦
            after_first-Answer first (l.generate_fn question context.chunks w).1 result
              (record { context = context; scoped = scoped context refl; before = w; written = e })
              (ground arith)
      ]

  IsScoped-wider :
      (context : RetrievalContext f.Float) → IsScoped f d 5 context → IsScoped f d 12 context
  IsScoped-wider context s = record {
    of_document = s.of_document;
    few = omega arith;
    some_chunk = s.some_chunk;
    top = s.top;
  }

  pub generate_with_bounded_retry-Answer :
      (pre : Option (RetrievalContext f.Float)) (w : l.World) (result : GenerationResult)
      → (generate_with_bounded_retry f l question d pre w).0 ≡ ok (some result)
      → Answer result
  unfolding generate_with_bounded_retry
  generate_with_bounded_retry-Answer pre w result h =
      elim (Result-cases (get_scoped_context f l question d 5 pre w).0) [
        | inr (x, e) ↦ absurd (ground arith)
        | inl (o, e) ↦
            first_pass-Answer o (get_scoped_context f l question d 5 pre w).1 result
              (λ context same.
                IsScoped-wider context
                  (get_scoped_context-IsScoped f l question d 5 pre w context (rw (← same) e)))
              (ground arith)
      ]

-- `n` meters the calls: a retrieval costs at most `a`, a generation `b`, a reading of the corpus `c`.
pub record Metered (f : Floats) (l : Layer f) (n : l.World → ℕ) (a b c : ℕ) : Type 0 where
  pub retrieval : (q : String) (w : l.World) → n (l.full_context_fn q w).1 ≤ n w + a
  pub generation :
      (q : String) (chunks : List (ChunkMatch f.Float)) (w : l.World)
      → n (l.generate_fn q chunks w).1 ≤ n w + b
  pub corpus : (w : l.World) → n (l.get_all_chunks w).1 ≤ n w + c

-- the price of the first retrieval
abbrev pub fresh {ℓ} : {A : Type ℓ} → Option A → ℕ → ℕ
fresh none a = a
fresh (some _) a = 0

module _ (f : Floats) (l : Layer f) (n : l.World → ℕ) (a b c : ℕ) (meter : Metered f l n a b c)
    (question d : String) where
  get_scoped_context_cost :
      (q : String) (k : ℕ) (pre : Option (RetrievalContext f.Float)) (w : l.World)
      → n (get_scoped_context f l q d k pre w).1 ≤ n w + fresh pre a + c
  unfolding get_scoped_context
  get_scoped_context_cost q k none w =
      ground (arith, meter.retrieval q w, meter.corpus (l.full_context_fn q w).1)
  get_scoped_context_cost q k (some context) w = ground (arith, meter.corpus w)

  second_pass_cost :
      (first : GenerationResult) (o : Option (RetrievalContext f.Float)) (w : l.World)
      → n (second_pass f l question d first o w).1 ≤ n w + b
  unfolding second_pass
  second_pass_cost first none w = omega arith
  second_pass_cost first (some context) w =
      ground (arith, meter.generation question context.chunks w)

  retry_with_cost :
      (first : GenerationResult) (o : Option String) (w : l.World)
      → n (retry_with f l question d first o w).1 ≤ n w + a + c + b
  unfolding retry_with
  retry_with_cost first none w = omega arith
  retry_with_cost first (some q) w = elim (Result-cases (get_scoped_context f l q d 12 none w).0) [
    | inr (x, e) ↦ ground (arith, get_scoped_context_cost q 12 none w)
    | inl (o, e) ↦ ground (
      arith,
      get_scoped_context_cost q 12 none w,
      second_pass_cost first o (get_scoped_context f l q d 12 none w).1,
    )
  ]

  after_first_cost :
      (first : GenerationResult) (w : l.World)
      → n (after_first f l question d first w).1 ≤ n w + a + c + b
  unfolding after_first
  after_first_cost first w =
      ground (arith, retry_with_cost first (reformulate_query l.tables question) w)

  first_pass_cost :
      (o : Option (RetrievalContext f.Float)) (w : l.World)
      → n (first_pass f l question d o w).1 ≤ n w + a + c + b + b
  unfolding first_pass
  first_pass_cost none w = omega arith
  first_pass_cost (some context) w =
      elim (Result-cases (l.generate_fn question context.chunks w).0) [
        | inr (x, e) ↦ ground (arith, meter.generation question context.chunks w)
        | inl (first, e) ↦ ground (
          arith,
          meter.generation question context.chunks w,
          after_first_cost first (l.generate_fn question context.chunks w).1,
        )
      ]

  -- However it ends, the layer generates at most twice, reads the corpus at most twice and retrieves
  -- at most twice, or once where the caller hands in the context of the first pass.
  pub generate_with_bounded_retry_cost :
      (pre : Option (RetrievalContext f.Float)) (w : l.World)
      → n (generate_with_bounded_retry f l question d pre w).1
        ≤ n w + (fresh pre a + a) + (b + b) + (c + c)
  unfolding generate_with_bounded_retry
  generate_with_bounded_retry_cost pre w =
      elim (Result-cases (get_scoped_context f l question d 5 pre w).0) [
        | inr (x, e) ↦ ground (arith, get_scoped_context_cost question 5 pre w)
        | inl (o, e) ↦ ground (
          arith,
          get_scoped_context_cost question 5 pre w,
          first_pass_cost o (get_scoped_context f l question d 5 pre w).1,
        )
      ]
