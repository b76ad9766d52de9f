-- ===== src/Pipeline/Answers.antt =====
-- What `ask` returns, and the session that it leaves.
use audit_flow_ai.Base.{
  String, ◌≡◌, ◌∙◌, refl, ap, ◌⊎◌, inl, inr, true, not, ◌&&◌, Option, none, some, List, [],
  Bool-cases,
}
use audit_flow_ai.Base.Dict.{contains, keys}
use audit_flow_ai.Base.Text.{is_blank, strip}
use audit_flow_ai.Exec.{ok, pure, reraise, Result-cases}
use audit_flow_ai.Retry.{Layer, generate_with_bounded_retry}
use audit_flow_ai.Retry.Bounded.{Answer, generate_with_bounded_retry-Answer}
use audit_flow_ai.Schemas.Errors.{audit, generation_error}
use audit_flow_ai.Schemas.Floats.{Floats}
use audit_flow_ai.Schemas.Generation.{Claim, GenerationResult}
use audit_flow_ai.Schemas.Retrieval.{ConsistencyReport, RetrievalContext}
use audit_flow_ai.Schemas.Session.{AskResponse, answer_with, low_relevance_of, clarify}
use audit_flow_ai.Schemas.Verification.{VerifiedClaim}
use audit_flow_ai.Verify.{Judge, verify_all_claims}
use audit_flow_ai.Verify.Batch.{AllChecked, verify_all_claims-AllChecked}
use audit_flow_ai.Pipeline.{
  Sessions, Run, on_layer, is_active, looks_like_contract_selection, answer_with_retry, verify,
  respond, resolved, resolve_pending_selection, ask_which, retried_active, try_active,
  retried_mentioned, try_mentioned, handle_low_confidence, confident, generate_for,
  generate_and_verify, routed, fresh_question, ask_with, ask,
}
use audit_flow_ai.Pipeline.Ends.{Ends, Ends-bind, Ends-skip, Ends-if, Ends-reraise}

module _ (f : Floats) (l : Layer f) (m : Judge) (s : Sessions) where
  abbrev pub Here : Type 0
  Here = Run l.World m.World

  -- The response answers `question` from the document `d`, which is now the active one: its claims
  -- are those of a grounded answer, each checked.
  pub record Answers (question d : String) (response : AskResponse) (after : Here) : Type 0 where
    pub claims : List VerifiedClaim
    pub result : GenerationResult
    pub is_response : response ≡ answer_with claims d
    pub active : after.session.active_contract ≡ some d
    pub grounded : Answer f l question d result
    pub checked : AllChecked m s.chunk_lookup result.claims claims

  -- What a call of `ask` may return for `question`, from a session with the pending question
  -- `pending` and its `candidates`.
  pub data Reply (question : String) (pending : Option String) (candidates : List String)
      (response : AskResponse) (after : Here) : Type 0 where
    answers :
        (asked d : String)
        → (asked ≡ question) ⊎ ((pending ≡ some asked) × (contains candidates d ≡ true))
        → Answers asked d response after
        → Reply question pending candidates response after
    clarifies :
        (offered : List String) (p : String)
        → response ≡ clarify offered
        → after.session.pending_candidates ≡ offered
        → after.session.pending_question ≡ some p
        → (p ≡ question) ⊎ ((pending ≡ some p) × (candidates ≡ offered))
        → Reply question pending candidates response after
    low :
        (d : Option String)
        → response ≡ low_relevance_of d
        → Reply question pending candidates response after

  verify-Ends :
      (claims : List Claim) (r : Here)
      → Ends
          (λ vs r'. AllChecked m s.chunk_lookup claims vs × (r'.session ≡ r.session))
          (verify f l m s claims r)
  unfolding verify
  verify-Ends claims r = elim (Result-cases (verify_all_claims m claims s.chunk_lookup r.bench).0) [
    | inl (vs, e) ↦ rw e (verify_all_claims-AllChecked m s.chunk_lookup claims r.bench vs e, refl)
    | inr (x, e) ↦ rw e tt
  ]

  answer_with_retry-Ends :
      (question d : String) (pre : Option (RetrievalContext f.Float)) (r : Here)
      → Ends
          (λ o r'.
            ((result : GenerationResult) → o ≡ some result → Answer f l question d result)
            × (r'.session ≡ r.session))
          (answer_with_retry f l m s question d pre r)
  unfolding answer_with_retry
  answer_with_retry-Ends question d pre r =
      elim (Result-cases (generate_with_bounded_retry f l question d pre r.below).0) [
        | inl (o, e) ↦ rw e (
          λ result same.
              generate_with_bounded_retry-Answer f l question d pre r.below result (rw same at e),
          refl,
        )
        | inr (x, e) ↦ rw e tt
      ]

  module _ (question : String) (pending : Option String) (candidates : List String) where
    abbrev Fine : AskResponse → Here → Type 0
    Fine = Reply question pending candidates

    respond-Ends :
        (asked d : String) (result : GenerationResult) (r : Here)
        → (asked ≡ question) ⊎ ((pending ≡ some asked) × (contains candidates d ≡ true))
        → Answer f l asked d result
        → r.session.active_contract ≡ some d
        → Ends Fine (respond f l m s result d r)
    unfolding respond
    respond-Ends asked d result r from g active =
        Ends-bind Fine
          (λ vs r'. AllChecked m s.chunk_lookup result.claims vs × (r'.session ≡ r.session))
          (verify f l m s result.claims) (λ vs. pure (answer_with vs d)) r
          (verify-Ends result.claims r)
          (λ vs r' q. answers asked d from (record {
            claims = vs;
            result = result;
            is_response = refl;
            active = ap (λ x. x.active_contract) q.1 ∙ active;
            grounded = g;
            checked = q.0;
          }))

    -- the session after a call that leaves it alone
    kept :
        (r r' : Here) (d : String)
        → r'.session ≡ r.session
        → r.session.active_contract ≡ some d
        → r'.session.active_contract ≡ some d
    kept r r' d same active = ap (λ x. x.active_contract) same ∙ active

    abbrev Retried : String → String → Here → Option GenerationResult → Here → Type 0
    Retried asked d r o r' =
        ((result : GenerationResult) → o ≡ some result → Answer f l asked d result)
        × (r'.session ≡ r.session)

    resolved-Ends :
        (asked d : String) (o : Option GenerationResult) (r : Here)
        → (pending ≡ some asked) × (contains candidates d ≡ true)
        → ((result : GenerationResult) → o ≡ some result → Answer f l asked d result)
        → Ends Fine (resolved f l m s d o r)
    unfolding resolved
    resolved-Ends asked d none r from g = low (some d) refl
    resolved-Ends asked d (some result) r from g =
        respond-Ends asked d result
          (record r { session = record r.session { active_contract = some d } }) (inr from)
          (g result refl) refl

    resolve_pending_selection-Ends :
        (asked : String) (r : Here)
        → r.session.pending_question ≡ some asked
        → pending ≡ some asked
        → candidates ≡ r.session.pending_candidates
        → Ends Fine (resolve_pending_selection f l m s question asked r)
    unfolding resolve_pending_selection
    resolve_pending_selection-Ends asked r here from same =
        let chosen : String = strip l.tables.is_space question in
        let cleared : Here = record r {
          session = record r.session { pending_question = none; pending_candidates = [] };
        } in
        elim (Bool-cases (contains r.session.pending_candidates chosen)) [
          | inr missing ↦
              rw missing
                (clarifies r.session.pending_candidates asked refl refl here (inr (from, same)))
          | inl offered ↦ rw offered (
              Ends-bind Fine (Retried asked chosen cleared)
                (answer_with_retry f l m s asked chosen none) (resolved f l m s chosen) cleared
                (answer_with_retry-Ends asked chosen none cleared)
                (λ o r' q.
                  resolved-Ends asked chosen o r'
                    (from, ap (λ cs. contains cs chosen) same ∙ offered) q.0))
        ]

    module _ (consistency : ConsistencyReport f.Float) where
      ask_which-Ends : (r : Here) → Ends Fine (ask_which f l m s question consistency r)
      unfolding ask_which
      ask_which-Ends r = elim (Bool-cases (f.ltb consistency.concentration (f.decimal 6 1))) [
        | inl spread ↦
            rw spread
              (clarifies (keys consistency.contract_breakdown) question refl refl refl (inl refl))
        | inr narrow ↦ rw narrow (low consistency.top_contract refl)
      ]

      retried_active-Ends :
          (d : String) (o : Option GenerationResult) (r : Here)
          → r.session.active_contract ≡ some d
          → ((result : GenerationResult) → o ≡ some result → Answer f l question d result)
          → Ends Fine (retried_active f l m s question consistency d o r)
      unfolding retried_active
      retried_active-Ends d none r active g = ask_which-Ends r
      retried_active-Ends d (some result) r active g =
          respond-Ends question d result r (inl refl) (g result refl) active

      try_active-Ends :
          (o : Option String) (r : Here)
          → r.session.active_contract ≡ o
          → Ends Fine (try_active f l m s question consistency o r)
      unfolding try_active
      try_active-Ends none r active = ask_which-Ends r
      try_active-Ends (some d) r active = elim (Bool-cases (is_blank d)) [
        | inl blank ↦ rw blank (ask_which-Ends r)
        | inr filled ↦ rw filled (
            Ends-bind Fine (Retried question d r) (answer_with_retry f l m s question d none)
              (retried_active f l m s question consistency d) r
              (answer_with_retry-Ends question d none r)
              (λ o r' q. retried_active-Ends d o r' (kept r r' d q.1 active) q.0))
      ]

      retried_mentioned-Ends :
          (d : String) (o : Option GenerationResult) (r : Here)
          → ((result : GenerationResult) → o ≡ some result → Answer f l question d result)
          → Ends Fine (retried_mentioned f l m s question consistency d o r)
      unfolding retried_mentioned
      retried_mentioned-Ends d none r g = try_active-Ends r.session.active_contract r refl
      retried_mentioned-Ends d (some result) r g =
          respond-Ends question d result
            (record r { session = record r.session { active_contract = some d } }) (inl refl)
            (g result refl) refl

      try_mentioned-Ends :
          (o : Option String) (r : Here)
          → Ends Fine (try_mentioned f l m s question consistency o r)
      unfolding try_mentioned
      try_mentioned-Ends none r = try_active-Ends r.session.active_contract r refl
      try_mentioned-Ends (some d) r =
          let dropped : Here = record r { session = record r.session { active_contract = none } } in
          elim (Bool-cases (not (is_blank d) && not (is_active d r.session.active_contract))) [
            | inr skip ↦ rw skip (try_active-Ends r.session.active_contract r refl)
            | inl named ↦ rw named (
                Ends-bind Fine (Retried question d dropped)
                  (answer_with_retry f l m s question d none)
                  (retried_mentioned f l m s question consistency d) dropped
                  (answer_with_retry-Ends question d none dropped)
                  (λ o r' q. retried_mentioned-Ends d o r' q.0))
          ]

      handle_low_confidence-Ends :
          (r : Here) → Ends Fine (handle_low_confidence f l m s question consistency r)
      unfolding handle_low_confidence
      handle_low_confidence-Ends r = try_mentioned-Ends _ r

    confident-Ends :
        (d : String) (o : Option GenerationResult) (r : Here)
        → r.session.active_contract ≡ some d
        → ((result : GenerationResult) → o ≡ some result → Answer f l question d result)
        → Ends Fine (confident f l m s d o r)
    unfolding confident
    confident-Ends d none r active g = low (some d) refl
    confident-Ends d (some result) r active g =
        respond-Ends question d result r (inl refl) (g result refl) active

    generate_for-Ends :
        (context : RetrievalContext f.Float) (o : Option String) (r : Here)
        → r.session.active_contract ≡ o
        → Ends Fine (generate_for f l m s question context o r)
    unfolding generate_for
    generate_for-Ends context none r active =
        Ends-skip Fine (λ u. reraise (audit generation_error) (on_layer f l m s l.get_all_chunks u))
          (λ _. pure (low_relevance_of none)) r (λ _ _. low none refl)
    generate_for-Ends context (some d) r active =
        Ends-bind Fine (Retried question d r)
          (λ u.
            reraise (audit generation_error)
              (answer_with_retry f l m s question d (some context) u))
          (confident f l m s d) r
          (Ends-reraise (Retried question d r) (audit generation_error) _
            (answer_with_retry-Ends question d (some context) r))
          (λ o r' q. confident-Ends d o r' (kept r r' d q.1 active) q.0)

    routed-Ends :
        (context : RetrievalContext f.Float) (r : Here)
        → Ends Fine (routed f l m s question context r)
    unfolding routed generate_and_verify
    routed-Ends context r =
        Ends-if Fine context.consistency.is_confident _
          (handle_low_confidence f l m s question context.consistency) r
          (generate_for-Ends context context.consistency.top_contract _ refl)
          (handle_low_confidence-Ends context.consistency r)

    fresh_question-Ends : (r : Here) → Ends Fine (fresh_question f l m s question r)
    unfolding fresh_question
    fresh_question-Ends r =
        Ends-skip Fine (on_layer f l m s (l.full_context_fn question)) (routed f l m s question) r
          (λ context r'. routed-Ends context r')

  ask_with-Ends :
      (question : String) (pending : Option String) (r : Here)
      → r.session.pending_question ≡ pending
      → Ends
          (Reply question pending r.session.pending_candidates)
          (ask_with f l m s question pending r)
  unfolding ask_with
  ask_with-Ends question none r same =
      fresh_question-Ends question none r.session.pending_candidates r
  ask_with-Ends question (some p) r same =
      elim (Bool-cases (not (is_blank p) && looks_like_contract_selection l.tables question)) [
        | inl selection ↦ rw selection (
            resolve_pending_selection-Ends question (some p) r.session.pending_candidates p r same
              refl refl)
        | inr other ↦
            rw other (fresh_question-Ends question (some p) r.session.pending_candidates r)
      ]

  ask-Ends :
      (question : String) (r : Here)
      → Ends
          (Reply question r.session.pending_question r.session.pending_candidates)
          (ask f l m s question r)
  unfolding ask
  ask-Ends question r = ask_with-Ends question r.session.pending_question r refl

  -- What `ask` returns is one of three. An answer: its document is now the active one; the question
  -- that was put to the model is this one, or the pending one, and then the document is one of the
  -- candidates that were offered; it was put over chunks of that document alone, and each claim of the
  -- answer was checked against the chunk that it cites. A request for clarification: its candidates
  -- are now pending, with this question, or again with the question that was pending. Or low relevance.
  pub ask-Reply :
      (question : String) (r after : Here) (response : AskResponse)
      → ask f l m s question r ≡ (ok response, after)
      → Reply question r.session.pending_question r.session.pending_candidates response after
  ask-Reply question r after response h = rw h at (ask-Ends question r)
