-- ===== src/Pipeline.antt =====
-- src/auditflow/orchestration/pipeline.py: `Sessions`, which connects retrieval, generation and
-- verification. What `ask` mutates is the `SessionState` that it is handed; the state of the layer
-- below and that of the judge are carried along. Logging is left out.
pub mod Mentions
pub mod Ends
pub mod Answers
use Prim.Native.Char.{code}
use audit_flow_ai.Base.{
  ℕ, suc, String, Bool, true, false, not, ◌&&◌, Option, none, some, List, [], ◌∷◌, ◌==◌, leb, ltb,
  nat_eq, if◌then◌else◌,
}
use audit_flow_ai.Base.Dict.{Dict, keys, contains}
use audit_flow_ai.Base.Text.{Tables, is_blank, count, has_infix, strip, strip_right, split, replace}
use audit_flow_ai.Exec.{Result, ok, raised, Exec, ◌>>=◌, ◌>>◌, pure, gets, modify, reraise}
use audit_flow_ai.Retry.{Layer, generate_with_bounded_retry}
use audit_flow_ai.Schemas.Errors.{audit, generation_error, verification_error, other}
use audit_flow_ai.Schemas.Floats.{Floats}
use audit_flow_ai.Schemas.Generation.{Claim, GenerationResult}
use audit_flow_ai.Schemas.Retrieval.{ConsistencyReport, RetrievalContext}
use audit_flow_ai.Schemas.Session.{AskResponse, answer_with, low_relevance_of, clarify}
use audit_flow_ai.Schemas.Verification.{VerifiedClaim}
use audit_flow_ai.Session.State.{SessionState}
use audit_flow_ai.Verify.{Judge, verify_all_claims}

-- an entry of `get_all_document_identities()`
pub record Identity : Type 0 where
  pub company_name : String
  pub counterparty_name : String
  pub document_title : String

-- the attributes of `Sessions` that `ask` reads
pub record Sessions : Type 0 where
  pub chunk_lookup : Dict String
  pub all_identities : Dict Identity

unfoldable pub is_active : String → Option String → Bool
is_active d none = false
is_active d (some a) = d == a

-- The loops of `_mentions_different_contract`: a document is returned at once, or the best match
-- so far and its length are carried on.
pub data Scan : Type 0 where
  named : String → Scan
  best : Option String → ℕ → Scan

module _ (t : Tables) where
  -- `for word in …`
  unfoldable pub scan_words : List String → String → List String → Option String → ℕ → Scan
  scan_words question_words doc_id [] match len = best match len
  scan_words question_words doc_id (word ∷ words) match len =
      let better = leb 4 (count word) && (contains question_words word && ltb len (count word)) in
      scan_words question_words doc_id words (if better then some doc_id else match)
        (if better then count word else len)

  -- `for name in (…)`
  unfoldable pub scan_names : String → List String → String → List String → Option String → ℕ → Scan
  unfolding scan_words is_blank
  scan_names question_lower question_words doc_id [] match len = best match len
  scan_names question_lower question_words doc_id (name ∷ names) match len =
      let name_lower = t.lower name in
      let words = split t.is_space (replace b'.' "" (replace b',' "" name_lower)) in
      let next : Scan → Scan = λ s. elim s [
        | named d ↦ named d
        | best match' len' ↦ scan_names question_lower question_words doc_id names match' len'
      ] in
      if is_blank name
      then next (best match len)
      else if has_infix question_lower name_lower
      then named doc_id
      else next (scan_words question_words doc_id words match len)

  -- `for doc_id, identity in identities.items()`
  unfoldable pub scan_docs :
      String → List String → Option String → Dict Identity → Option String → ℕ → Option String
  unfolding scan_names is_active
  scan_docs question_lower question_words active [] match len = match
  scan_docs question_lower question_words active ((doc_id, identity) ∷ docs) match len =
      elim (is_active doc_id active) [
        | true ↦ scan_docs question_lower question_words active docs match len
        | false ↦
            elim (scan_names question_lower question_words doc_id
              (identity.company_name ∷ identity.counterparty_name ∷ []) match len) [
                | named d ↦ some d
                | best match' len' ↦ scan_docs question_lower question_words active docs match' len'
              ]
      ]

  unfoldable pub mentions_different_contract :
      String → Dict Identity → Option String → Option String
  unfolding scan_docs
  mentions_different_contract question identities active_contract =
      let question_lower = t.lower question in
      let question_words = split t.is_space (replace b'-' " " (replace b'_' " " question_lower)) in
      scan_docs question_lower question_words active_contract identities none 0

  abbrev question_words : List String
  question_words =
      "what" ∷ "who" ∷ "when" ∷ "where" ∷ "why" ∷ "how" ∷ "does" ∷ "is" ∷ "are" ∷ "which" ∷ "can"
      ∷ "could" ∷ "would" ∷ []

  abbrev head_word : List String → String
  head_word [] = ""
  head_word (w ∷ _) = w

  -- `s.endswith("?")`
  unfoldable pub ends_asking : String → Bool
  ends_asking String.[] = false
  ends_asking (String.◌∷◌ c s) =
      let rest = ends_asking s in if is_blank s then nat_eq (code c) b'?' else rest

  unfoldable pub looks_like_contract_selection : String → Bool
  unfolding ends_asking
  looks_like_contract_selection text =
      let text_clean = t.lower (strip_right (λ c. nat_eq c b'?') (strip t.is_space text)) in
      let first_word = head_word (split t.is_space text_clean) in
      not (contains question_words first_word) && not (ends_asking (strip t.is_space text))

-- The session, and the states of what the pipeline calls.
pub record Run (layer judge : Type 0) : Type 0 where
  pub session : SessionState
  pub below : layer
  pub bench : judge

module _ (f : Floats) (l : Layer f) (m : Judge) (s : Sessions) where
  abbrev pub Ask : Type 0 → Type 0
  Ask A = Exec (Run l.World m.World) A

  abbrev on_layer : {A : Type 0} → Exec l.World A → Ask A
  on_layer e r = let (x, w) = e r.below in (x, record r { below = w })

  abbrev on_judge : {A : Type 0} → Exec m.World A → Ask A
  on_judge e r = let (x, w) = e r.bench in (x, record r { bench = w })

  abbrev update : (SessionState → SessionState) → Ask Unit
  update g r = (ok tt, record r { session = g r.session })

  -- `answer_with_retry`
  unfoldable pub answer_with_retry :
      String → String → Option (RetrievalContext f.Float) → Ask (Option GenerationResult)
  answer_with_retry question document_id prefetched_context =
      on_layer (generate_with_bounded_retry f l question document_id prefetched_context)

  -- `_verify`
  unfoldable pub verify : List Claim → Ask (List VerifiedClaim)
  verify claims r =
      reraise (audit verification_error) (on_judge (verify_all_claims m claims s.chunk_lookup) r)

  -- `_verify` and `AskResponse.answered`
  unfoldable pub respond : GenerationResult → String → Ask AskResponse
  unfolding verify
  respond result document_id = do
    verified_claims ← verify result.claims
    pure (answer_with verified_claims document_id)

  unfoldable pub resolved : String → Option GenerationResult → Ask AskResponse
  unfolding respond
  resolved chosen none = pure (low_relevance_of (some chosen))
  resolved chosen (some result) = do
    update (λ state. record state { active_contract = some chosen })
    respond result chosen

  -- `resolved_question` is `state.pending_question`.
  unfoldable pub resolve_pending_selection : String → String → Ask AskResponse
  unfolding resolved answer_with_retry
  resolve_pending_selection question resolved_question r =
      let chosen = strip l.tables.is_space question in
      if not (contains r.session.pending_candidates chosen)
      then (ok (clarify r.session.pending_candidates), r)
      else (do
        update (λ state. record state { pending_question = none; pending_candidates = [] })
        result ← answer_with_retry resolved_question chosen none
        resolved chosen result)
          r

  -- from `concentration_threshold = 0.6` on
  unfoldable pub ask_which : String → ConsistencyReport f.Float → Ask AskResponse
  ask_which question consistency =
      if f.ltb consistency.concentration (f.decimal 6 1)
      then (let candidates = keys consistency.contract_breakdown in
          do
            update (λ state. record state {
              pending_question = some question;
              pending_candidates = candidates;
            })
            pure (clarify candidates))
      else (do
        update (λ state. record state { active_contract = consistency.top_contract })
        pure (low_relevance_of consistency.top_contract))

  unfoldable pub retried_active :
      String → ConsistencyReport f.Float → String → Option GenerationResult → Ask AskResponse
  unfolding respond ask_which
  retried_active question consistency active none = ask_which question consistency
  retried_active question consistency active (some result) = respond result active

  -- `if state.active_contract:`
  unfoldable pub try_active : String → ConsistencyReport f.Float → Option String → Ask AskResponse
  unfolding retried_active answer_with_retry ask_which
  try_active question consistency none = ask_which question consistency
  try_active question consistency (some active) =
      if is_blank active then ask_which question consistency else (do
        result ← answer_with_retry question active none
        retried_active question consistency active result)

  unfoldable pub retried_mentioned :
      String → ConsistencyReport f.Float → String → Option GenerationResult → Ask AskResponse
  unfolding respond try_active
  retried_mentioned question consistency mentioned none =
      λ r. try_active question consistency r.session.active_contract r
  retried_mentioned question consistency mentioned (some result) = do
    update (λ state. record state { active_contract = some mentioned })
    respond result mentioned

  -- `if mentioned and mentioned != state.active_contract:`
  unfoldable pub try_mentioned :
      String → ConsistencyReport f.Float → Option String → Ask AskResponse
  unfolding retried_mentioned answer_with_retry try_active
  try_mentioned question consistency none r =
      try_active question consistency r.session.active_contract r
  try_mentioned question consistency (some mentioned) r =
      if not (is_blank mentioned) && not (is_active mentioned r.session.active_contract)
      then (do
        update (λ state. record state { active_contract = none })
        result ← answer_with_retry question mentioned none
        retried_mentioned question consistency mentioned result)
          r
      else try_active question consistency r.session.active_contract r

  unfoldable pub handle_low_confidence : String → ConsistencyReport f.Float → Ask AskResponse
  unfolding try_mentioned
  handle_low_confidence question consistency r =
      try_mentioned question consistency
        (mentions_different_contract l.tables question s.all_identities r.session.active_contract) r

  unfoldable pub confident : String → Option GenerationResult → Ask AskResponse
  unfolding respond
  confident top_doc none = pure (low_relevance_of (some top_doc))
  confident top_doc (some result) = respond result top_doc

  -- A `top_contract` of `None` equals no document's id: the corpus is read, and no chunk is found.
  unfoldable pub generate_for : String → RetrievalContext f.Float → Option String → Ask AskResponse
  unfolding confident answer_with_retry
  generate_for question context none = do
    all_chunks ← λ u. reraise (audit generation_error) (on_layer l.get_all_chunks u)
    pure (low_relevance_of none)
  generate_for question context (some top_doc) = do
    result ←
        λ u. reraise (audit generation_error) (answer_with_retry question top_doc (some context) u)
    confident top_doc result

  unfoldable pub generate_and_verify : String → RetrievalContext f.Float → Ask AskResponse
  unfolding generate_for
  generate_and_verify question context =
      generate_for question context context.consistency.top_contract

  -- from `consistency = context.consistency` on
  unfoldable pub routed : String → RetrievalContext f.Float → Ask AskResponse
  unfolding generate_and_verify handle_low_confidence
  routed question context =
      if context.consistency.is_confident
      then (do
        update (λ state. record state {
          active_contract = context.consistency.top_contract;
          pending_question = none;
        })
        generate_and_verify question context)
      else handle_low_confidence question context.consistency

  unfoldable pub fresh_question : String → Ask AskResponse
  unfolding routed
  fresh_question question = do
    context ← on_layer (l.full_context_fn question)
    routed question context

  -- `if state.pending_question and …`
  unfoldable pub ask_with : String → Option String → Ask AskResponse
  unfolding fresh_question resolve_pending_selection
  ask_with question none = fresh_question question
  ask_with question (some pending) =
      if not (is_blank pending) && looks_like_contract_selection l.tables question
      then resolve_pending_selection question pending
      else fresh_question question

  unfoldable pub ask : String → Ask AskResponse
  unfolding ask_with
  ask question r = ask_with question r.session.pending_question r
