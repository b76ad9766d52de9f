-- ===== src/Verify.antt =====
-- src/auditflow/verification/verify.py: every claim is checked against the text of the chunk that
-- it cites. The judge is a model behind an API, with a state `World` of its own: a call may raise,
-- and its reply may have no content, or a null one. The coroutines of a batch meet only in the judge;
-- the batch is modelled by one schedule of them, in the order of the claims.
pub mod Loop
pub mod Claims
pub mod Batch
use audit_flow_ai.Base.{
  ℕ, zero, suc, String, ◌<>◌, Option, none, some, List, [], ◌∷◌, if◌then◌else◌,
}
use audit_flow_ai.Base.Dict.{Dict, get, put}
use audit_flow_ai.Base.Text.{Tables, is_blank}
use audit_flow_ai.Exec.{Result, ok, raised, Exec, ◌>>=◌, pure, raise, reraise}
use audit_flow_ai.Attempt.{judged, retry, fault, outcome}
use audit_flow_ai.JsonExtraction.{parse_llm_json}
use audit_flow_ai.Schemas.Errors.{Raised, audit, other, verification_error}
use audit_flow_ai.Schemas.Generation.{Claim}
use audit_flow_ai.Schemas.Retrieval.{ChunkRecord}
use audit_flow_ai.Schemas.Verification.{VerifiedClaim, JudgeVerdict, unsupported, no_answer}

fill_lookup : Dict String → List ChunkRecord → Dict String
fill_lookup d [] = d
fill_lookup d (c ∷ chunks) = fill_lookup (put c.chunk_id c.raw_chunk_text d) chunks

unfoldable pub build_chunk_lookup : List ChunkRecord → Dict String
unfolding fill_lookup
build_chunk_lookup chunks = fill_lookup [] chunks

-- `VerifiedClaim(text=claim.text, source_chunk_id=claim.source_chunk_id, …)`
abbrev pub verified : Claim → JudgeVerdict → VerifiedClaim
verified claim j = record {
  text = claim.text;
  source_chunk_id = claim.source_chunk_id;
  verdict = j.verdict;
  reason = j.reason;
}

abbrev no_text : String
no_text = "Claim has no text content."

abbrev missing : String
missing = "Cited source_chunk_id not found in corpus."

abbrev pub declined : String
declined = "Model indicated the excerpts don't contain enough information to answer."

abbrev cited_verdict : Claim → Option String → Option VerifiedClaim
cited_verdict claim none =
    some (verified claim (record { verdict = unsupported; reason = missing }))
cited_verdict claim (some source_text) = none

abbrev source_verdict : Claim → Dict String → Option String → Option VerifiedClaim
source_verdict claim lookup none =
    some (verified claim (record { verdict = no_answer; reason = declined }))
source_verdict claim lookup (some chunk_id) = cited_verdict claim (get chunk_id lookup)

-- `_pre_llm_verdict`: the verdicts that need no judge
unfoldable pub pre_llm_verdict : Claim → Dict String → Option VerifiedClaim
unfolding is_blank
pre_llm_verdict claim lookup =
    if is_blank claim.text
    then some (verified claim (record { verdict = unsupported; reason = no_text }))
    else source_verdict claim lookup claim.source_chunk_id

-- `chunk_lookup[claim.source_chunk_id]`, which raises `KeyError` on a missing key
unfoldable pub source_text : Claim → Dict String → Result String
source_text claim lookup = elim claim.source_chunk_id [
  | none ↦ raised other
  | some chunk_id ↦ elim (get chunk_id lookup) [ none ↦ raised other | some s ↦ ok s ]
]

-- `PROMPT.format(source_text=…, claim_text=…)`
unfoldable pub prompt : String → String → String
prompt source claim_text =
    "You are a strict fact-checker reviewing whether a claim is supported by a source text.\n \nSource text:\n\""
    <> source <> "\"\n \nClaim:\n\"" <> claim_text
    <> "\"\n \nQuestion: Does the source text fully support the claim? Check carefully:\n- Are all conditions, dates, amounts, and qualifiers in the claim actually present in the source?\n- Does the source explicitly say this, or does the claim add/assume something not stated?\n- A claim that drops a qualifier (e.g. a date range, a condition, a party name) present in the source is only PARTIAL, not SUPPORTED.\n \nRespond with ONLY valid JSON, no other text, no markdown fences:\n{\"verdict\": \"SUPPORTED\" | \"PARTIAL\" | \"UNSUPPORTED\", \"reason\": \"one sentence explanation\"}"

-- What the module takes from other packages: the client's call on a prompt, the JSON reader, the
-- validation into `JudgeVerdict`, and the text of the last exception.
pub record Judge : Type 1 where
  pub World : Type 0
  pub complete : String → Exec World (List (Option String))
  pub tables : Tables
  pub Json : Type 0
  pub loads : String → Result Json
  pub validate : Json → Option JudgeVerdict
  pub str_error : Option Raised → String

module _ (m : Judge) where
  abbrev pub parse : String → Result JudgeVerdict
  parse raw = parse_llm_json m.tables m.loads m.validate raw

  unfoldable pub failed_verdict : Option Raised → JudgeVerdict
  failed_verdict last_error = record {
    verdict = unsupported;
    reason = "Judge failed to respond validly: " <> m.str_error last_error;
  }

  -- `for attempt in range(…)`, by the number of attempts left
  unfoldable pub judge_loop : ℕ → Claim → String → Option Raised → Exec m.World VerifiedClaim
  unfolding failed_verdict
  judge_loop zero claim text last_error w = (ok (verified claim (failed_verdict last_error)), w)
  judge_loop (suc n) claim text last_error w =
      let (r, w') = m.complete text w in
      elim (outcome parse r) [
        | judged j ↦ (ok (verified claim j), w')
        | retry e ↦ judge_loop n claim text (some e) w'
        | fault e ↦ (raised e, w')
      ]

  unfoldable pub ask_judge : ℕ → Claim → Result String → Exec m.World VerifiedClaim
  ask_judge max_retries claim (raised e) w = (raised e, w)
  ask_judge max_retries claim (ok source) w =
      judge_loop (suc max_retries) claim (prompt source claim.text) none w

  -- `verify_claim`, and `verify_claim_async` once it holds the semaphore
  unfoldable pub verify_claim : ℕ → Claim → Dict String → Exec m.World VerifiedClaim
  unfolding ask_judge source_text
  verify_claim max_retries claim lookup = elim (pre_llm_verdict claim lookup) [
    | some v ↦ pure v
    | none ↦ ask_judge max_retries claim (source_text claim lookup)
  ]

  -- `_verify_all_claims_async`: `gather` gives the results in the order of the claims, or the first
  -- exception. `max_retries` has its default, 2.
  unfoldable pub gather : List Claim → Dict String → Exec m.World (List VerifiedClaim)
  gather [] lookup = pure []
  gather (c ∷ claims) lookup = do
    v ← verify_claim 2 c lookup
    vs ← gather claims lookup
    pure (v ∷ vs)

  unfoldable pub verify_all_claims : List Claim → Dict String → Exec m.World (List VerifiedClaim)
  verify_all_claims [] lookup w = (ok [], w)
  verify_all_claims (c ∷ claims) lookup w =
      reraise (audit verification_error) (gather (c ∷ claims) lookup w)
