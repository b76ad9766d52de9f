-- ===== src/Tests/Judging.antt =====
-- Claims that are judged, and answers that are written.
use audit_flow_ai.Base.{
  ℕ, ◌≡◌, ◌≢◌, sym, some, ◌+◌, ◌≤◌, ◌⊎◌, refl, inl, inr, true, false, none, List, [], ◌∷◌, String,
  arith,
}
use audit_flow_ai.Base.Dict.{get}
use audit_flow_ai.Base.Text.{is_blank, strip, strip_left, strip_right, has_prefix, drop_as}
use audit_flow_ai.Exec.{ok, raised}
use audit_flow_ai.Attempt.{outcome}
use audit_flow_ai.Generate.{generation_prompt, format_context, generate_answer}
use audit_flow_ai.Generate.Attempts.{AlwaysLegible as Always, Wrote, generate_answer_ends}
use audit_flow_ai.JsonExtraction.{
  from_first, upto_last, brace_span, unfence, extract_text, parse_llm_json,
}
use audit_flow_ai.JsonExtraction.Spans.{KeepsBraces, extract_text-IsSpan}
use audit_flow_ai.Schemas.Errors.{audit, verification_error, generation_error}
use audit_flow_ai.Schemas.Generation.{GenerationResult}
use audit_flow_ai.Schemas.Verification.{VerifiedClaim, no_answer}
use audit_flow_ai.Verify.{
  declined, source_text, pre_llm_verdict, verified, ask_judge, judge_loop, verify_claim, gather,
  verify_all_claims,
}
use audit_flow_ai.Verify.Loop.{AlwaysLegible}
use audit_flow_ai.Verify.Claims.{Cites, verify_claim_calls}
use audit_flow_ai.Verify.Batch.{
  AllChecked, verify_all_claims-AllChecked, verify_all_claims_total, verify_all_claims_null,
}
use audit_flow_ai.Tests.Fixtures.{
  claim, unsourced, judge, silent, lookup, support, reply, ascii, writer, context,
}

cited : Cites lookup claim
unfolding get
cited = record { chunk_id = "a-1"; source = "a fee of 5"; cited = refl; found = refl }

claim_filled : is_blank claim.text ≡ false
unfolding is_blank
claim_filled = refl

-- The judge fails once, and its second reply counts.
batch_runs :
    (verify_all_claims judge (unsourced ∷ claim ∷ []) lookup 0).0
    ≡ ok (
        verified unsourced (record { verdict = no_answer; reason = declined })
        ∷ verified claim support
        ∷ [])
unfolding verify_all_claims gather verify_claim pre_llm_verdict ask_judge source_text judge_loop
    outcome get is_blank parse_llm_json extract_text brace_span unfence from_first upto_last strip
    strip_left strip_right has_prefix
batch_runs = refl

verify_all_claims-AllChecked_example : AllChecked judge lookup (unsourced ∷ claim ∷ []) (
    verified unsourced (record { verdict = no_answer; reason = declined })
    ∷ verified claim support
    ∷ [])
verify_all_claims-AllChecked_example =
    verify_all_claims-AllChecked judge lookup (unsourced ∷ claim ∷ []) 0 _ batch_runs

-- All replies are the same, and the parser takes any text.
judge_speaks : AlwaysLegible judge
judge_speaks text n contents h =
    let same : some reply ∷ [] ≡ contents = ground arith in
    record { raw = reply; rest = []; content = sym same; decodes = λ e f. absurd (ground arith) }

verify_all_claims_total_example :
    (vs : List VerifiedClaim) × ((verify_all_claims judge (unsourced ∷ claim ∷ []) lookup 0).0
      ≡ ok vs)
verify_all_claims_total_example =
    verify_all_claims_total judge lookup judge_speaks (unsourced ∷ claim ∷ []) 0

verify_all_claims_null_example :
    (verify_all_claims silent (unsourced ∷ claim ∷ []) lookup 0).0
    ≡ raised (audit verification_error)
verify_all_claims_null_example =
    verify_all_claims_null silent lookup (unsourced ∷ claim ∷ []) claim 0 (inr (inl refl))
      claim_filled cited (λ u. (none ∷ [], refl, tt))

verify_claim_calls_example :
    ((verify_claim judge 2 claim lookup 0).1 ≤ 0 + 3)
    × (pre_llm_verdict claim lookup ≢ none → (verify_claim judge 2 claim lookup 0).1 ≡ 0)
verify_claim_calls_example = verify_claim_calls judge 2 claim lookup (λ n. n) (λ text n. refl) 0

writer_speaks : Always writer
writer_speaks text n contents h =
    let same : some reply ∷ [] ≡ contents = ground arith in
    record { raw = reply; rest = []; content = sym same; decodes = λ e f. absurd (ground arith) }

generate_answer_ends_example :
    let (r, n) = generate_answer writer 2 "which fee?" context.chunks 0 in
    ((result : GenerationResult) × (r ≡ ok result)
      × Wrote writer (generation_prompt (format_context context.chunks) "which fee?") result
      × (n ≤ 0 + 3))
    ⊎ ((r ≡ raised (audit generation_error)) × (n ≡ 0 + 3))
generate_answer_ends_example =
    generate_answer_ends writer 2 "which fee?" context.chunks writer_speaks (λ n. n)
      (λ text n. refl) 0

-- A prefix without the character does not hide its first place.
from_first-drop_as :
    (k : ℕ) (s t : String)
    → has_prefix s t ≡ true
    → from_first k t ≡ none
    → from_first k (drop_as s t) ≡ from_first k s
unfolding from_first has_prefix drop_as
from_first-drop_as k String.[] String.[] h e = refl
from_first-drop_as k (String.◌∷◌ c s) String.[] h e = refl
from_first-drop_as k String.[] (String.◌∷◌ d t) h e = cc
from_first-drop_as k (String.◌∷◌ c s) (String.◌∷◌ d t) h e =
    ground (arith, from_first-drop_as k s t)

ascii-KeepsBraces : KeepsBraces ascii
unfolding from_first
ascii-KeepsBraces = record {
  open_brace = refl;
  close_brace = refl;
  json_word = λ s h. from_first-drop_as b'{' s "json" h refl;
}

extract_text-IsSpan_example : extract_text ascii "```json {a {b}} ```" ≡ "{a {b}}"
unfolding from_first upto_last
extract_text-IsSpan_example =
    extract_text-IsSpan ascii ascii-KeepsBraces "```json {a {b}} ```" "{a {b}}"
      (record { tail = "{a {b}} ```"; first = refl; last = refl })
