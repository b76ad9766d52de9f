-- ===== src/Verify/Claims.antt =====
-- One claim: `verify_claim`.
use audit_flow_ai.Base.{
  ℕ, suc, ◌+◌, ◌≤◌, String, ◌≡◌, ◌≢◌, refl, sym, ap, ◌∙◌, ◌⊎◌, inl, inr, false, Option, none, some,
  List, arith, Bool-cases, Option-cases,
}
use audit_flow_ai.Base.Dict.{Dict, get}
use audit_flow_ai.Base.Text.{is_blank}
use audit_flow_ai.Attempt.{NoContent, outcome_NoContent}
use audit_flow_ai.Exec.{Result, ok, raised}
use audit_flow_ai.Schemas.Errors.{other}
use audit_flow_ai.Schemas.Generation.{Claim}
use audit_flow_ai.Schemas.Verification.{
  VerifiedClaim, JudgeVerdict, supported, partial, unsupported, no_answer,
}
use audit_flow_ai.Verify.{
  Judge, parse, prompt, pre_llm_verdict, source_text, verify_claim, ask_judge, judge_loop, verified,
  no_text, missing, declined,
}
use audit_flow_ai.Verify.Loop.{
  Replied, Settled, by_judge, by_failure, judge_loop-Settled, AlwaysLegible, judge_loop_total,
  Counts, judge_loop_calls,
}

-- The claim cites the chunk `chunk_id` of the corpus, whose text is `source`.
pub record Cites (lookup : Dict String) (claim : Claim) : Type 0 where
  pub chunk_id : String
  pub source : String
  pub cited : claim.source_chunk_id ≡ some chunk_id
  pub found : get chunk_id lookup ≡ some source

-- The pre-checks settle a claim with a verdict that does not speak for it, or send it on.
Triage-cases :
    (claim : Claim) (lookup : Dict String)
    → ((j : JudgeVerdict) × (pre_llm_verdict claim lookup ≡ some (verified claim j))
        × ((j.verdict ≡ unsupported) ⊎ (j.verdict ≡ no_answer)))
      ⊎ ((pre_llm_verdict claim lookup ≡ none) × (is_blank claim.text ≡ false) × Cites lookup claim)
unfolding pre_llm_verdict
Triage-cases claim lookup = elim (Bool-cases (is_blank claim.text)) [
  | inl blank ↦ inl (record { verdict = unsupported; reason = no_text }, ground arith, inl refl)
  | inr filled ↦ elim (Option-cases claim.source_chunk_id) [
    | inl e ↦ inl (record { verdict = no_answer; reason = declined }, ground arith, inr refl)
    | inr (chunk_id, e) ↦ elim (Option-cases (get chunk_id lookup)) [
      | inl f ↦ inl (record { verdict = unsupported; reason = missing }, ground arith, inl refl)
      | inr (source, f) ↦ inr (
        ground arith,
        filled,
        record { chunk_id = chunk_id; source = source; cited = e; found = f },
      )
    ]
  ]
]

Cites-pre_llm_verdict :
    (claim : Claim) (lookup : Dict String)
    → is_blank claim.text ≡ false
    → Cites lookup claim
    → pre_llm_verdict claim lookup ≡ none
unfolding pre_llm_verdict
Cites-pre_llm_verdict claim lookup filled c = rw (filled, c.cited, c.found)

-- `v` is `claim` with a verdict; and a verdict that speaks for the claim was given by the judge,
-- on the text of the chunk that the claim cites.
pub record Checked (m : Judge) (lookup : Dict String) (claim : Claim) (v : VerifiedClaim)
    : Type 0 where
  pub same_text : v.text ≡ claim.text
  pub same_source : v.source_chunk_id ≡ claim.source_chunk_id
  pub evidence :
      (v.verdict ≡ supported) ⊎ (v.verdict ≡ partial)
      → (c : Cites lookup claim) × Replied m
          (prompt c.source claim.text)
          (record { verdict = v.verdict; reason = v.reason })

source_text-Cites :
    (claim : Claim) (lookup : Dict String) (c : Cites lookup claim)
    → source_text claim lookup ≡ ok c.source
unfolding source_text
source_text-Cites claim lookup c = ground (arith, c.cited, c.found)

module _ (m : Judge) (k : ℕ) (claim : Claim) (lookup : Dict String) where
  -- A claim that is sent on runs the loop on the text of the chunk that it cites.
  verify_claim-judge_loop :
      is_blank claim.text ≡ false
      → (c : Cites lookup claim) (w : m.World)
      → verify_claim m k claim lookup w
        ≡ judge_loop m (suc k) claim (prompt c.source claim.text) none w
  verify_claim-judge_loop filled c w =
      unfold verify_claim in
      rw (Cites-pre_llm_verdict claim lookup filled c, verify_claim)
        (rw (source_text-Cites claim lookup c, ask_judge))

  verify_claim-settled :
      (j : JudgeVerdict)
      → pre_llm_verdict claim lookup ≡ some (verified claim j)
      → (w : m.World) → verify_claim m k claim lookup w ≡ (ok (verified claim j), w)
  unfolding verify_claim
  verify_claim-settled j e w = rw (e, verify_claim)

  Settled-Checked :
      (c : Cites lookup claim) (v : VerifiedClaim)
      → Settled m claim (prompt c.source claim.text) v
      → Checked m lookup claim v
  Settled-Checked c v (by_judge j r e) = record {
    same_text = ground arith;
    same_source = ground arith;
    evidence = λ _. (c, rw e r);
  }
  Settled-Checked c v (by_failure j bad e) = record {
    same_text = ground arith;
    same_source = ground arith;
    evidence = λ good. absurd (ground arith);
  }

  -- Whatever `verify_claim` returns is the claim itself with a verdict, and a verdict of SUPPORTED
  -- or PARTIAL was given by the judge on the text of the chunk that the claim cites.
  pub verify_claim-Checked :
      (w : m.World) (v : VerifiedClaim)
      → (verify_claim m k claim lookup w).0 ≡ ok v
      → Checked m lookup claim v
  verify_claim-Checked w v h = elim (Triage-cases claim lookup) [
    | inl (j, e, bad) ↦
        let settled : ok (verified claim j) ≡ ok v =
          ap (λ (p : Result VerifiedClaim × m.World). p.0) (sym (verify_claim-settled j e w)) ∙ h in
        record {
          same_text = ground arith;
          same_source = ground arith;
          evidence = λ good. absurd (ground arith);
        }
    | inr (e, filled, c) ↦ Settled-Checked c v (
        judge_loop-Settled m claim _ (suc k) none w v
          (rw (verify_claim-judge_loop filled c w) at h))
  ]

  -- Where every reply of the judge can be read, a claim gets a verdict, whatever calls fail.
  pub verify_claim_total :
      AlwaysLegible m
      → (w : m.World) → (v : VerifiedClaim) × ((verify_claim m k claim lookup w).0 ≡ ok v)
  verify_claim_total solid w = elim (Triage-cases claim lookup) [
    | inl (j, e, _) ↦ (verified claim j, rw (verify_claim-settled j e w))
    | inr (e, filled, c) ↦
        rw (verify_claim-judge_loop filled c w) (judge_loop_total m solid (suc k) claim _ none w)
  ]

  -- The judge is asked at most `max_retries + 1` times, and not at all for a claim that the
  -- pre-checks settle.
  pub verify_claim_calls :
      (calls : m.World → ℕ)
      → Counts m calls
      → (w : m.World)
      → (calls (verify_claim m k claim lookup w).1 ≤ calls w + suc k)
        × (pre_llm_verdict claim lookup ≢ none
            → calls (verify_claim m k claim lookup w).1 ≡ calls w)
  verify_claim_calls calls one w = elim (Triage-cases claim lookup) [
    | inl (j, e, _) ↦ rw (verify_claim-settled j e w) (omega arith, λ _. refl)
    | inr (e, filled, c) ↦
        rw (verify_claim-judge_loop filled c w)
          (judge_loop_calls m calls one (suc k) claim _ none w, λ settled. absurd (settled e))
  ]

  -- A reply without a content for a claim that reaches the judge raises, past the retries.
  pub verify_claim_null :
      is_blank claim.text ≡ false
      → (c : Cites lookup claim) (w : m.World) (contents : List (Option String))
      → (m.complete (prompt c.source claim.text) w).0 ≡ ok contents
      → NoContent contents
      → (verify_claim m k claim lookup w).0 ≡ raised other
  unfolding judge_loop
  verify_claim_null filled c w contents reply nothing =
      rw (verify_claim-judge_loop filled c w)
        (rw (reply, judge_loop, outcome_NoContent (parse m) contents nothing) refl)
