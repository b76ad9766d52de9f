-- ===== src/Verify/Loop.antt =====
-- The loop over the attempts of one claim.
use audit_flow_ai.Base.{
  ℕ, zero, suc, ◌+◌, ◌≤◌, String, ◌≡◌, refl, inl, inr, Option, some, List, ◌∷◌, arith,
}
use audit_flow_ai.Attempt.{outcome, Outcome-cases, outcome-eq-judged, outcome-ne-fault, IsLegible}
use audit_flow_ai.Exec.{ok}
use audit_flow_ai.Schemas.Errors.{Raised}
use audit_flow_ai.Schemas.Generation.{Claim}
use audit_flow_ai.Schemas.Verification.{VerifiedClaim, JudgeVerdict, unsupported}
use audit_flow_ai.Verify.{Judge, parse, judge_loop, failed_verdict, verified}

-- The judge, asked `text` at some moment, gave a reply that reads as `j`.
pub record Replied (m : Judge) (text : String) (j : JudgeVerdict) : Type 0 where
  pub before : m.World
  pub raw : String
  pub rest : List (Option String)
  pub reply : (m.complete text before).0 ≡ ok (some raw ∷ rest)
  pub reading : parse m raw ≡ ok j

-- A verdict on `claim` that is the judge's, or the failure of all attempts.
pub data Settled (m : Judge) (claim : Claim) (text : String) : VerifiedClaim → Type 0 where
  by_judge :
      {v : VerifiedClaim} (j : JudgeVerdict)
      → Replied m text j
      → v ≡ verified claim j
      → Settled m claim text v
  by_failure :
      {v : VerifiedClaim} (j : JudgeVerdict)
      → j.verdict ≡ unsupported
      → v ≡ verified claim j
      → Settled m claim text v

module _ (m : Judge) where
  module _ (claim : Claim) (text : String) where
    pub judge_loop-Settled :
        (n : ℕ) (last : Option Raised) (w : m.World) (v : VerifiedClaim)
        → (judge_loop m n claim text last w).0 ≡ ok v
        → Settled m claim text v
    unfolding judge_loop
    judge_loop-Settled zero last w v h = by_failure (failed_verdict m last) refl (ground arith)
    judge_loop-Settled (suc n) last w v h =
        elim (Outcome-cases (outcome (parse m) (m.complete text w).0)) [
          | inl (j, e) ↦
              let (raw, rest, reply, reading) = outcome-eq-judged (parse m) _ e in
              by_judge j
                (record { before = w; raw = raw; rest = rest; reply = reply; reading = reading })
                (ground arith)
          | inr (inl (x, e)) ↦ judge_loop-Settled n (some x) (m.complete text w).1 v (ground arith)
          | inr (inr (x, e)) ↦ absurd (ground arith)
        ]

  -- Every reply of the client can be read.
  abbrev pub AlwaysLegible : Type 0
  AlwaysLegible =
      (text : String) (w : m.World) (contents : List (Option String))
      → (m.complete text w).0 ≡ ok contents
      → IsLegible m.tables m.loads contents

  pub judge_loop_total :
      AlwaysLegible
      → (n : ℕ) (claim : Claim) (text : String) (last : Option Raised) (w : m.World)
      → (v : VerifiedClaim) × ((judge_loop m n claim text last w).0 ≡ ok v)
  unfolding judge_loop
  judge_loop_total solid zero claim text last w = (verified claim (failed_verdict m last), refl)
  judge_loop_total solid (suc n) claim text last w =
      elim (Outcome-cases (outcome (parse m) (m.complete text w).0)) [
        | inl (j, e) ↦ (verified claim j, ground arith)
        | inr (inl (x, e)) ↦
            let (v, h) = judge_loop_total solid n claim text (some x) (m.complete text w).1 in
            (v, ground arith)
        | inr (inr (x, e)) ↦
            absurd (outcome-ne-fault m.tables m.loads m.validate _ (solid text w) x e)
      ]

  -- `calls` counts the requests that the client has sent.
  abbrev pub Counts : (m.World → ℕ) → Type 0
  Counts calls = (text : String) (w : m.World) → calls (m.complete text w).1 ≡ calls w + 1

  pub judge_loop_calls :
      (calls : m.World → ℕ)
      → Counts calls
      → (n : ℕ) (claim : Claim) (text : String) (last : Option Raised) (w : m.World)
      → calls (judge_loop m n claim text last w).1 ≤ calls w + n
  unfolding judge_loop
  judge_loop_calls calls one zero claim text last w = omega arith
  judge_loop_calls calls one (suc n) claim text last w =
      elim (Outcome-cases (outcome (parse m) (m.complete text w).0)) [
        | inl (j, e) ↦ ground (arith, one text w)
        | inr (inl (x, e)) ↦ ground (
          arith,
          one text w,
          judge_loop_calls calls one n claim text (some x) (m.complete text w).1,
        )
        | inr (inr (x, e)) ↦ ground (arith, one text w)
      ]
