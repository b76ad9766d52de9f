-- ===== src/Schemas/Verification.antt =====
-- schemas/verification.py
use audit_flow_ai.Base.{String, Option}

pub data Verdict : Type 0 where
  supported : Verdict
  partial : Verdict
  unsupported : Verdict
  no_answer : Verdict

pub Verdict-discrete : Discrete Verdict
Verdict-discrete = hlevel

-- `VERDICT_BADGE`
unfoldable pub verdict_badge : Verdict → String
verdict_badge supported = "[OK]"
verdict_badge partial = "[?]"
verdict_badge unsupported = "[X]"
verdict_badge no_answer = "[-]"

-- the value of the enum, which is what goes into the history
unfoldable pub verdict_value : Verdict → String
verdict_value supported = "SUPPORTED"
verdict_value partial = "PARTIAL"
verdict_value unsupported = "UNSUPPORTED"
verdict_value no_answer = "NO_ANSWER"

pub record VerifiedClaim : Type 0 where
  pub text : String
  pub source_chunk_id : Option String
  pub verdict : Verdict
  pub reason : String

pub record JudgeVerdict : Type 0 where
  pub verdict : Verdict
  pub reason : String

-- `VerifiedClaim.badge`
unfoldable pub badge : VerifiedClaim → String
unfolding verdict_badge
badge c = verdict_badge c.verdict
