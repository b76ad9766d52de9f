-- ===== src/Schemas/Floats.antt =====
-- Python's `float`, as the operations that the program uses. `decimal m k` is the literal m · 10⁻ᵏ.
use audit_flow_ai.Base.{ℕ, Bool}

pub record Floats : Type 1 where
  pub Float : Type 0
  pub add : Float → Float → Float
  pub sub : Float → Float → Float
  pub div : Float → Float → Float
  pub neg : Float → Float
  pub decimal : ℕ → ℕ → Float
  pub neg_infinity : Float
  -- `a <= b` and `a < b`
  pub leb : Float → Float → Bool
  pub ltb : Float → Float → Bool
