-- ===== src/Schemas/Generation.antt =====
-- schemas/generation.py
use audit_flow_ai.Base.{String, Option, List}

pub record Claim : Type 0 where
  pub text : String
  pub source_chunk_id : Option String

pub record GenerationResult : Type 0 where
  pub claims : List Claim
  pub raw_answer : Option String
