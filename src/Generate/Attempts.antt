-- ===== src/Generate/Attempts.antt =====
-- How a generation ends.
use audit_flow_ai.Base.{
  ℕ, zero, suc, ◌+◌, ◌≤◌, String, ◌≡◌, refl, ◌⊎◌, inl, inr, Option, some, List, ◌∷◌, arith,
}
use audit_flow_ai.Attempt.{outcome, Outcome-cases, outcome-eq-judged, outcome-ne-fault, IsLegible}
use audit_flow_ai.Exec.{ok, raised}
use audit_flow_ai.Schemas.Errors.{audit, generation_error}
use audit_flow_ai.Schemas.Generation.{GenerationResult}
use audit_flow_ai.Schemas.Retrieval.{ChunkMatch}
use audit_flow_ai.Generate.{
  Generator, parse, generate_loop, generate_answer, generation_prompt, format_context,
}

-- The model, given `text` at some moment, gave a reply that reads as `result`.
pub record Wrote (g : Generator) (text : String) (result : GenerationResult) : Type 0 where
  pub before : g.World
  pub raw : String
  pub rest : List (Option String)
  pub reply : (g.complete text before).0 ≡ ok (some raw ∷ rest)
  pub reading : parse g raw ≡ ok result

-- `calls` counts the requests that the client has sent.
abbrev pub Counts : (g : Generator) → (g.World → ℕ) → Type 0
Counts g calls = (text : String) (w : g.World) → calls (g.complete text w).1 ≡ calls w + 1

-- Every reply of the client can be read.
abbrev pub AlwaysLegible : Generator → Type 0
AlwaysLegible g =
    (text : String) (w : g.World) (contents : List (Option String))
    → (g.complete text w).0 ≡ ok contents
    → IsLegible g.tables g.loads contents

module _ (g : Generator) (text : String) where
  -- It ends with what the model wrote, or with `GenerationError` and all attempts used.
  generate_loop_ends :
      AlwaysLegible g
      → (calls : g.World → ℕ) → Counts g calls
      → (n : ℕ) (w : g.World)
      → ((result : GenerationResult) × ((generate_loop g n text w).0 ≡ ok result)
          × Wrote g text result
          × (calls (generate_loop g n text w).1 ≤ calls w + n))
        ⊎ (((generate_loop g n text w).0 ≡ raised (audit generation_error))
            × (calls (generate_loop g n text w).1 ≡ calls w + n))
  unfolding generate_loop
  generate_loop_ends solid calls one zero w = inr (refl, omega arith)
  generate_loop_ends solid calls one (suc n) w =
      elim (Outcome-cases (outcome (parse g) (g.complete text w).0)) [
        | inl (result, e) ↦
            let (raw, rest, reply, reading) = outcome-eq-judged (parse g) _ e in
            inl (
              result,
              ground arith,
              record { before = w; raw = raw; rest = rest; reply = reply; reading = reading },
              ground (arith, one text w),
            )
        | inr (inl (x, e)) ↦ elim (generate_loop_ends solid calls one n (g.complete text w).1) [
          | inl (result, done, wrote, few) ↦
              inl (result, ground arith, wrote, ground (arith, one text w))
          | inr (failed, all) ↦ inr (ground arith, ground (arith, one text w))
        ]
        | inr (inr (x, e)) ↦
            absurd (outcome-ne-fault g.tables g.loads g.validate _ (solid text w) x e)
      ]

module _ (g : Generator) {Float : Type 0} where
  -- Where every reply of the client has a content, not null, on which `json.loads` raises nothing but
  -- `JSONDecodeError`, a generation ends in one of two ways: with a reply of the model to this question
  -- over these chunks, read as it was sent, after at most `max_retries + 1` requests; or with
  -- `GenerationError` after exactly that many.
  pub generate_answer_ends :
      (k : ℕ) (question : String) (chunks : List (ChunkMatch Float))
      → AlwaysLegible g
      → (calls : g.World → ℕ) → Counts g calls
      → (w : g.World)
      → let (r, w') = generate_answer g k question chunks w in
        ((result : GenerationResult) × (r ≡ ok result)
          × Wrote g (generation_prompt (format_context chunks) question) result
          × (calls w' ≤ calls w + suc k))
        ⊎ ((r ≡ raised (audit generation_error)) × (calls w' ≡ calls w + suc k))
  unfolding generate_answer
  generate_answer_ends k question chunks solid calls one w =
      generate_loop_ends g _ solid calls one (suc k) w
