-- ===== src/Generate.antt =====
-- src/auditflow/generation/generate.py and generate_groq.py: an answer as source-tagged claims, from
-- a model behind an API. The two modules differ in the client and in the prompt.
pub mod Attempts
use audit_flow_ai.Base.{ℕ, zero, suc, String, ◌<>◌, Option, List, [], ◌∷◌, map}
use audit_flow_ai.Base.Text.{Tables}
use audit_flow_ai.Attempt.{judged, retry, fault, outcome}
use audit_flow_ai.Exec.{Result, ok, raised, Exec}
use audit_flow_ai.JsonExtraction.{parse_llm_json}
use audit_flow_ai.Schemas.Errors.{audit, generation_error}
use audit_flow_ai.Schemas.Generation.{GenerationResult}
use audit_flow_ai.Schemas.Retrieval.{ChunkMatch}

-- `sep.join(blocks)`
unfoldable pub join : String → List String → String
join sep [] = ""
join sep (b ∷ []) = b
join sep (b ∷ c ∷ blocks) = b <> sep <> join sep (c ∷ blocks)

module _ {Float : Type 0} where
  unfoldable pub block : ChunkMatch Float → String
  block chunk = "[chunk_id: " <> chunk.chunk_id <> "]\n" <> chunk.raw_chunk_text

  unfoldable pub format_context : List (ChunkMatch Float) → String
  unfolding join block
  format_context chunks = join "\n\n---\n\n" (map block chunks)

-- `GENERATION_PROMPT.format(context=…, question=…)` of generate.py
unfoldable pub generation_prompt : String → String → String
generation_prompt context question =
    "You are answering a question using ONLY the provided contract excerpts below.\n\nRules:\n- Break your answer into separate, atomic factual claims (one fact per claim)\n- Each claim must be tagged with the exact chunk_id it came from\n- Do NOT combine information from multiple chunks into a single claim\n- Do NOT add any information not explicitly present in the excerpts\n- If the excerpts don't contain enough information to answer the question,\n  return exactly ONE claim where:\n    - \"text\" is a real sentence explaining what's missing, e.g.\n      \"The provided excerpts do not contain a general description of this company.\"\n    - \"source_chunk_id\" is null\n- If a clause defines a term by referring to another part of the document \n  (e.g. \"the date first written above\", \"as set forth in Section X\"), \n  do NOT use that cross-reference as your answer. Instead, look for the \n  actual concrete value (the real date, name, or number) elsewhere in \n  the provided excerpts, and cite THAT chunk instead.\n- Only return a cross-reference phrase as your answer if no concrete \n  value is available anywhere in the provided excerpts.\nNEVER set \"text\" to null. \"text\" must always be a real, non-empty string.\n\n\nExcerpts:\n"
    <> context <> "\n\nQuestion: " <> question
    <> "\n\nRespond with ONLY valid JSON in this exact format, no other text, no markdown fences:\n{\n  \"claims\": [\n    {\"text\": \"...\", \"source_chunk_id\": \"...\"}\n  ]\n}"

-- `GENERATION_PROMPT.format(context=…, question=…)` of generate_groq.py
unfoldable pub generation_prompt_groq : String → String → String
generation_prompt_groq context question =
    "You are answering a question using ONLY the provided contract excerpts below.\n\nRules:\n- Break your answer into separate, atomic factual claims (one fact per claim)\n- Each claim must be tagged with the exact chunk_id it came from\n- Do NOT combine information from multiple chunks into a single claim\n- Do NOT add any information not explicitly present in the excerpts\n- If the excerpts don't contain enough information to answer the question,\n  return exactly ONE claim where:\n    - \"text\" is a real sentence explaining what's missing, e.g.\n      \"The provided excerpts do not contain a general description of this company.\"\n    - \"source_chunk_id\" is null\n  NEVER set \"text\" to null. \"text\" must always be a real, non-empty string.\n\nExcerpts:\n"
    <> context <> "\n\nQuestion: " <> question
    <> "\n\nRespond with ONLY valid JSON in this exact format, no other text, no markdown fences:\n{\n  \"claims\": [\n    {\"text\": \"...\", \"source_chunk_id\": \"...\"}\n  ]\n}"

-- What the modules take from other packages: the client's call on a prompt, the JSON reader, and the
-- validation into `GenerationResult`.
pub record Generator : Type 1 where
  pub World : Type 0
  pub complete : String → Exec World (List (Option String))
  pub tables : Tables
  pub Json : Type 0
  pub loads : String → Result Json
  pub validate : Json → Option GenerationResult

module _ (g : Generator) where
  abbrev pub parse : String → Result GenerationResult
  parse raw = parse_llm_json g.tables g.loads g.validate raw

  -- `for attempt in range(…)`, by the number of attempts left, and the `raise` behind it
  unfoldable pub generate_loop : ℕ → String → Exec g.World GenerationResult
  generate_loop zero text w = (raised (audit generation_error), w)
  generate_loop (suc n) text w =
      let (r, w') = g.complete text w in
      elim (outcome parse r) [
        | judged result ↦ (ok result, w')
        | retry e ↦ generate_loop n text w'
        | fault e ↦ (raised e, w')
      ]

  module _ {Float : Type 0} (max_retries : ℕ) (question : String)
      (chunks : List (ChunkMatch Float)) where
    unfoldable pub generate_answer : Exec g.World GenerationResult
    generate_answer =
        generate_loop (suc max_retries) (generation_prompt (format_context chunks) question)

    unfoldable pub generate_answer_groq : Exec g.World GenerationResult
    generate_answer_groq =
        generate_loop (suc max_retries) (generation_prompt_groq (format_context chunks) question)
