-- ===== src/Retry.antt =====
-- src/auditflow/orchestration/retry_layer.py: retrieval scoped to one document, and one retry with a
-- reformulated query. `generate_fn` and `full_context_fn` are arguments in the source too;
-- `get_all_chunks` reads the loaded corpus.
pub mod Words
pub mod Scoped
pub mod Bounded
use Prim.Native.Char.{code}
use mathlib.Core.Bool.{xor}
use audit_flow_ai.Base.{
  ℕ, String, Bool, true, false, not, ◌&&◌, ◌||◌, Option, none, some, List, [], ◌∷◌, ◌++◌, ◌==◌, any,
  select, take, is_none, if◌then◌else◌,
}
use audit_flow_ai.Base.Text.{Tables, has_prefix, drop_as}
use audit_flow_ai.Exec.{Result, ok, raised, Exec, ◌>>=◌, pure, reraise}
use audit_flow_ai.Schemas.Errors.{audit, retrieval_error}
use audit_flow_ai.Schemas.Floats.{Floats}
use audit_flow_ai.Schemas.Generation.{Claim, GenerationResult}
use audit_flow_ai.Schemas.Retrieval.{ChunkRecord, ChunkMatch, ConsistencyReport, RetrievalContext}

-- `REFORMULATION_TEMPLATE`, in its order
unfoldable pub reformulation_template : List (String × String)
reformulation_template =
    ("effective date", "dated as of")
    ∷ ("agreement date", "made this day of")
    ∷ ("end date", "shall expire on")
    ∷ ("expiration date", "shall expire on")
    ∷ ("expiry date", "shall expire on")
    ∷ ("term of this agreement", "shall continue for a period of")
    ∷ ("how long does this agreement last", "shall continue for a period of")
    ∷ ("when does this agreement end", "shall expire on")
    ∷ ("when does this agreement expire", "shall expire on")
    ∷ ("signed", "made and entered into as of")
    ∷ ("parties", "by and between")
    ∷ ("governing law", "governed by and construed in accordance with the laws of")
    ∷ ("jurisdiction", "governed by and construed in accordance with the laws of")
    ∷ ("termination", "may terminate this agreement")
    ∷ ("expiration", "shall expire on")
    ∷ ("renewal", "shall automatically renew")
    ∷ []

module _ (t : Tables) where
  -- whether the text begins with a word character
  unfoldable pub first_word : String → Bool
  first_word String.[] = false
  first_word (String.◌∷◌ c s) = t.is_word (code c)

  -- whether the last character is a word character; `before` in an empty text
  unfoldable pub last_word : Bool → String → Bool
  last_word before String.[] = before
  last_word before (String.◌∷◌ c s) = last_word (t.is_word (code c)) s

  -- `\b`: a word character on exactly one side. The pattern matches at the head of the text.
  unfoldable pub matches_at : Bool → String → String → Bool
  unfolding first_word last_word has_prefix drop_as
  matches_at before trigger text =
      has_prefix text trigger
      && (xor before (first_word text)
          && xor (last_word before trigger) (first_word (drop_as text trigger)))

  unfoldable pub search_from : Bool → String → String → Bool
  unfolding matches_at
  search_from before trigger String.[] = matches_at before trigger ""
  search_from before trigger (String.◌∷◌ c s) =
      matches_at before trigger (String.◌∷◌ c s) || search_from (t.is_word (code c)) trigger s

  -- `re.search(rf"\b{re.escape(trigger)}\b", text)`
  unfoldable pub search_word : String → String → Bool
  unfolding search_from
  search_word trigger text = search_from false trigger text

  unfoldable pub first_phrasing : String → List (String × String) → Option String
  first_phrasing ques [] = none
  first_phrasing ques ((trigger, phrasing) ∷ template) =
      let rest = first_phrasing ques template in
      if search_word trigger ques then some phrasing else rest

  unfoldable pub reformulate_query : String → Option String
  unfolding first_phrasing search_word reformulation_template
  reformulate_query question = first_phrasing (t.lower question) reformulation_template

unfoldable pub needs_retry : List Claim → Bool
needs_retry claims = any (λ c. is_none c.source_chunk_id) claims

-- What the layer is given, and the corpus. `World` is the state of the models and the indexes.
pub record Layer (f : Floats) : Type 1 where
  pub World : Type 0
  pub tables : Tables
  pub get_all_chunks : Exec World (List ChunkRecord)
  pub full_context_fn : String → Exec World (RetrievalContext f.Float)
  pub generate_fn : String → List (ChunkMatch f.Float) → Exec World GenerationResult

module _ {Float : Type 0} where
  -- `[c for c in full_context.chunks if c.document_id == document_id][:top_k]`
  unfoldable pub matching : String → ℕ → List (ChunkMatch Float) → List (ChunkMatch Float)
  matching document_id top_k chunks = take top_k (select (λ c. c.document_id == document_id) chunks)

module _ (f : Floats) where
  abbrev pub preamble_match : String → ChunkRecord → ChunkMatch f.Float
  preamble_match document_id p = record {
    chunk_id = p.chunk_id;
    document_id = document_id;
    raw_chunk_text = p.raw_chunk_text;
    score = f.decimal 0 0;
  }

  unfoldable pub append_first :
      String → List (ChunkMatch f.Float) → List ChunkRecord → List (ChunkMatch f.Float)
  append_first document_id scoped [] = scoped
  append_first document_id scoped (p ∷ _) =
      if any (λ c. c.chunk_id == p.chunk_id) scoped
      then scoped
      else scoped ++ preamble_match document_id p ∷ []

  -- the document's first preamble chunk, at the end, unless it is there already
  unfoldable pub with_preamble :
      String → List (ChunkMatch f.Float) → List ChunkRecord → List (ChunkMatch f.Float)
  unfolding append_first
  with_preamble document_id scoped all_chunks =
      append_first document_id scoped
        (select (λ c. (c.document_id == document_id) && c.is_preamble) all_chunks)

  -- `max(c.score for c in …)`: the first of the greatest
  unfoldable pub max_score : f.Float → List (ChunkMatch f.Float) → f.Float
  max_score best [] = best
  max_score best (c ∷ chunks) = max_score (if f.ltb best c.score then c.score else best) chunks

  -- the context of a scope that is not empty
  abbrev pub scoped_context : String → List (ChunkMatch f.Float) → Option (RetrievalContext f.Float)
  scoped_context document_id [] = none
  scoped_context document_id (c ∷ chunks) =
      let best = max_score c.score chunks in
      some (record {
        chunks = c ∷ chunks;
        consistency = record {
          top_contract = some document_id;
          concentration = f.decimal 1 0;
          avg_top_score = f.decimal 0 0;
          best_score = some best;
          margin = f.decimal 0 0;
          is_confident = f.leb (f.neg (f.decimal 4 0)) best;
          contract_breakdown = [];
        };
      })

  module _ (l : Layer f) where
    unfoldable pub first_context :
        String → Option (RetrievalContext f.Float) → Exec l.World (RetrievalContext f.Float)
    first_context question (some context) w = (ok context, w)
    first_context question none w = reraise (audit retrieval_error) (l.full_context_fn question w)

    -- `include_preamble` and `fallback_score_threshold` have their defaults, True and -4.0.
    unfoldable pub get_scoped_context :
        String
        → String
        → ℕ
        → Option (RetrievalContext f.Float)
        → Exec l.World (Option (RetrievalContext f.Float))
    unfolding first_context matching with_preamble max_score
    get_scoped_context question document_id top_k prefetched_context = do
      full_context ← first_context question prefetched_context
      all_chunks ← l.get_all_chunks
      pure (
          scoped_context document_id
            (with_preamble document_id (matching document_id top_k full_context.chunks) all_chunks))

    abbrev choose : GenerationResult → GenerationResult → Option GenerationResult
    choose result retry_result =
        if needs_retry retry_result.claims then some result else some retry_result

    -- the second pass, with the result of the first at hand
    unfoldable pub second_pass :
        String
        → String
        → GenerationResult
        → Option (RetrievalContext f.Float)
        → Exec l.World (Option GenerationResult)
    second_pass question document_id result none = pure (some result)
    second_pass question document_id result (some wider_scoped) = do
      retry_result ← l.generate_fn question wider_scoped.chunks
      pure (choose result retry_result)

    unfoldable pub retry_with :
        String → String → GenerationResult → Option String → Exec l.World (Option GenerationResult)
    unfolding second_pass
    retry_with question document_id result none = pure (some result)
    retry_with question document_id result (some reformulated) = do
      wider_scoped ← get_scoped_context reformulated document_id 12 none
      second_pass question document_id result wider_scoped

    unfoldable pub after_first :
        String → String → GenerationResult → Exec l.World (Option GenerationResult)
    unfolding retry_with needs_retry
    after_first question document_id result =
        if not (needs_retry result.claims)
        then pure (some result)
        else retry_with question document_id result (reformulate_query l.tables question)

    unfoldable pub first_pass :
        String → String → Option (RetrievalContext f.Float) → Exec l.World (Option GenerationResult)
    unfolding after_first
    first_pass question document_id none = pure none
    first_pass question document_id (some scoped) = do
      result ← l.generate_fn question scoped.chunks
      after_first question document_id result

    unfoldable pub generate_with_bounded_retry :
        String → String → Option (RetrievalContext f.Float) → Exec l.World (Option GenerationResult)
    unfolding first_pass
    generate_with_bounded_retry question document_id prefetched_context = do
      scoped ← get_scoped_context question document_id 5 prefetched_context
      first_pass question document_id scoped
