-- ===== src/Identity.antt =====
-- src/auditflow/ingest/identity_extraction.py. The two models, the JSON reader and the file of the cache
-- are `Extractor`; `asyncio.as_completed` is the calls in order, which share nothing but the cache.
pub mod Prompt
pub mod Contents
pub mod Rerun
use audit_flow_ai.Base.{
  ℕ, zero, suc, ◌-◌, String, ◌<>◌, Bool, true, false, ◌||◌, Option, none, some, List, [], ◌∷◌,
  nat_eq, is_none, is_empty, if◌then◌else◌,
}
use audit_flow_ai.Base.Dict.{Dict, get, put}
use audit_flow_ai.Base.Text.{Tables, count, strip}
use audit_flow_ai.Chunking.Records.{Chunker, Contract, DocumentIdentity, take_text, hash_preamble}
use audit_flow_ai.Identity.Prompt.{self_declared_hint, hint_line, identity_prompt}
use audit_flow_ai.Exec.{Result, ok, raised, Exec, ◌>>=◌, ◌>>◌, pure, raise}
use audit_flow_ai.JsonExtraction.{parse_llm_json}
use audit_flow_ai.Schemas.Errors.{other}

-- schemas/ingestion.py
pub record ExtractedIdentity : Type 0 where
  pub company_name : String
  pub counterparty_name : String
  pub contract_type : String
  pub confidence : String

-- A reply is `none` where taking its text raises or gives null. `load` gives `none` where there is no
-- file.
pub record Extractor : Type 1 where
  pub World : Type 0
  pub chunker : Chunker
  pub Json : Type 0
  pub loads : String → Result Json
  pub validate : Json → Option ExtractedIdentity
  pub gemini : String → Exec World (Option String)
  pub groq : String → Exec World (Option String)
  pub load : Exec World (Option (Dict DocumentIdentity))
  pub save : Dict DocumentIdentity → Exec World Unit

abbrev or_blank : Option String → String
or_blank none = ""
or_blank (some s) = s

module _ (x : Extractor) where
  abbrev tables : Tables
  tables = x.chunker.titling.tables

  -- A reply without a text makes `parse_llm_json` raise.
  unfoldable pub parsed_reply : Option String → Result ExtractedIdentity
  unfolding parse_llm_json
  parsed_reply none = raised other
  parsed_reply (some text) = parse_llm_json tables x.loads x.validate text

  -- `_call_gemini` and `_call_groq`
  unfoldable pub call :
      (String → Exec x.World (Option String)) → String → Exec x.World ExtractedIdentity
  unfolding parsed_reply
  call model prompt = do reply ← model prompt; λ w. (parsed_reply reply, w)

  unfoldable pub identity_of : String → String → String → ExtractedIdentity → DocumentIdentity
  identity_of doc_hash hint source e = record {
    document_hash = doc_hash;
    company_name = e.company_name;
    counterparty_name = e.counterparty_name;
    contract_type = e.contract_type;
    confidence = e.confidence;
    source = source;
    self_declared_hint = hint;
  }

  unfoldable pub failed_identity : String → String → DocumentIdentity
  failed_identity doc_hash hint = record {
    document_hash = doc_hash;
    company_name = "";
    counterparty_name = "";
    contract_type = "Unknown Agreement";
    confidence = "low";
    source = "failed";
    self_declared_hint = hint;
  }

  unfoldable pub from_groq :
      String → String → Result ExtractedIdentity × x.World → DocumentIdentity × x.World
  unfolding identity_of failed_identity
  from_groq doc_hash hint (ok e, w) = (identity_of doc_hash hint "groq" e, w)
  from_groq doc_hash hint (raised _, w) = (failed_identity doc_hash hint, w)

  unfoldable pub from_gemini :
      String → String → String → Result ExtractedIdentity × x.World → DocumentIdentity × x.World
  unfolding identity_of from_groq call
  from_gemini doc_hash hint prompt (ok e, w) = (identity_of doc_hash hint "gemini" e, w)
  from_gemini doc_hash hint prompt (raised _, w) = from_groq doc_hash hint (call x.groq prompt w)

  unfoldable pub extract_one : String → String → x.World → DocumentIdentity × x.World
  unfolding self_declared_hint hint_line identity_prompt from_gemini call
  extract_one doc_hash preamble_text w =
      let hint = self_declared_hint tables preamble_text in
      let prompt = identity_prompt (hint_line hint) preamble_text in
      from_gemini doc_hash (or_blank hint) prompt (call x.gemini prompt w)

  -- `doc["context"][:PREAMBLE_CHARS]` raises where there is no context.
  unfoldable pub preambles : List Contract → Result (List (String × String))
  unfolding take_text hash_preamble
  preambles [] = ok []
  preambles (doc ∷ documents) =
      let rest = preambles documents in
      elim doc.context [
        | none ↦ raised other
        | some context ↦
            let preamble = take_text 1500 context in
            elim rest [
              | raised e ↦ raised e
              | ok others ↦ ok ((hash_preamble x.chunker preamble, preamble) ∷ others)
            ]
      ]

  -- the identities that are cached, over those of `results`
  unfoldable pub cached :
      Dict DocumentIdentity → List (String × String) → Dict DocumentIdentity → Dict DocumentIdentity
  cached cache [] results = results
  cached cache ((doc_hash, preamble) ∷ docs) results = elim (get doc_hash cache) [
    | some identity ↦ cached cache docs (put doc_hash identity results)
    | none ↦ cached cache docs results
  ]

  unfoldable pub to_process :
      Dict DocumentIdentity → List (String × String) → List (String × String)
  to_process cache [] = []
  to_process cache ((doc_hash, preamble) ∷ docs) =
      let rest = to_process cache docs in
      if is_none (get doc_hash cache) then (doc_hash, preamble) ∷ rest else rest

  abbrev Both : Type 0
  Both = Dict DocumentIdentity × Dict DocumentIdentity

  -- the results and the cache, with an identity for each of the documents
  unfoldable pub extract_each : List (String × String) → Both → x.World → Both × x.World
  unfolding extract_one
  extract_each [] b w = (b, w)
  extract_each ((doc_hash, preamble) ∷ docs) (results, cache) w =
      let (identity, v) = extract_one doc_hash preamble w in
      extract_each docs
        (put identity.document_hash identity results, put identity.document_hash identity cache) v

  unfoldable pub extract_missing :
      List (String × String) → Both → Exec x.World (Dict DocumentIdentity)
  unfolding extract_each
  extract_missing [] b = pure b.0
  extract_missing (d ∷ docs) b = λ w.
      let ((results, cache), v) = extract_each (d ∷ docs) b w in (x.save cache >> pure results) v

  abbrev pub or_no_cache : Option (Dict DocumentIdentity) → Dict DocumentIdentity
  or_no_cache none = []
  or_no_cache (some cache) = cache

  unfoldable pub extract_with :
      Dict DocumentIdentity → Result (List (String × String)) → Exec x.World (Dict DocumentIdentity)
  unfolding cached to_process extract_missing
  extract_with cache (raised e) = raise e
  extract_with cache (ok docs) =
      extract_missing (to_process cache docs) (cached cache docs [], cache)

  unfoldable pub extract_all_identities : List Contract → Exec x.World (Dict DocumentIdentity)
  unfolding preambles extract_with
  extract_all_identities documents = do
    found ← x.load
    extract_with (or_no_cache found) (preambles documents)

  -- what `build_index.py` reads: it calls no model
  unfoldable pub load_cached_identities : List Contract → Exec x.World (Dict DocumentIdentity)
  unfolding preambles cached
  load_cached_identities documents = do
    found ← x.load
    elim (preambles documents) [
      | raised e ↦ raise e
      | ok docs ↦ pure (cached (or_no_cache found) docs [])
    ]
