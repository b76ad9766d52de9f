-- ===== src/Chunking/Records.antt =====
-- src/auditflow/ingest/chunker.py and preamble.py, and `DocumentIdentity` of models.py. The text splitter
-- and SHA-256 are `Chunker`.
pub mod Built
use Prim.Native.Char.{code}
use audit_flow_ai.Base.{
  ℕ, zero, suc, String, ◌<>◌, ◌==◌, Bool, true, false, not, ◌||◌, ◌&&◌, Option, none, some, List,
  [], ◌∷◌, nat_eq, if◌then◌else◌, ◌≡◌, refl, Bool-cases, inl, inr, All, Apart, arith, ◌<◌, ◌≤◌,
}
use audit_flow_ai.Base.Text.{Tables, is_blank, strip}
use audit_flow_ai.Chunking.Regex.{collapse, is_upper, is_lower, is_ascii_digit}
use audit_flow_ai.Chunking.Titles.{Titling, ParsedTitle, parse_title, one_space}
use audit_flow_ai.Ingest.Store.{DocumentRecord}
use audit_flow_ai.Schemas.Retrieval.{ChunkRecord}

pub record DocumentIdentity : Type 0 where
  pub document_hash : String
  pub company_name : String
  pub counterparty_name : String
  pub contract_type : String
  pub confidence : String
  pub source : String
  pub self_declared_hint : String

pub record Contract : Type 0 where
  pub title : String
  pub context : Option String

-- `split_text n m` is the splitter for chunks of `n` characters that overlap in `m`.
pub record Chunker : Type 0 where
  pub titling : Titling
  pub sha256_hex : String → String
  pub split_text : ℕ → ℕ → String → List String

-- `text[:n]`
unfoldable pub take_text : ℕ → String → String
take_text zero s = ""
take_text (suc n) String.[] = ""
take_text (suc n) (String.◌∷◌ c s) = String.◌∷◌ c (take_text n s)

abbrev pub is_no_alnum : ℕ → Bool
is_no_alnum c = not (is_upper c || is_lower c || is_ascii_digit c)

-- `contract.get("context")`, where an empty text counts as none
unfoldable pub context_text : Contract → Option String
unfolding is_blank
context_text contract = elim contract.context [
  | none ↦ none
  | some text ↦ if is_blank text then none else some text
]

module _ (k : Chunker) where
  unfoldable pub slugify : String → String
  unfolding collapse strip take_text
  slugify text =
      take_text 60
        (k.titling.tables.lower (strip (λ c. nat_eq c b'-') (collapse is_no_alnum "-" false text)))

  unfoldable pub document_id_for : String → String
  unfolding slugify is_blank take_text
  document_id_for raw_title =
      let slug = slugify raw_title in
      if is_blank slug then take_text 16 (k.sha256_hex raw_title) else slug

  unfoldable pub content_hash : String → String
  content_hash text = k.sha256_hex text

  unfoldable pub hash_preamble : String → String
  unfolding take_text
  hash_preamble text = take_text 16 (k.sha256_hex text)

  abbrev pub chunk_id_of : String → String → String
  chunk_id_of document_id text = document_id <> "::" <> take_text 16 (content_hash text)

  -- `re.sub(r"\s+", " ", chunk.page_content).strip()`
  unfoldable pub clean : String → String
  unfolding collapse strip
  clean text = strip k.titling.tables.is_space (one_space k.titling text)

  -- the chunks from the place `idx` on
  unfoldable pub chunk_records : String → String → ℕ → List String → List ChunkRecord
  unfolding clean is_blank content_hash take_text
  chunk_records document_id document_title idx [] = []
  chunk_records document_id document_title idx (raw ∷ raw_chunks) =
      let rest = chunk_records document_id document_title (suc idx) raw_chunks in
      let clean_text = clean raw in
      if is_blank clean_text
      then rest
      else (record {
        chunk_id = chunk_id_of document_id clean_text;
        document_id = document_id;
        chunk_index = idx;
        raw_chunk_text = clean_text;
        embedding_text = document_title <> "\n\n" <> clean_text;
        content_hash = content_hash clean_text;
        is_preamble = nat_eq idx 0;
      })
        ∷ rest

  -- the metadata of a document, by the identity that was extracted
  unfoldable pub metadata : ParsedTitle → Option DocumentIdentity → DocumentRecord → DocumentRecord
  metadata parsed none doc = record doc {
    company_name = "";
    counterparty_name = "";
    contract_type = parsed.contract_type;
    identity_source = "regex_fallback";
    identity_confidence = parsed.parse_confidence;
    self_declared_hint = "";
  }
  metadata parsed (some identity) doc =
      let failed = identity.source == "failed" in
      record doc {
        company_name = if failed then "" else identity.company_name;
        counterparty_name = if failed then "" else identity.counterparty_name;
        contract_type = if failed then parsed.contract_type else identity.contract_type;
        identity_source = identity.source;
        identity_confidence = identity.confidence;
        self_declared_hint = identity.self_declared_hint;
      }

  unfoldable pub build_document_record :
      Contract → ℕ → ℕ → Option DocumentIdentity → Option DocumentRecord
  unfolding parse_title document_id_for chunk_records metadata content_hash context_text
  build_document_record contract chunk_size chunk_overlap identity = elim (context_text contract) [
    | none ↦ none
    | some context ↦
        let parsed = parse_title k.titling contract.title in
        let document_id = document_id_for contract.title in
        some (
          metadata parsed identity (record {
            document_id = document_id;
            raw_title = contract.title;
            document_title = parsed.clean_title;
            content_hash = content_hash context;
            company_name = "";
            counterparty_name = "";
            contract_type = "";
            identity_source = "";
            identity_confidence = "";
            self_declared_hint = "";
            chunks =
                chunk_records document_id parsed.clean_title 0
                  (k.split_text chunk_size chunk_overlap context);
          }))
  ]
