-- ===== src/Tests/Identities.antt =====
-- A run whose first model fails.
use audit_flow_ai.Base.{String, refl, none, some, [], ◌∷◌, Option}
use audit_flow_ai.Base.Dict.{Dict}
use audit_flow_ai.Exec.{ok, raised, After}
use audit_flow_ai.Schemas.Errors.{other}
use audit_flow_ai.Chunking.Records.{DocumentIdentity}
use audit_flow_ai.Identity.{Extractor, extract_all_identities}
use audit_flow_ai.Identity.Rerun.{IsFile, Extracted, extract_all_identities-Extracted}
use audit_flow_ai.Tests.Chunks.{chunker, contract}

-- The state is the file of the cache.
abbrev extractor : Extractor
extractor = record {
  World = Option (Dict DocumentIdentity);
  chunker = chunker;
  Json = String;
  loads = λ s. ok s;
  validate = λ s. some (record {
    company_name = "Acme";
    counterparty_name = "Bolt";
    contract_type = "Lease";
    confidence = "high";
  });
  gemini = λ prompt w. (raised other, w);
  groq = λ prompt w. (ok (some "{}"), w);
  load = λ w. (ok w, w);
  save = λ c w. (ok tt, some c);
}

extractor-IsFile : IsFile extractor
extractor-IsFile = record { saved = λ c w. refl; loaded = λ w. refl }

extract_all_identities-Extracted_example :
    After
      (λ _. Unit)
      (Extracted extractor (contract "Acme - Lease" ∷ []))
      (extract_all_identities extractor (contract "Acme - Lease" ∷ []) none)
extract_all_identities-Extracted_example =
    extract_all_identities-Extracted extractor extractor-IsFile (contract "Acme - Lease" ∷ []) none
