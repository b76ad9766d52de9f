-- ===== src/Tests/Fixtures.antt =====
-- Stand-ins for the models, the indexes and the libraries that the program calls.
use audit_flow_ai.Base.{
  ℕ, suc, ◌+◌, ◌-◌, ◌/◌, String, true, false, ◌||◌, ◌&&◌, none, some, [], ◌∷◌, ◌==◌, leb, ltb,
  nat_eq, if◌then◌else◌,
}
use audit_flow_ai.Base.Dict.{Dict}
use audit_flow_ai.Base.Text.{Tables}
use audit_flow_ai.Exec.{ok, raised}
use audit_flow_ai.Generate.{Generator}
use audit_flow_ai.Pipeline.{Sessions}
use audit_flow_ai.Retry.{Layer}
use audit_flow_ai.Schemas.Errors.{other}
use audit_flow_ai.Schemas.Floats.{Floats}
use audit_flow_ai.Schemas.Generation.{Claim}
use audit_flow_ai.Schemas.Retrieval.{ChunkRecord, ChunkMatch, RetrievalContext}
use audit_flow_ai.Schemas.Verification.{supported, JudgeVerdict}
use audit_flow_ai.Verify.{Judge}
use audit_flow_ai.Auth.Refresh.{Crypto, User}
use audit_flow_ai.Auth.Routes.{Clock}

-- ASCII, for texts in lower case
abbrev pub ascii : Tables
ascii = record {
  is_space = λ c. nat_eq c b' ' || nat_eq c b'\n';
  is_word = λ c. leb b'a' c && leb c b'z';
  lower = λ s. s;
}

-- scores that are natural numbers
abbrev pub scores : Floats
scores = record {
  Float = ℕ;
  add = λ a b. a + b;
  sub = λ a b. a - b;
  div = λ a b. a / b;
  neg = λ a. 0;
  decimal = λ a k. a;
  neg_infinity = 0;
  leb = leb;
  ltb = ltb;
}

abbrev pub reply : String
reply = "sure: {supported}"

abbrev pub support : JudgeVerdict
support = record { verdict = supported; reason = "stated" }

-- A judge whose first call fails. The state counts the calls.
abbrev pub judge : Judge
judge = record {
  World = ℕ;
  complete = λ text n. ((if nat_eq n 0 then raised other else ok (some reply ∷ [])), n + 1);
  tables = ascii;
  Json = String;
  loads = λ s. ok s;
  validate = λ s. if s == "{supported}" then some support else none;
  str_error = λ e. "no reply";
}

-- a judge whose replies have no content
abbrev pub silent : Judge
silent = record judge { complete = λ text n. (ok (none ∷ []), n + 1) }

abbrev pub claim : Claim
claim = record { text = "the fee is 5"; source_chunk_id = some "a-1" }

abbrev pub unsourced : Claim
unsourced = record { text = "nothing on the fee"; source_chunk_id = none }

abbrev pub lookup : Dict String
lookup = ("a-1", "a fee of 5") ∷ ("b-1", "no fee") ∷ []

abbrev pub chunk : String → String → ChunkMatch ℕ
chunk chunk_id document_id = record {
  chunk_id = chunk_id;
  document_id = document_id;
  raw_chunk_text = "a fee of 5";
  score = 7;
}

abbrev pub context : RetrievalContext ℕ
context = record {
  chunks = chunk "a-1" "a" ∷ chunk "b-1" "b" ∷ [];
  consistency = record {
    top_contract = some "a";
    concentration = 9;
    avg_top_score = 7;
    best_score = some 7;
    margin = 3;
    is_confident = true;
    contract_breakdown = ("a", 1) ∷ ("b", 1) ∷ [];
  };
}

abbrev pub vague : RetrievalContext ℕ
vague = record context {
  consistency = record context.consistency { is_confident = false; concentration = 3 };
}

abbrev pub preamble : ChunkRecord
preamble = record {
  chunk_id = "a-0";
  document_id = "a";
  chunk_index = 0;
  raw_chunk_text = "between";
  embedding_text = "between";
  content_hash = "0";
  is_preamble = true;
}

-- A corpus with one preamble. The model's first answer has no source, the later ones have. The state
-- counts the generations.
abbrev pub layer : Layer scores
layer = record {
  World = ℕ;
  tables = ascii;
  get_all_chunks = λ n. (ok (preamble ∷ []), n);
  full_context_fn = λ q n. (ok context, n);
  generate_fn = λ q chunks n. (
    ok (record { claims = (if nat_eq n 0 then unsourced else claim) ∷ []; raw_answer = none }),
    n + 1,
  );
}

-- the same corpus, where no document stands out
abbrev pub vague_layer : Layer scores
vague_layer = record layer { full_context_fn = λ q n. (ok vague, n) }

abbrev pub writer : Generator
writer = record {
  World = ℕ;
  complete = λ text n. (ok (some reply ∷ []), n + 1);
  tables = ascii;
  Json = String;
  loads = λ s. ok s;
  validate = λ s. none;
}

abbrev pub corpus : Sessions
corpus = record {
  chunk_lookup = lookup;
  all_identities =
      ("a", record { company_name = "acme"; counterparty_name = "bolt"; document_title = "a" })
      ∷ (
        "b",
        record { company_name = "borealis"; counterparty_name = "crane"; document_title = "b" },
      )
      ∷ [];
}

abbrev pub crypto : Crypto
crypto = record {
  Entropy = ℕ;
  hash = λ s. s;
  generate = λ n. ((if nat_eq n 0 then "t1" else "t2"), suc n);
  checkpw = λ p h. p == h;
  encode = λ sub role iat exp. sub;
}

abbrev pub ann : User
ann = record { username = "ann"; password_hash = "pw"; role = "viewer"; is_active = true }

abbrev pub clock : Clock
clock = record { now = 5; seconds = 0; at_cookie = 5 }
