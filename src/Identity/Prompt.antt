-- ===== src/Identity/Prompt.antt =====
-- `_self_declared_hint` and `_build_prompt` of src/auditflow/ingest/identity_extraction.py
use Prim.Native.Char.{code}
use audit_flow_ai.Base.{ℕ, zero, suc, ◌-◌, String, ◌<>◌, Bool, ◌||◌, Option, none, some, nat_eq}
use audit_flow_ai.Base.Text.{Tables, count, strip}
use audit_flow_ai.Chunking.Records.{take_text}
use audit_flow_ai.Chunking.Regex.{Re, one, empty, seq, either, star, boundary, match, is_upper}

abbrev exact : String → Re
exact String.[] = empty
exact (String.◌∷◌ c s) = seq (one (nat_eq (code c))) (exact s)

-- `r{n}` and, for as few as will do, `r{0,n}?`
abbrev times : ℕ → Re → Re
times zero r = empty
times (suc n) r = seq r (times n r)

abbrev up_to : ℕ → Re → Re
up_to zero r = empty
up_to (suc n) r = either empty (seq r (up_to n r))

-- `[A-Z \-&/]`
abbrev is_name : ℕ → Bool
is_name c = is_upper c || nat_eq c b' ' || nat_eq c b'-' || nat_eq c b'&' || nat_eq c b'/'

abbrev self_declared_re : (ℕ → Bool) → Re
self_declared_re is_space =
    let spaces = seq (one is_space) (star (one is_space)) in
    seq boundary (
      seq (exact "THIS") (
        seq spaces (
          seq (one is_upper) (
            seq (times 3 (one is_name)) (
              seq (up_to 57 (one is_name)) (
                seq spaces (
                  seq
                    (either (exact "AGREEMENT") (
                      either (exact "CONTRACT")
                        (either (exact "LICENSE") (either (exact "LEASE") (exact "AMENDMENT")))))
                    boundary)))))))

-- `r.search(text)`: the text of the first match
unfoldable pub search_text : (ℕ → Bool) → Re → Option ℕ → String → Option String
unfolding match take_text count
search_text is_word r prev String.[] = none
search_text is_word r prev (String.◌∷◌ c s) =
    let later = search_text is_word r (some (code c)) s in
    elim (match is_word r (prev, String.◌∷◌ c s) some) [
      | some q ↦ some (take_text (count (String.◌∷◌ c s) - count q.1) (String.◌∷◌ c s))
      | none ↦ later
    ]

unfoldable pub self_declared_hint : Tables → String → Option String
unfolding search_text strip take_text
self_declared_hint t preamble_text =
    elim (search_text t.is_word (self_declared_re t.is_space) none (take_text 400 preamble_text)) [
      | some hint ↦ some (strip t.is_space hint)
      | none ↦ none
    ]

unfoldable pub hint_line : Option String → String
hint_line (some hint) =
    "This document's own opening line calls itself: \"" <> hint <> "\". "
    <> "Use this as the contract_type unless it is clearly a mis-scan."
hint_line none =
    "(No unambiguous self-declaration found in the opening text -- "
    <> "read carefully to distinguish THIS document's own type from any "
    <> "other agreement it references.)"

unfoldable pub identity_prompt : String → String → String
identity_prompt hint_line preamble_text =
    "Extract structured metadata for THIS contract -- the agreement whose\n"
    <> "full text follows below -- and NOT any OTHER agreement it merely mentions\n"
    <> "or references (for example: an \"Original Agreement\" it is terminating, a\n"
    <> "prior agreement it is amending, or an agreement cited as background\n"
    <> "elsewhere in the text).\n" <> "\n"
    <> "If this document is a termination, amendment, consent, or assignment OF\n"
    <> "another agreement, contract_type must be the type of THIS document (e.g.\n"
    <> "\"Mutual Termination Agreement\"), never the type of the agreement being\n"
    <> "terminated/amended/assigned. This metadata is used for search filtering\n"
    <> "only, not as the document's title.\n" <> "\n" <> hint_line <> "\n" <> "\n" <> "Text:\n"
    <> preamble_text <> "\n" <> "\n"
    <> "Respond with ONLY valid JSON, no markdown fences, no other text:\n"
    <> "{\"company_name\": \"...\", \"counterparty_name\": \"...\", \"contract_type\": \"...\", \"confidence\": \"high\" or \"low\"}\n"
    <> "\n"
    <> "If the text doesn't clearly state these, set \"confidence\": \"low\" rather than guessing a value."
