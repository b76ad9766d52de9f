-- ===== src/Tests/Chunks.antt =====
-- Titles of a corpus, and the record and the preflight check of two contracts.
use audit_flow_ai.Base.{String, ◌≡◌, refl, false, none, some, [], ◌∷◌, List}
use audit_flow_ai.Base.Dict.{get}
use audit_flow_ai.Base.Text.{
  count, is_blank, strip, strip_left, strip_right, split, split_from, push_word,
}
use audit_flow_ai.Chunking.Regex.{match, sub, sub_from, collapse, is_ascii_digit}
use audit_flow_ai.Chunking.Titles.{
  Titling, parse_title, title_parts, stripped_parts, split_camel_and_caps, space_caps,
  contract_type_of, last_part, has_paren,
}
use audit_flow_ai.Chunking.Plain.{plain}
use audit_flow_ai.Chunking.Records.{
  Chunker, Contract, context_text, build_document_record, document_id_for, slugify, take_text,
}
use audit_flow_ai.Chunking.Records.Built.{Built, build_document_record-Built}
use audit_flow_ai.Chunking.Preflight.{titles, check_titles, check_chunking, print_report}
use audit_flow_ai.Chunking.Preflight.Clashes.{no_clash}
use audit_flow_ai.Chunking.Preflight.Ids.{IsColonFree, check_chunking_no_collision}
use audit_flow_ai.Chunking.Preflight.Safety.{print_report_iff}
use audit_flow_ai.Tests.Fixtures.{ascii}

abbrev titling : Titling
titling = record { tables = ascii; is_digit = is_ascii_digit; isupper = λ s. false; title = λ s. s }

abbrev pub chunker : Chunker
chunker = record {
  titling = titling;
  sha256_hex = λ s. "0123456789abcdef01";
  split_text = λ n m text. "a fee " ∷ " " ∷ "of 5" ∷ [];
}

abbrev pub contract : String → Contract
contract title = record { title = title; context = some "a fee  of 5" }

abbrev contracts : List Contract
contracts = contract "Acme - Lease" ∷ contract "Acme_Lease" ∷ []

title_runs :
    (parse_title titling "LejuLtd_20140312_EX-10.34_34567_supply of parts2").clean_title
    ≡ "Leju Ltd — supply of parts"
unfolding parse_title title_parts stripped_parts split_camel_and_caps space_caps contract_type_of
    last_part has_paren match sub sub_from collapse count is_blank strip strip_left strip_right
    split split_from push_word get
title_runs = refl

slug_runs : document_id_for chunker "Acme - Lease" ≡ document_id_for chunker "Acme_Lease"
unfolding document_id_for slugify take_text collapse is_blank strip strip_left strip_right
slug_runs = refl

build_document_record-Built_example :
    Built chunker
      (contract "Acme - Lease")
      1000
      200
      (context_text (contract "Acme - Lease"))
      (build_document_record chunker (contract "Acme - Lease") 1000 200 none)
build_document_record-Built_example =
    build_document_record-Built chunker (contract "Acme - Lease") 1000 200 none

chunker-IsColonFree : IsColonFree chunker
unfolding plain
chunker-IsColonFree = record { lower = λ s h. h; hex = λ s. refl }

check_chunking_no_collision_example :
    (check_chunking chunker contracts none).chunk_id_collisions ≡ []
check_chunking_no_collision_example =
    check_chunking_no_collision chunker chunker-IsColonFree contracts none

print_report_iff_example :
    print_report (check_titles chunker contracts) (check_chunking chunker contracts none)
    ≡ no_clash chunker (titles chunker contracts)
print_report_iff_example = print_report_iff chunker chunker-IsColonFree contracts none

unsafe_runs : no_clash chunker (titles chunker contracts) ≡ false
unfolding titles context_text document_id_for slugify take_text collapse is_blank strip strip_left
    strip_right
unsafe_runs = refl
