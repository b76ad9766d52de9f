-- ===== src/Chunking/Titles.antt =====
-- src/auditflow/ingest/title_parser.py
use Prim.Native.Char.{code}
use audit_flow_ai.Base.{
  ℕ, ◌+◌, String, ◌<>◌, ◌==◌, Bool, true, false, not, ◌||◌, ◌&&◌, none, some, List, [], ◌∷◌, ltb,
  nat_eq, if◌then◌else◌,
}
use audit_flow_ai.Base.Dict.{Dict, get}
use audit_flow_ai.Base.Text.{Tables, count, is_blank, strip, split}
use audit_flow_ai.Chunking.Regex.{
  Re, one, empty, seq, either, star, boundary, not_behind, not_ahead, end, sub, collapse, is_upper,
  is_lower, is_ascii_digit,
}

-- What else the program takes from Python's Unicode data: `\d`, `str.isupper` and `str.title`
pub record Titling : Type 0 where
  pub tables : Tables
  pub is_digit : ℕ → Bool
  pub isupper : String → Bool
  pub title : String → String

pub record ParsedTitle : Type 0 where
  pub raw_title : String
  pub company_name : String
  pub contract_type : String
  pub clean_title : String
  pub parse_confidence : String

abbrev manual_overrides : Dict (String × String)
manual_overrides = []

-- A letter of a pattern with IGNORECASE, written in lower case: the Kelvin sign is a "k" and the long s
-- is an "s".
abbrev same_letter : ℕ → ℕ → Bool
same_letter l c =
    nat_eq c l
    || (is_lower l && nat_eq (c + 32) l)
    || (nat_eq l b'k' && nat_eq c 8490)
    || (nat_eq l b's' && nat_eq c 383)

abbrev lit : String → Re
lit String.[] = empty
lit (String.◌∷◌ c s) = seq (one (same_letter (code c))) (lit s)

abbrev optional : Re → Re
optional r = either r empty

abbrev plus : Re → Re
plus r = seq r (star r)

-- `[A-Za-z0-9]` with IGNORECASE
abbrev is_name_char : ℕ → Bool
is_name_char c =
    is_upper c
    || is_lower c
    || is_ascii_digit c
    || nat_eq c 304
    || nat_eq c 305
    || nat_eq c 383
    || nat_eq c 8490

module _ (t : Titling) where
  abbrev digit : Re
  digit = one t.is_digit

  abbrev exhibit_re : Re
  exhibit_re = seq (lit "ex") (
      seq (optional (one (λ c. nat_eq c b'-' || nat_eq c 8211))) (
        seq (plus digit) (
          seq (optional (seq (lit ".") (plus digit))) (
            seq (star (seq (lit "(") (seq (plus (one is_name_char)) (lit ")"))))
              (optional (lit "."))))))

  -- `X-?Y`
  abbrev dashed : String → String → Re
  dashed x y = seq (lit x) (seq (optional (lit "-")) (lit y))

  abbrev spaces : Re
  spaces = star (one t.tables.is_space)

  abbrev form_type_re : Re
  form_type_re = seq boundary (
      seq
        (either
          (seq (lit "drs")
            (seq spaces (seq (lit "(on") (seq spaces (seq (dashed "f" "1") (lit ")"))))))
          (either (dashed "10" "12g") (
            either (dashed "10" "k") (
              either (dashed "10" "q") (
                either (dashed "8" "k") (
                  either (seq (dashed "f" "1") (optional (lit "a"))) (
                    either (seq (dashed "s" "1") (optional (lit "a"))) (
                      either (dashed "20" "f")
                        (either (dashed "6" "k") (seq (lit "424b") (optional digit)))))))))))
        boundary)

  abbrev digits_4 : Re
  digits_4 = seq digit (seq digit (seq digit digit))

  abbrev date_8_re : Re
  date_8_re = seq boundary (seq digits_4 (seq digits_4 boundary))

  -- `[_\-]`
  abbrev dash : Re
  dash = one (λ c. nat_eq c b'_' || nat_eq c b'-')

  -- `\d{1,2}`
  abbrev digits_2 : Re
  digits_2 = seq digit (optional digit)

  abbrev date_mdy_re : Re
  date_mdy_re =
      seq boundary (seq digits_2 (seq dash (seq digits_2 (seq dash (seq digits_4 boundary)))))

  abbrev digit_or_dot : ℕ → Bool
  digit_or_dot c = t.is_digit c || nat_eq c b'.'

  abbrev long_numeric_id_re : Re
  long_numeric_id_re =
      seq (not_behind digit_or_dot) (seq digits_4 (seq (plus digit) (not_ahead digit_or_dot)))

  abbrev trailing_digit_re : Re
  trailing_digit_re = seq (plus digit) end

  abbrev is_separator : ℕ → Bool
  is_separator c = nat_eq c b'_' || nat_eq c b'-' || nat_eq c 8211

  abbrev removed : Re → String → String
  removed r text = sub t.tables.is_word r " " text

  -- `re.sub(r"\s+", " ", text)`
  abbrev pub one_space : String → String
  one_space text = collapse t.tables.is_space " " false text

  -- `re.sub(r"(?<!^)(?=[A-Z])", " ", token)`
  unfoldable pub space_caps : Bool → String → String
  space_caps at_start String.[] = ""
  space_caps at_start (String.◌∷◌ c s) =
      let rest = String.◌∷◌ c (space_caps false s) in
      if not at_start && is_upper (code c) then " " <> rest else rest

  unfoldable pub split_camel_and_caps : String → String
  unfolding space_caps strip collapse
  split_camel_and_caps token =
      if t.isupper token then token else strip t.tables.is_space (one_space (space_caps true token))

  unfoldable pub stripped_parts : List String → List String
  unfolding strip is_blank
  stripped_parts [] = []
  stripped_parts (p ∷ parts) =
      let rest = stripped_parts parts in
      let bare = strip t.tables.is_space p in if is_blank bare then rest else bare ∷ rest

  -- the parts between the separators, once forms, dates and numbers are gone
  unfoldable pub title_parts : String → List String
  unfolding sub collapse strip split stripped_parts
  title_parts raw_title =
      let text = removed long_numeric_id_re (
        removed date_mdy_re
          (removed date_8_re (removed form_type_re (removed exhibit_re raw_title)))) in
      let spaced = one_space (collapse is_separator " | " false text) in
      stripped_parts
        (split (λ c. nat_eq c b'|') (strip (λ c. nat_eq c b' ' || nat_eq c b'|') spaced))

  unfoldable pub last_part : List String → String
  last_part [] = "Unknown Agreement"
  last_part (p ∷ []) = p
  last_part (p ∷ q ∷ parts) = last_part (q ∷ parts)

  unfoldable pub contract_type_of : List String → String
  unfolding last_part sub strip is_blank
  contract_type_of parts =
      let bare =
        strip t.tables.is_space (sub t.tables.is_word trailing_digit_re "" (last_part parts)) in
      if is_blank bare then "Unknown Agreement" else bare

  unfoldable pub has_paren : String → Bool
  has_paren String.[] = false
  has_paren (String.◌∷◌ c s) = nat_eq (code c) b'(' || nat_eq (code c) b')' || has_paren s

  unfoldable pub parse_title : String → ParsedTitle
  unfolding title_parts split_camel_and_caps contract_type_of has_paren count
  parse_title raw_title = elim (get raw_title manual_overrides) [
    | some chosen ↦ record {
      raw_title = raw_title;
      company_name = chosen.0;
      contract_type = chosen.1;
      clean_title = chosen.0 <> " — " <> chosen.1;
      parse_confidence = "high";
    }
    | none ↦ elim (title_parts raw_title) [
      | [] ↦ record {
        raw_title = raw_title;
        company_name = raw_title;
        contract_type = "Unknown Agreement";
        clean_title = raw_title;
        parse_confidence = "low";
      }
      | company_raw ∷ others ↦
          let company_name = split_camel_and_caps company_raw in
          let contract_type = contract_type_of others in
          let shown = if t.isupper company_name then t.title company_name else company_name in
          let low =
            (t.isupper company_name && ltb 15 (count company_name))
            || (contract_type == "Unknown Agreement")
            || has_paren contract_type in
          record {
            raw_title = raw_title;
            company_name = company_name;
            contract_type = contract_type;
            clean_title = shown <> " — " <> t.title contract_type;
            parse_confidence = if low then "low" else "high";
          }
    ]
  ]
