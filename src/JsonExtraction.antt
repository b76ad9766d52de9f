-- ===== src/JsonExtraction.antt =====
-- core/json_extraction.py. `json.loads` and pydantic's `model_validate` are arguments: `loads` gives
-- what it raises, a `JSONDecodeError` or another (`ValueError`, `RecursionError`); `validate` is `none`
-- where it raises `ValidationError`.
pub mod Spans
use Prim.Native.Char.{Char, code}
use audit_flow_ai.Base.{ℕ, String, Option, none, some, nat_eq, if◌then◌else◌}
use audit_flow_ai.Base.Text.{Tables, strip, has_prefix, drop_as}
use audit_flow_ai.Exec.{Result, ok, raised}
use audit_flow_ai.Schemas.Errors.{validation_error}

-- `text[text.find(c):]`, or `none` where `find` gives -1
unfoldable pub from_first : ℕ → String → Option String
from_first k String.[] = none
from_first k (String.◌∷◌ c s) =
    let rest = from_first k s in if nat_eq (code c) k then some (String.◌∷◌ c s) else rest

abbrev extend : Char → Option String → Option String → Option String
extend c here none = here
extend c here (some s) = some (String.◌∷◌ c s)

-- `text[:text.rfind(c) + 1]`, or `none` where `rfind` gives -1
unfoldable pub upto_last : ℕ → String → Option String
upto_last k String.[] = none
upto_last k (String.◌∷◌ c s) =
    let here : Option String = if nat_eq (code c) k then some (String.◌∷◌ c "") else none in
    extend c here (upto_last k s)

abbrev or_nothing : Option String → String
or_nothing none = ""
or_nothing (some s) = s

-- `text[start:end + 1]` where both braces are found; it is empty where the last `}` stands before
-- the first `{`.
unfoldable pub brace_span : String → String
unfolding from_first upto_last
brace_span text = elim (from_first b'{' text) [
  | none ↦ text
  | some tail ↦ elim (upto_last b'}' text) [
    | none ↦ text
    | some _ ↦ or_nothing (upto_last b'}' tail)
  ]
]

module _ (t : Tables) where
  unfoldable pub unfence : String → String
  unfolding has_prefix strip drop_as
  unfence text =
      if has_prefix text "```"
      then (let bare = strip (λ c. nat_eq c b'`') text in
          if has_prefix (t.lower bare) "json" then strip t.is_space (drop_as bare "json") else bare)
      else text

  -- `extract_json` up to the call of `json.loads`
  unfoldable pub extract_text : String → String
  unfolding unfence brace_span strip
  extract_text raw = brace_span (unfence (strip t.is_space raw))

  module _ {Json T : Type 0} (loads : String → Result Json) (validate : Json → Option T) where
    abbrev validated : Option T → Result T
    validated none = raised validation_error
    validated (some v) = ok v

    abbrev pub loaded : Result Json → Result T
    loaded (raised e) = raised e
    loaded (ok j) = validated (validate j)

    unfoldable pub parse_llm_json : String → Result T
    parse_llm_json raw = loaded (loads (extract_text raw))
