-- ===== src/Attempt.antt =====
-- One attempt at a model call, as the retry loops of verify.py, generate.py and generate_groq.py make
-- it: an exception of the client is caught; the content is read by `parse_llm_json`, whose
-- `JSONDecodeError` and `ValidationError` are caught; nothing else is. A reply is the list of its
-- contents: one for each of Groq's `choices`, or the one of Ollama's message, if it has any.
use audit_flow_ai.Base.{
  String, ◌≡◌, ◌≢◌, refl, ◌⊎◌, inl, inr, Option, none, some, List, [], ◌∷◌, arith,
}
use audit_flow_ai.Base.Text.{Tables}
use audit_flow_ai.JsonExtraction.{extract_text, loaded, parse_llm_json}
use audit_flow_ai.Exec.{Result, ok, raised}
use audit_flow_ai.Schemas.Errors.{Raised, json_decode_error, validation_error, other}

-- The attempt gives a value, or ends in an exception that the loop catches, or in one that it does
-- not catch.
pub data Outcome (T : Type 0) : Type 0 where
  judged : T → Outcome T
  retry : Raised → Outcome T
  fault : Raised → Outcome T

-- The first content is missing, or null.
abbrev pub NoContent : List (Option String) → Type 0
NoContent [] = Unit
NoContent (none ∷ _) = Unit
NoContent (some _ ∷ _) = ⊥

module _ {T : Type 0} where
  -- `except (json.JSONDecodeError, ValidationError)`
  abbrev pub parsed : Result T → Outcome T
  parsed (ok j) = judged j
  parsed (raised json_decode_error) = retry json_decode_error
  parsed (raised validation_error) = retry validation_error
  parsed (raised e) = fault e

  -- The first content is taken: `IndexError`, or `KeyError`, where there is none. A null content has no
  -- `strip`: `AttributeError`.
  unfoldable pub outcome : (String → Result T) → Result (List (Option String)) → Outcome T
  outcome parse (raised e) = retry e
  outcome parse (ok []) = fault other
  outcome parse (ok (none ∷ _)) = fault other
  outcome parse (ok (some raw ∷ _)) = parsed (parse raw)

  pub Outcome-cases :
      (o : Outcome T)
      → ((j : T) × (o ≡ judged j)) ⊎ ((e : Raised) × (o ≡ retry e)) ⊎ ((e : Raised) × (o ≡ fault e))
  Outcome-cases (judged j) = inl (j, refl)
  Outcome-cases (retry e) = inr (inl (e, refl))
  Outcome-cases (fault e) = inr (inr (e, refl))

  parsed-eq-judged : (r : Result T) {j : T} → parsed r ≡ judged j → r ≡ ok j
  parsed-eq-judged (ok i) h = ground arith
  parsed-eq-judged (raised json_decode_error) h = cc
  parsed-eq-judged (raised validation_error) h = cc
  parsed-eq-judged (raised _) h = cc

  module _ (parse : String → Result T) where
    pub outcome-eq-judged :
        (r : Result (List (Option String))) {j : T}
        → outcome parse r ≡ judged j
        → (raw : String) × (rest : List (Option String)) × (r ≡ ok (some raw ∷ rest))
          × (parse raw ≡ ok j)
    unfolding outcome
    outcome-eq-judged (raised e) h = cc
    outcome-eq-judged (ok []) h = cc
    outcome-eq-judged (ok (none ∷ _)) h = cc
    outcome-eq-judged (ok (some raw ∷ rest)) h = (raw, rest, refl, parsed-eq-judged (parse raw) h)

    pub outcome_NoContent :
        (contents : List (Option String))
        → NoContent contents
        → outcome parse (ok contents) ≡ fault other
    unfolding outcome
    outcome_NoContent [] h = refl
    outcome_NoContent (none ∷ _) h = refl
    outcome_NoContent (some _ ∷ _) h = absurd h

-- A reply that can be read: it has a content, and `json.loads` raises at most `JSONDecodeError` on it.
pub record IsLegible {Json : Type 0} (t : Tables) (loads : String → Result Json)
    (contents : List (Option String)) : Type 0 where
  pub raw : String
  pub rest : List (Option String)
  pub content : contents ≡ some raw ∷ rest
  pub decodes : (e : Raised) → loads (extract_text t raw) ≡ raised e → e ≡ json_decode_error

module _ {Json T : Type 0} (t : Tables) (loads : String → Result Json)
    (validate : Json → Option T) where
  parsed-loaded :
      (x : Result Json)
      → ((e : Raised) → x ≡ raised e → e ≡ json_decode_error)
      → (e : Raised) → parsed (loaded t loads validate x) ≢ fault e
  parsed-loaded (ok j) h e = ground arith
  parsed-loaded (raised y) h e = rw (h y refl) (ground arith)

  pub outcome-ne-fault :
      (r : Result (List (Option String)))
      → ((contents : List (Option String)) → r ≡ ok contents → IsLegible t loads contents)
      → (e : Raised) → outcome (parse_llm_json t loads validate) r ≢ fault e
  unfolding outcome parse_llm_json
  outcome-ne-fault (raised x) h e = ground arith
  outcome-ne-fault (ok contents) h e =
      let l = h contents refl in
      rw l.content (parsed-loaded (loads (extract_text t l.raw)) l.decodes e)
