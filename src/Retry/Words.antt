-- ===== src/Retry/Words.antt =====
-- Which questions are reformulated: whole words and phrases only.
use Prim.Native.Char.{Char, code}
use mathlib.Core.Bool.{xor}
use text.Mathlib.TextEquality.{Char-path}
use text.Mathlib.TextLemmas.{nil-append, cons-append}
use audit_flow_ai.Base.{
  String, ◌<>◌, ◌≡◌, ◌↔◌, ◌⊎◌, refl, ap, ap₂, inl, inr, Bool, true, false, none, some, List, [],
  ◌∷◌, All, arith, Bool-cases,
}
use audit_flow_ai.Base.Text.{Tables, has_prefix, drop_as}
use audit_flow_ai.Retry.{
  first_word, last_word, matches_at, search_from, search_word, first_phrasing, reformulate_query,
  reformulation_template,
}

has_prefix-append : (s t : String) → has_prefix (s <> t) s ≡ true
unfolding has_prefix
has_prefix-append String.[] t = refl
has_prefix-append (String.◌∷◌ c s) t = rw cons-append (ground (arith, has_prefix-append s t))

drop_as-append : (s t : String) → drop_as (s <> t) s ≡ t
unfolding drop_as
drop_as-append String.[] t = rw nil-append
drop_as-append (String.◌∷◌ c s) t = rw cons-append (drop_as-append s t)

append-drop_as : (s t : String) → has_prefix s t ≡ true → s ≡ t <> drop_as s t
unfolding has_prefix drop_as
append-drop_as String.[] String.[] h = rw nil-append
append-drop_as (String.◌∷◌ c s) String.[] h = rw nil-append
append-drop_as String.[] (String.◌∷◌ d t) h = cc
append-drop_as (String.◌∷◌ c s) (String.◌∷◌ d t) h =
    let e : c ≡ d = Char-path c d (ground arith) in
    let rest : s ≡ t <> drop_as s t = append-drop_as s t (ground arith) in
    rw cons-append (ap₂ String.◌∷◌ e rest)

-- The text holds `trigger` with a word boundary on either side; `before` tells whether a word
-- character stands in front of the text.
pub record WordAt (t : Tables) (before : Bool) (trigger text : String) : Type 0 where
  pub left : String
  pub right : String
  pub split : text ≡ left <> (trigger <> right)
  pub at_start : xor (last_word t before left) (first_word t (trigger <> right)) ≡ true
  pub at_end : xor (last_word t (last_word t before left) trigger) (first_word t right) ≡ true

module _ (t : Tables) (trigger : String) where
  matches_at-WordAt :
      (before : Bool) (text : String)
      → matches_at t before trigger text ≡ true
      → WordAt t before trigger text
  unfolding matches_at
  matches_at-WordAt before text h =
      let e : text ≡ trigger <> drop_as text trigger = append-drop_as text trigger (ground arith) in
      record {
        left = "";
        right = drop_as text trigger;
        split = rw nil-append e;
        at_start = unfold last_word in rw (← e) (ground arith);
        at_end = unfold last_word in ground arith;
      }

  search_from-WordAt :
      (before : Bool) (text : String)
      → search_from t before trigger text ≡ true
      → WordAt t before trigger text
  unfolding search_from
  search_from-WordAt before String.[] h = matches_at-WordAt before "" h
  search_from-WordAt before (String.◌∷◌ c s) h =
      elim (Bool-cases (matches_at t before trigger (String.◌∷◌ c s))) [
        | inl here ↦ matches_at-WordAt before (String.◌∷◌ c s) here
        | inr later ↦
            let w = search_from-WordAt (t.is_word (code c)) s (ground arith) in
            record {
              left = String.◌∷◌ c w.left;
              right = w.right;
              split = rw cons-append (ap (String.◌∷◌ c) w.split);
              at_start = unfold last_word in w.at_start;
              at_end = unfold last_word in w.at_end;
            }
      ]

  search_from_here :
      (before : Bool) (text : String)
      → matches_at t before trigger text ≡ true
      → search_from t before trigger text ≡ true
  unfolding search_from
  search_from_here before String.[] h = h
  search_from_here before (String.◌∷◌ c s) h = rw h

  search_from_later :
      (before : Bool) (c : Char) (text : String)
      → search_from t (t.is_word (code c)) trigger text ≡ true
      → search_from t before trigger (String.◌∷◌ c text) ≡ true
  unfolding search_from
  search_from_later before c text h = ground arith

  search_from_append :
      (left right : String) (before : Bool)
      → xor (last_word t before left) (first_word t (trigger <> right)) ≡ true
      → xor (last_word t (last_word t before left) trigger) (first_word t right) ≡ true
      → search_from t before trigger (left <> (trigger <> right)) ≡ true
  unfolding last_word
  search_from_append String.[] right before h k = rw nil-append (
      search_from_here before (trigger <> right)
        (unfold matches_at in rw (has_prefix-append, drop_as-append) (ground arith)))
  search_from_append (String.◌∷◌ c left) right before h k = rw cons-append (
      search_from_later before c (left <> (trigger <> right))
        (search_from_append left right (t.is_word (code c)) h k))

  -- The search finds exactly the places where the trigger stands as a whole word.
  pub search_word_iff :
      (text : String) → (search_word t trigger text ≡ true) ↔ WordAt t false trigger text
  unfolding search_word
  search_word_iff text = (
    search_from-WordAt false text,
    λ w. rw w.split (search_from_append w.left w.right false w.at_start w.at_end),
  )

module _ (t : Tables) (text : String) where
  -- The first pair whose trigger stands in the text.
  abbrev pub IsFirst : List (String × String) → String → Type 0
  IsFirst [] phrasing = ⊥
  IsFirst ((trigger, found) ∷ template) phrasing =
      (WordAt t false trigger text × (found ≡ phrasing))
      ⊎ ((¬ WordAt t false trigger text) × IsFirst template phrasing)

  first_phrasing-IsFirst :
      (template : List (String × String)) (phrasing : String)
      → first_phrasing t text template ≡ some phrasing
      → IsFirst template phrasing
  unfolding first_phrasing
  first_phrasing-IsFirst [] phrasing h = cc
  first_phrasing-IsFirst ((trigger, found) ∷ template) phrasing h =
      elim (Bool-cases (search_word t trigger text)) [
        | inl hit ↦ inl ((search_word_iff t trigger text).0 hit, ground arith)
        | inr miss ↦ inr (
          λ w. cc (miss, (search_word_iff t trigger text).1 w),
          first_phrasing-IsFirst template phrasing (ground arith),
        )
      ]

  first_phrasing-none :
      (template : List (String × String))
      → first_phrasing t text template ≡ none
      → All (λ e. ¬ WordAt t false e.0 text) template
  unfolding first_phrasing
  first_phrasing-none [] h = tt
  first_phrasing-none ((trigger, found) ∷ template) h =
      elim (Bool-cases (search_word t trigger text)) [
        | inl hit ↦ absurd (ground arith)
        | inr miss ↦ (
          λ w. cc (miss, (search_word_iff t trigger text).1 w),
          first_phrasing-none template (ground arith),
        )
      ]

module _ (t : Tables) (question : String) where
  -- A question is reformulated by the first trigger of the template that stands in it, lowered, as
  -- a whole word or phrase; and it is not reformulated exactly where no trigger stands so in it.
  pub reformulate_query_lem :
      ((phrasing : String)
        → reformulate_query t question ≡ some phrasing
        → IsFirst t (t.lower question) reformulation_template phrasing)
      × (reformulate_query t question ≡ none
          → All (λ e. ¬ WordAt t false e.0 (t.lower question)) reformulation_template)
  unfolding reformulate_query
  reformulate_query_lem = (
    λ phrasing h. first_phrasing-IsFirst t (t.lower question) reformulation_template phrasing h,
    λ h. first_phrasing-none t (t.lower question) reformulation_template h,
  )
