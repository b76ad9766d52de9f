-- ===== src/Chunking/Regex.antt =====
-- The part of Python's `re` that title_parser.py and chunker.py use: a matcher that tries the choices in
-- order and goes back, and `re.sub`. A position is the code point before it and the text behind it.
use Prim.Native.Char.{code}
use audit_flow_ai.Base.{
  ℕ, zero, suc, String, ◌<>◌, Bool, true, false, not, ◌||◌, ◌&&◌, Option, none, some, nat_eq, leb,
  if◌then◌else◌,
}
use audit_flow_ai.Base.Text.{count}

pub data Re : Type 0 where
  one : (ℕ → Bool) → Re
  empty : Re
  seq : Re → Re → Re
  either : Re → Re → Re
  star : Re → Re
  -- `\b`, `(?<![…])`, `(?![…])` and `$`
  boundary : Re
  not_behind : (ℕ → Bool) → Re
  not_ahead : (ℕ → Bool) → Re
  end : Re

abbrev pub Position : Type 0
Position = Option ℕ × String

abbrev Next : Type 0
Next = Position → Option Position

abbrev or_else : Option Position → Option Position → Option Position
or_else none q = q
or_else (some p) q = some p

abbrev behind : (ℕ → Bool) → Option ℕ → Bool
behind p none = false
behind p (some c) = p c

abbrev ahead : (ℕ → Bool) → String → Bool
ahead p String.[] = false
ahead p (String.◌∷◌ c s) = p (code c)

-- at the end, or before the line break at the end
abbrev at_end : String → Bool
at_end String.[] = true
at_end (String.◌∷◌ c String.[]) = nat_eq (code c) b'\n'
at_end (String.◌∷◌ c (String.◌∷◌ d s)) = false

abbrev when : Bool → Option Position → Option Position
when true p = p
when false p = none

-- as often as it matches, then fewer; `n` is the length of the text, and each match takes a code point
abbrev repeat : ((Position → Next → Option Position)) → ℕ → Position → Next → Option Position
repeat m zero p k = k p
repeat m (suc n) p k = or_else (m p (λ q. repeat m n q k)) (k p)

module _ (is_word : ℕ → Bool) where
  -- The position behind the first match at a position after which `k` goes on.
  unfoldable pub match : Re → Position → Next → Option Position
  match (one c) (prev, String.[]) k = none
  match (one c) (prev, String.◌∷◌ d s) k = when (c (code d)) (k (some (code d), s))
  match empty p k = k p
  match (seq r t) p k = match r p (λ q. match t q k)
  match (either r t) p k = or_else (match r p k) (match t p k)
  match (star r) p k = repeat (match r) (count p.1) p k
  match boundary p k =
      let before = behind is_word p.0 in
      let after = ahead is_word p.1 in when ((before && not after) || (not before && after)) (k p)
  match (not_behind c) p k = when (not (behind c p.0)) (k p)
  match (not_ahead c) p k = when (not (ahead c p.1)) (k p)
  match end p k = when (at_end p.1) (k p)

  -- `re.sub` for a pattern that matches no empty text; `n` is the length of the text
  unfoldable pub sub_from : ℕ → Re → String → Position → String
  unfolding match
  sub_from zero r replacement p = p.1
  sub_from (suc n) r replacement (prev, String.[]) = ""
  sub_from (suc n) r replacement (prev, String.◌∷◌ c s) =
      elim (match r (prev, String.◌∷◌ c s) some) [
        | none ↦ String.◌∷◌ c (sub_from n r replacement (some (code c), s))
        | some q ↦ replacement <> sub_from n r replacement q
      ]

  unfoldable pub sub : Re → String → String → String
  unfolding sub_from
  sub r replacement text = sub_from (count text) r replacement (none, text)

-- `re.sub("[…]+", replacement, text)`: a run of the class becomes one replacement.
unfoldable pub collapse : (ℕ → Bool) → String → Bool → String → String
collapse p replacement inside String.[] = ""
collapse p replacement inside (String.◌∷◌ c s) =
    let in_run = collapse p replacement true s in
    let out_of_run = collapse p replacement false s in
    if p (code c)
    then (if inside then in_run else replacement <> in_run)
    else String.◌∷◌ c out_of_run

abbrev pub is_upper : ℕ → Bool
is_upper c = leb b'A' c && leb c b'Z'

abbrev pub is_lower : ℕ → Bool
is_lower c = leb b'a' c && leb c b'z'

abbrev pub is_ascii_digit : ℕ → Bool
is_ascii_digit c = leb b'0' c && leb c b'9'
