-- ===== src/Base/Text.antt =====
-- The methods of `str` that the program calls. Which code points are white space, how a text is
-- lowered, and which are word characters of `re` are the tables of Python's Unicode data: `Tables`.
use Prim.Native.Nat.{ℕ, suc}
use Prim.Native.Char.{code}
use Prim.Native.String.{String, ◌++◌ as ◌<>◌}
use mathlib.Core.Bool.{Bool, true, false, ◌&&◌, ◌||◌}
use mathlib.Core.List.{List, [], ◌∷◌}
use audit_flow_ai.Base.Tests.{nat_eq, if◌then◌else◌}

pub record Tables : Type 0 where
  pub is_space : ℕ → Bool
  pub is_word : ℕ → Bool
  pub lower : String → String

-- An empty text is false in a test.
unfoldable pub is_blank : String → Bool
is_blank String.[] = true
is_blank (String.◌∷◌ c s) = false

-- `len(s)`, in code points
unfoldable pub count : String → ℕ
count String.[] = 0
count (String.◌∷◌ c s) = suc (count s)

-- `s.startswith(t)`
unfoldable pub has_prefix : String → String → Bool
has_prefix s String.[] = true
has_prefix String.[] (String.◌∷◌ d t) = false
has_prefix (String.◌∷◌ c s) (String.◌∷◌ d t) = nat_eq (code c) (code d) && has_prefix s t

-- `t in s`
unfoldable pub has_infix : String → String → Bool
unfolding has_prefix
has_infix String.[] t = has_prefix "" t
has_infix (String.◌∷◌ c s) t = has_prefix (String.◌∷◌ c s) t || has_infix s t

-- the text without its first `n` code points, for `n = len(t)`
unfoldable pub drop_as : String → String → String
drop_as s String.[] = s
drop_as String.[] (String.◌∷◌ d t) = ""
drop_as (String.◌∷◌ c s) (String.◌∷◌ d t) = drop_as s t

module _ (p : ℕ → Bool) where
  -- `s.lstrip(chars)` and `s.rstrip(chars)`, for the set of characters `p`
  unfoldable pub strip_left : String → String
  strip_left String.[] = ""
  strip_left (String.◌∷◌ c s) =
      let rest = strip_left s in if p (code c) then rest else String.◌∷◌ c s

  unfoldable pub strip_right : String → String
  unfolding is_blank
  strip_right String.[] = ""
  strip_right (String.◌∷◌ c s) =
      let rest = strip_right s in if p (code c) && is_blank rest then "" else String.◌∷◌ c rest

  unfoldable pub strip : String → String
  unfolding strip_left strip_right
  strip s = strip_right (strip_left s)

  unfoldable pub push_word : String → List String → List String
  push_word String.[] words = words
  push_word (String.◌∷◌ c w) words = String.◌∷◌ c w ∷ words

  -- the words that are left, behind the letters `word` of the word that has begun
  unfoldable pub split_from : String → String → List String
  unfolding push_word
  split_from word String.[] = push_word word []
  split_from word (String.◌∷◌ c s) =
      if p (code c)
      then push_word word (split_from "" s)
      else split_from (word <> String.◌∷◌ c "") s

  -- `s.split()`
  unfoldable pub split : String → List String
  unfolding split_from
  split s = split_from "" s

-- `s.replace(c, t)` for one character `c`
unfoldable pub replace : ℕ → String → String → String
replace k t String.[] = ""
replace k t (String.◌∷◌ c s) = (if nat_eq (code c) k then t else String.◌∷◌ c "") <> replace k t s
