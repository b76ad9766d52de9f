-- ===== src/Chunking/Plain.antt =====
-- Texts without a colon, which the ids of documents are.
use mathlib.Core.Path.{ap₂}
use Prim.Native.String.append
use Prim.Native.Char.{Char, code}
use audit_flow_ai.Base.{
  ℕ, zero, suc, String, ◌<>◌, Bool, true, false, not, ◌&&◌, ◌≡◌, refl, sym, ap, ◌∙◌, nat_eq,
  if◌then◌else◌, Bool-cases, inl, inr, arith,
}
use audit_flow_ai.Base.Text.{strip_left, strip_right}
use audit_flow_ai.Chunking.Regex.{collapse}
use audit_flow_ai.Chunking.Records.{is_no_alnum, take_text}

-- A text without a colon
unfoldable pub plain : String → Bool
plain String.[] = true
plain (String.◌∷◌ c s) = not (nat_eq (code c) b':') && plain s

abbrev head_or : Char → String → Char
head_or c String.[] = c
head_or c (String.◌∷◌ d s) = d

abbrev tail : String → String
tail String.[] = ""
tail (String.◌∷◌ d s) = s

colons : (d : Char) (x : String) → code (head_or d ("::" <> x)) ≡ b':'
colons d x = ap (λ s. code (head_or d s)) (append.cons _ ":" x)

-- The part before the first "::" is given by the text.
pub plain_unique :
    (a b x y : String) → plain a ≡ true → plain b ≡ true → a <> "::" <> x ≡ b <> "::" <> y → a ≡ b
unfolding plain
plain_unique String.[] String.[] x y p q e = refl
plain_unique String.[] (String.◌∷◌ d b) x y p q e =
    let here : "::" <> x ≡ String.◌∷◌ d (b <> "::" <> y) =
      sym (append.nil ("::" <> x)) ∙ e ∙ append.cons d b ("::" <> y) in
    let h : b':' ≡ code d = sym (colons d x) ∙ ap (λ s. code (head_or d s)) here in
    absurd (ground (arith, h, q))
plain_unique (String.◌∷◌ c a) String.[] x y p q e =
    let here : String.◌∷◌ c (a <> "::" <> x) ≡ "::" <> y =
      sym (append.cons c a ("::" <> x)) ∙ e ∙ append.nil ("::" <> y) in
    let h : code c ≡ b':' = ap (λ s. code (head_or c s)) here ∙ colons c y in
    absurd (ground (arith, h, p))
plain_unique (String.◌∷◌ c a) (String.◌∷◌ d b) x y p q e =
    let here : String.◌∷◌ c (a <> "::" <> x) ≡ String.◌∷◌ d (b <> "::" <> y) =
      sym (append.cons c a ("::" <> x)) ∙ e ∙ append.cons d b ("::" <> y) in
    ap₂ String.◌∷◌ (ap (head_or c) here)
      (plain_unique a b x y (ground (arith, p)) (ground (arith, q)) (ap tail here))

pub plain-take_text : (n : ℕ) (s : String) → plain s ≡ true → plain (take_text n s) ≡ true
unfolding plain take_text
plain-take_text zero s h = refl
plain-take_text (suc n) String.[] h = refl
plain-take_text (suc n) (String.◌∷◌ c s) h = ground (arith, plain-take_text n s)

pub plain-strip_left : (p : ℕ → Bool) (s : String) → plain s ≡ true → plain (strip_left p s) ≡ true
unfolding plain strip_left
plain-strip_left p String.[] h = refl
plain-strip_left p (String.◌∷◌ c s) h = ground (arith, plain-strip_left p s)

pub plain-strip_right :
    (p : ℕ → Bool) (s : String) → plain s ≡ true → plain (strip_right p s) ≡ true
unfolding plain strip_right
plain-strip_right p String.[] h = refl
plain-strip_right p (String.◌∷◌ c s) h = ground (arith, plain-strip_right p s)

no_colon : (c : ℕ) → is_no_alnum c ≡ false → not (nat_eq c b':') ≡ true
no_colon c h = ground arith

plain-dash : (s : String) → plain s ≡ true → plain ("-" <> s) ≡ true
unfolding plain
plain-dash s h =
    ap plain (append.cons "-" "" s) ∙ ap (λ t. plain (String.◌∷◌ "-" t)) (append.nil s) ∙ h

plain-run : (b : Bool) (s : String) → plain s ≡ true → plain (if b then s else "-" <> s) ≡ true
plain-run true s h = h
plain-run false s h = plain-dash s h

pub plain-collapse : (inside : Bool) (s : String) → plain (collapse is_no_alnum "-" inside s) ≡ true
unfolding plain collapse
plain-collapse inside String.[] = refl
plain-collapse inside (String.◌∷◌ c s) = elim (Bool-cases (is_no_alnum (code c))) [
  | inl e ↦
      let rest = plain-collapse true s in
      rw (e, collapse) (plain-run inside (collapse is_no_alnum "-" true s) rest)
  | inr e ↦ rw (e, collapse) (ap₂ ◌&&◌ (no_colon (code c) e) (plain-collapse false s))
]
