-- ===== src/JsonExtraction/Spans.antt =====
-- The fences and the stray text around a JSON object do not change what is read.
use Prim.Native.Char.{code}
use audit_flow_ai.Base.{
  ℕ, String, ◌≡◌, ◌∙◌, refl, Bool, true, false, none, some, arith, nat_eq, Bool-cases, inl, inr,
}
use audit_flow_ai.Base.Text.{Tables, strip, strip_left, strip_right, is_blank, has_prefix, drop_as}
use audit_flow_ai.JsonExtraction.{from_first, upto_last, brace_span, unfence, extract_text}

-- The span from the first `{` to the last `}`, where they stand in that order.
pub record IsSpan (text body : String) : Type 0 where
  pub tail : String
  pub first : from_first b'{' text ≡ some tail
  pub last : upto_last b'}' tail ≡ some body

module _ (p : ℕ → Bool) (k : ℕ) (keeps : p k ≡ false) where
  nat_eq_keeps : (n : ℕ) → p n ≡ true → nat_eq n k ≡ false
  nat_eq_keeps n h = ground arith

  from_first-strip_left : (s : String) → from_first k (strip_left p s) ≡ from_first k s
  unfolding from_first strip_left
  from_first-strip_left String.[] = refl
  from_first-strip_left (String.◌∷◌ c s) =
      ground (arith, nat_eq_keeps (code c), from_first-strip_left s)

  upto_last-is_blank : (s : String) → is_blank s ≡ true → upto_last k s ≡ none
  unfolding upto_last is_blank
  upto_last-is_blank String.[] h = refl
  upto_last-is_blank (String.◌∷◌ c s) h = cc

  upto_last-strip_right : (s : String) → upto_last k (strip_right p s) ≡ upto_last k s
  unfolding upto_last strip_right
  upto_last-strip_right String.[] = refl
  upto_last-strip_right (String.◌∷◌ c s) =
      ground (
        arith,
        nat_eq_keeps (code c),
        upto_last-strip_right s,
        upto_last-is_blank (strip_right p s),
      )

  from_first-is_blank : (s : String) → is_blank s ≡ true → from_first k s ≡ none
  unfolding from_first is_blank
  from_first-is_blank String.[] h = refl
  from_first-is_blank (String.◌∷◌ c s) h = cc

  from_first-strip_right :
      (s : String) (u : String)
      → from_first k s ≡ some u
      → from_first k (strip_right p s) ≡ some (strip_right p u)
  unfolding from_first strip_right
  from_first-strip_right String.[] u h = cc
  from_first-strip_right (String.◌∷◌ c s) u h = elim (Bool-cases (nat_eq (code c) k)) [
    | inl here ↦
        let e : String.◌∷◌ c s ≡ u = ground arith in
        rw (← e) (ground (arith, nat_eq_keeps (code c)))
    | inr later ↦ ground (arith, from_first-strip_right s u, from_first-is_blank (strip_right p s))
  ]

-- Stripping characters that are neither brace keeps the span.
strip-IsSpan :
    (p : ℕ → Bool)
    → p b'{' ≡ false
    → p b'}' ≡ false
    → {s body : String} → IsSpan s body
    → IsSpan (strip p s) body
unfolding strip
strip-IsSpan p open_kept close_kept {s} h = record {
  tail = strip_right p h.tail;
  first =
      from_first-strip_right p b'{' open_kept (strip_left p s) h.tail
        (from_first-strip_left p b'{' open_kept s ∙ h.first);
  last = upto_last-strip_right p b'}' close_kept h.tail ∙ h.last;
}

-- A tail that ends in a last brace ends in it within the whole text too.
upto_last-from_first :
    (j k : ℕ) (s tail body : String)
    → from_first j s ≡ some tail
    → upto_last k tail ≡ some body
    → (b : String) × (upto_last k s ≡ some b)
unfolding from_first upto_last
upto_last-from_first j k String.[] tail body h l = cc
upto_last-from_first j k (String.◌∷◌ c s) tail body h l = elim (Bool-cases (nat_eq (code c) j)) [
  | inl here ↦ let e : String.◌∷◌ c s ≡ tail = ground arith in (body, rw (← e) at l)
  | inr later ↦
      let (b, found) = upto_last-from_first j k s tail body (ground arith) l in
      (String.◌∷◌ c b, ground arith)
]

brace_span-IsSpan : {s body : String} → IsSpan s body → brace_span s ≡ body
unfolding brace_span
brace_span-IsSpan {s} {body} h =
    let (b, found) = upto_last-from_first b'{' b'}' s h.tail body h.first h.last in
    rw (h.first, brace_span) (rw (found, brace_span) (rw h.last))

-- What Python's tables say of the characters around a JSON object: no brace is white space, and
-- lowering a text that begins with four other letters does not make it begin with "json".
pub record KeepsBraces (t : Tables) : Type 0 where
  pub open_brace : t.is_space b'{' ≡ false
  pub close_brace : t.is_space b'}' ≡ false
  pub json_word :
      (s : String)
      → has_prefix (t.lower s) "json" ≡ true
      → from_first b'{' (drop_as s "json") ≡ from_first b'{' s

module _ (t : Tables) (laws : KeepsBraces t) where
  unfence-IsSpan : {s body : String} → IsSpan s body → IsSpan (unfence t s) body
  unfolding unfence
  unfence-IsSpan {s} {body} h = elim (Bool-cases (has_prefix s "```")) [
    | inr plain ↦ rw plain h
    | inl fenced ↦
        let bare : IsSpan (strip (λ c. nat_eq c b'`') s) body =
          strip-IsSpan (λ c. nat_eq c b'`') refl refl h in
        rw fenced (elim (Bool-cases (has_prefix (t.lower (strip (λ c. nat_eq c b'`') s)) "json")) [
          | inr other ↦ rw other bare
          | inl tagged ↦ rw tagged (
              strip-IsSpan t.is_space laws.open_brace laws.close_brace (record {
                tail = bare.tail;
                first = laws.json_word _ tagged ∙ bare.first;
                last = bare.last;
              }))
        ])
  ]

  -- Where Python's tables are as `KeepsBraces` says, for a text with a first `{` and a last `}`
  -- behind it: white space, Markdown fences and the word `json` around the text, and whatever
  -- stands before the first `{` or behind the last `}`, are dropped: what is handed to `json.loads`
  -- is exactly the span from the first `{` to the last `}`.
  pub extract_text-IsSpan : (raw body : String) → IsSpan raw body → extract_text t raw ≡ body
  unfolding extract_text
  extract_text-IsSpan raw body h =
      brace_span-IsSpan
        (unfence-IsSpan (strip-IsSpan t.is_space laws.open_brace laws.close_brace h))
