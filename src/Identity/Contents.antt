-- ===== src/Identity/Contents.antt =====
-- Which documents the cache and the results have, before and after the calls.
use audit_flow_ai.Base.{
  String, ◌==◌, Bool, true, false, not, ◌&&◌, ◌||◌, ◌≡◌, refl, sym, ap, ◌∙◌, List, [], ◌∷◌, map,
  is_none, if◌then◌else◌, Bool-cases, Option-cases, inl, inr, eq_iff, arith, All,
}
use audit_flow_ai.Base.Dict.{Dict, get, put, contains, get-put}
use audit_flow_ai.Chunking.Records.{DocumentIdentity}
use audit_flow_ai.Exec.{Result, ok, raised}
use audit_flow_ai.Identity.{
  ExtractedIdentity, Extractor, call, from_groq, from_gemini, identity_of, failed_identity,
  extract_one, cached, to_process, extract_each,
}

abbrev pub has : Dict DocumentIdentity → String → Bool
has d k = not (is_none (get k d))

abbrev pub hashes : List (String × String) → List String
hashes docs = map (λ d. d.0) docs

has-put :
    (d : Dict DocumentIdentity) (i k : String) (v : DocumentIdentity)
    → has (put i v d) k ≡ has d k || (i == k)
has-put d i k v = ground (arith, get-put i k v d)

-- Equal keys find the same.
has_same : (d : Dict DocumentIdentity) (h k : String) → (h == k) && has d k ≡ (h == k) && has d h
has_same d h k = elim (Bool-cases (h == k)) [
  | inl e ↦ ap (λ j. (h == k) && has d j) (sym ((eq_iff h k).0 e))
  | inr e ↦ rw e refl
]

-- A document that is not in the cache adds nothing to what is cached, and one that is adds itself.
miss :
    (e r b c m : Bool)
    → m ≡ false
    → e && c ≡ e && m
    → r || (b && c) ≡ r || ((if e then true else b) && c)
miss e r b c m h i = ground arith

hit :
    (e r b c m : Bool)
    → m ≡ true
    → e && c ≡ e && m
    → (r || e) || (b && c) ≡ r || ((if e then true else b) && c)
hit e r b c m h i = ground arith

-- A document is processed where it is not in the cache.
left_out :
    (e b c m : Bool)
    → m ≡ false
    → e && c ≡ e && m
    → (if e then true else b && not c) ≡ (if e then true else b) && not c
left_out e b c m h i = ground arith

left_in :
    (e b c m : Bool) → m ≡ true → e && c ≡ e && m → b && not c ≡ (if e then true else b) && not c
left_in e b c m h i = ground arith

module _ (x : Extractor) where
  from_groq_hash :
      (h hint : String) (r : Result ExtractedIdentity × x.World)
      → (from_groq x h hint r).0.document_hash ≡ h
  unfolding from_groq identity_of failed_identity
  from_groq_hash h hint (ok e, w) = refl
  from_groq_hash h hint (raised e, w) = refl

  from_gemini_hash :
      (h hint prompt : String) (r : Result ExtractedIdentity × x.World)
      → (from_gemini x h hint prompt r).0.document_hash ≡ h
  unfolding from_gemini identity_of
  from_gemini_hash h hint prompt (ok e, w) = refl
  from_gemini_hash h hint prompt (raised e, w) = from_groq_hash h hint (call x x.groq prompt w)

  extract_one_hash :
      (h preamble : String) (w : x.World) → (extract_one x h preamble w).0.document_hash ≡ h
  unfolding extract_one
  extract_one_hash h preamble w = from_gemini_hash h _ _ (call x x.gemini _ w)

  abbrev Both : Type 0
  Both = Dict DocumentIdentity × Dict DocumentIdentity

  -- Both dicts then have what they had and the documents.
  pub extract_each-has :
      (docs : List (String × String)) (results cache : Dict DocumentIdentity) (w : x.World)
      (k : String)
      → (has (extract_each x docs (results, cache) w).0.0 k
          ≡ has results k || contains (hashes docs) k)
        × (has (extract_each x docs (results, cache) w).0.1 k
            ≡ has cache k || contains (hashes docs) k)
  unfolding extract_each contains
  extract_each-has [] results cache w k = (ground arith, ground arith)
  extract_each-has ((h, preamble) ∷ docs) results cache w k =
      let found = extract_one x h preamble w in
      let i = found.0.document_hash in
      let same : i ≡ h = extract_one_hash h preamble w in
      let (e, f) = extract_each-has docs (put i found.0 results) (put i found.0 cache) found.1 k in
      (
        e ∙ step results i h k found.0 same (contains (hashes docs) k),
        f ∙ step cache i h k found.0 same (contains (hashes docs) k),
      )
    where
      step :
          (d : Dict DocumentIdentity) (i h k : String) (v : DocumentIdentity)
          → i ≡ h
          → (b : Bool) → has (put i v d) k || b ≡ has d k || (if h == k then true else b)
      step d i h k v same b =
          ap (λ y. y || b) (has-put d i k v)
          ∙ ap (λ j. (has d k || (j == k)) || b) same
          ∙ ground arith

  pub has-cached :
      (cache : Dict DocumentIdentity) (docs : List (String × String))
      (results : Dict DocumentIdentity) (k : String)
      → has (cached x cache docs results) k
        ≡ has results k || (contains (hashes docs) k && has cache k)
  unfolding cached contains
  has-cached cache [] results k = ground arith
  has-cached cache ((h, preamble) ∷ docs) results k = elim (Option-cases (get h cache)) [
    | inl e ↦
        rw (e, cached)
          (has-cached cache docs results k
            ∙ miss (h == k) (has results k) (contains (hashes docs) k) (has cache k) (has cache h)
                (ap (λ o. not (is_none o)) e) (has_same cache h k))
    | inr (v, e) ↦
        rw (e, cached)
          (has-cached cache docs (put h v results) k
            ∙ ap (λ b. b || (contains (hashes docs) k && has cache k)) (has-put results h k v)
            ∙ hit (h == k) (has results k) (contains (hashes docs) k) (has cache k) (has cache h)
                (ap (λ o. not (is_none o)) e) (has_same cache h k))
  ]

  pub to_process-has :
      (cache : Dict DocumentIdentity) (docs : List (String × String)) (k : String)
      → contains (hashes (to_process x cache docs)) k
        ≡ contains (hashes docs) k && not (has cache k)
  unfolding to_process contains
  to_process-has cache [] k = refl
  to_process-has cache ((h, preamble) ∷ docs) k = elim (Option-cases (get h cache)) [
    | inl e ↦
        rw (e, to_process)
          (ap (λ b. if h == k then true else b) (to_process-has cache docs k)
            ∙ left_out (h == k) (contains (hashes docs) k) (has cache k) (has cache h)
                (ap (λ o. not (is_none o)) e) (has_same cache h k))
    | inr (v, e) ↦
        rw (e, to_process)
          (to_process-has cache docs k
            ∙ left_in (h == k) (contains (hashes docs) k) (has cache k) (has cache h)
                (ap (λ o. not (is_none o)) e) (has_same cache h k))
  ]

  pub nothing_left :
      (cache : Dict DocumentIdentity) (docs : List (String × String))
      → All (λ d. has cache d.0 ≡ true) docs
      → to_process x cache docs ≡ []
  unfolding to_process
  nothing_left cache [] h = refl
  nothing_left cache ((i, preamble) ∷ docs) h = elim (Option-cases (get i cache)) [
    | inl e ↦ absurd (ground (arith, h.0, e))
    | inr (v, e) ↦ rw (e, to_process) (nothing_left cache docs h.1)
  ]
