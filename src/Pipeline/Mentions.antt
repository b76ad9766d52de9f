-- ===== src/Pipeline/Mentions.antt =====
-- Which document a question names.
use audit_flow_ai.Base.{
  ℕ, String, ◌≡◌, ◌≢◌, refl, ◌⊎◌, inl, inr, false, Option, none, some, List, [], ◌∷◌, In, eq_iff,
  sym, ◌∙◌, arith, Bool-cases,
}
use audit_flow_ai.Base.Dict.{Dict, keys}
use audit_flow_ai.Base.Text.{Tables, is_blank, has_infix, split, replace}
use audit_flow_ai.Pipeline.{
  Identity, Scan, named, best, is_active, scan_words, scan_names, scan_docs,
  mentions_different_contract,
}

-- A scan of `doc_id` names it, or leaves the best match or replaces it by `doc_id`.
abbrev Stays : String → Option String → Scan → Type 0
Stays doc_id match (named d) = d ≡ doc_id
Stays doc_id match (best match' len) = (match' ≡ match) ⊎ (match' ≡ some doc_id)

Stays-trans :
    (doc_id : String) (match match' : Option String) (s : Scan)
    → (match' ≡ match) ⊎ (match' ≡ some doc_id)
    → Stays doc_id match' s
    → Stays doc_id match s
Stays-trans doc_id match match' (named d) h k = k
Stays-trans doc_id match match' (best match'' len) h k = ground arith

Stays-bind :
    (doc_id : String) (match : Option String) (g : Option String → ℕ → Scan) (s : Scan)
    → Stays doc_id match s
    → ((match' : Option String) (len' : ℕ) → Stays doc_id match' (g match' len'))
    → Stays doc_id match (elim s [ named d ↦ named d | best match' len' ↦ g match' len' ])
Stays-bind doc_id match g (named d) h k = h
Stays-bind doc_id match g (best match' len') h k =
    Stays-trans doc_id match match' _ h (k match' len')

module _ (t : Tables) (qw : List String) (doc_id : String) where
  scan_words-Stays :
      (words : List String) (match : Option String) (len : ℕ)
      → Stays doc_id match (scan_words t qw doc_id words match len)
  unfolding scan_words
  scan_words-Stays [] match len = inl refl
  scan_words-Stays (word ∷ words) match len =
      Stays-trans doc_id match _ _ (ground arith) (scan_words-Stays words _ _)

  module _ (ql : String) where
    scan_names-Stays :
        (names : List String) (match : Option String) (len : ℕ)
        → Stays doc_id match (scan_names t ql qw doc_id names match len)
    unfolding scan_names
    scan_names-Stays [] match len = inl refl
    scan_names-Stays (name ∷ names) match len = elim (Bool-cases (is_blank name)) [
      | inl blank ↦ rw blank (scan_names-Stays names match len)
      | inr filled ↦ elim (Bool-cases (has_infix ql (t.lower name))) [
        | inl whole ↦ rw (filled, whole) refl
        | inr part ↦
            rw (filled, part)
              (Stays-bind doc_id match (scan_names t ql qw doc_id names) _
                (scan_words-Stays
                  (split t.is_space (replace b'.' "" (replace b',' "" (t.lower name)))) match len)
                (scan_names-Stays names))
      ]
    ]

not_active : (d : String) (active : Option String) → is_active d active ≡ false → active ≢ some d
unfolding is_active
not_active d none h e = cc
not_active d (some a) h e = ground (arith, eq_iff d a)

Scan-cases :
    (s : Scan)
    → ((d : String) × (s ≡ named d)) ⊎ ((match : Option String) × (len : ℕ) × (s ≡ best match len))
Scan-cases (named d) = inl (d, refl)
Scan-cases (best match len) = inr (match, len, refl)

-- A document of the corpus other than the active one.
abbrev pub Elsewhere : Option String → String → Dict Identity → Type 0
Elsewhere active d docs = In d (keys docs) × (active ≢ some d)

Elsewhere-later :
    (active match : Option String) (d doc_id : String) (identity : Identity) (docs : Dict Identity)
    → (match ≡ some d) ⊎ Elsewhere active d docs
    → (match ≡ some d) ⊎ Elsewhere active d ((doc_id, identity) ∷ docs)
unfolding keys
Elsewhere-later active match d doc_id identity docs (inl e) = inl e
Elsewhere-later active match d doc_id identity docs (inr (m, n)) = inr (inr m, n)

module _ (t : Tables) (ql : String) (qw : List String) (active : Option String) (d : String) where
  found_here :
      (doc_id : String) (identity : Identity) (docs : Dict Identity)
      → is_active doc_id active ≡ false
      → doc_id ≡ d
      → Elsewhere active d ((doc_id, identity) ∷ docs)
  unfolding keys
  found_here doc_id identity docs other e = (inl (sym e), rw (← e) (not_active doc_id active other))

  scan_docs-Elsewhere :
      (docs : Dict Identity) (match : Option String) (len : ℕ)
      → scan_docs t ql qw active docs match len ≡ some d
      → (match ≡ some d) ⊎ Elsewhere active d docs
  unfolding scan_docs
  scan_docs-Elsewhere [] match len h = inl h
  scan_docs-Elsewhere ((doc_id, identity) ∷ docs) match len h =
      let names : List String = identity.company_name ∷ identity.counterparty_name ∷ [] in
      elim (Bool-cases (is_active doc_id active)) [
        | inl same ↦
            Elsewhere-later active match d doc_id identity docs
              (scan_docs-Elsewhere docs match len (ground arith))
        | inr other ↦ elim (Scan-cases (scan_names t ql qw doc_id names match len)) [
          | inl (d', e) ↦
              let here : d' ≡ doc_id = rw e at (scan_names-Stays t qw doc_id ql names match len) in
              inr (found_here doc_id identity docs other (ground arith))
          | inr (match', len', e) ↦
              let stays : (match' ≡ match) ⊎ (match' ≡ some doc_id) =
                rw e at (scan_names-Stays t qw doc_id ql names match len) in
              elim (scan_docs-Elsewhere docs match' len' (ground arith)) [
                | inr (m, n) ↦ Elsewhere-later active match d doc_id identity docs (inr (m, n))
                | inl carried ↦ elim stays [
                  | inl old ↦ inl (sym old ∙ carried)
                  | inr new ↦ inr (found_here doc_id identity docs other (ground arith))
                ]
              ]
        ]
      ]

module _ (t : Tables) where
  -- A document that the question is found to name is one of the corpus, and never the active one.
  pub mentions_different_contract-Elsewhere :
      (question : String) (identities : Dict Identity) (active : Option String) (d : String)
      → mentions_different_contract t question identities active ≡ some d
      → Elsewhere active d identities
  unfolding mentions_different_contract
  mentions_different_contract-Elsewhere question identities active d h =
      elim (scan_docs-Elsewhere t _ _ active d identities none 0 h) [
        | inl e ↦ absurd (ground arith)
        | inr found ↦ found
      ]
