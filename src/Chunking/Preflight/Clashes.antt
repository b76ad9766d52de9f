-- ===== src/Chunking/Preflight/Clashes.antt =====
-- Which titles the preflight check reports: those of two titles with one id.
use mathlib.Core.Path.{subst}
use audit_flow_ai.Base.{
  String, ◌==◌, Bool, true, false, not, ◌&&◌, ◌||◌, ◌≡◌, refl, ap, ap₂, ◌∙◌, Option, none, some,
  List, [], ◌∷◌, ◌++◌, any, is_empty, if◌then◌else◌, Bool-cases, inl, inr, eq_iff, arith,
}
use audit_flow_ai.Base.Dict.{Dict, get, put, get-put}
use audit_flow_ai.Chunking.Records.{Chunker, Contract, document_id_for}
use audit_flow_ai.Chunking.Preflight.{
  Collision, clash, claim_id, id_collisions, titles, check_titles,
}

append_empty : (xs ys : List Collision) → is_empty (xs ++ ys) ≡ is_empty xs && is_empty ys
append_empty [] ys = refl
append_empty (x ∷ xs) ys = refl

regroup :
    (a b c e f : Bool) → e ≡ true → a ≡ not f → (a && not b) && c ≡ not (not e || f) && (not b && c)
regroup a b c e f h g = ground arith

module _ (k : Chunker) where
  -- Two titles, not the same, with one id
  abbrev pub clashes : String → String → Bool
  clashes a b = (document_id_for k a == document_id_for k b) && not (a == b)

  -- No two titles of a list clash.
  abbrev pub no_clash : List String → Bool
  no_clash [] = true
  no_clash (t ∷ ts) = not (any (clashes t) ts) && no_clash ts

  -- whether a title may take an id that `o` has
  abbrev free : Option String → String → Bool
  free none t = true
  free (some a) t = a == t

  is_empty-clash : (i t : String) (o : Option String) → is_empty (clash i t o) ≡ free o t
  unfolding clash
  is_empty-clash i t none = refl
  is_empty-clash i t (some a) = ground arith

  abbrev free_id : Dict String → String → Bool
  free_id seen t = free (get (document_id_for k t) seen) t

  free_same :
      (o : Option String) (t u : String)
      → free o t ≡ true
      → (t == u) ≡ free o u && not (true && not (t == u))
  free_same none t u e = ground arith
  free_same (some a) t u e =
      let same : a ≡ t = (eq_iff a t).0 e in
      subst (λ b. (b == u) ≡ (a == u) && not (true && not (b == u))) same (ground arith)

  -- Once a title has its id, a later one finds its own free where it did and where they do not clash.
  free_later :
      (i j t u : String) (seen : Dict String)
      → free (get i seen) t ≡ true
      → free (get j (put i t seen)) u ≡ free (get j seen) u && not ((i == j) && not (t == u))
  free_later i j t u seen e = elim (Bool-cases (i == j)) [
    | inl f ↦
        let same : i ≡ j = (eq_iff i j).0 f in
        rw (get-put i j t seen, f)
          (free_same (get j seen) t u (subst (λ x. free (get x seen) t ≡ true) same e))
    | inr f ↦ rw (get-put i j t seen, f) (ground arith)
  ]

  all_later :
      (p q r : String → Bool) (ts : List String)
      → ((u : String) → p u ≡ q u && not (r u))
      → not (any (λ u. not (p u)) ts) ≡ not (any (λ u. not (q u)) ts) && not (any r ts)
  all_later p q r [] h = refl
  all_later p q r (t ∷ ts) h = ground (arith, h t, all_later p q r ts h)

  reported :
      (ts : List String) (seen : Dict String)
      → is_empty (id_collisions k seen ts) ≡ not (any (λ u. not (free_id seen u)) ts) && no_clash ts
  unfolding id_collisions claim_id
  reported [] seen = refl
  reported (t ∷ ts) seen =
      let i = document_id_for k t in
      let found = clash i t (get i seen) in
      let claimed = claim_id i t seen in
      elim (Bool-cases (free_id seen t)) [
        | inl e ↦
            let claims : claimed ≡ put i t seen =
              ap (λ b. if b then put i t seen else seen) (is_empty-clash i t (get i seen) ∙ e) in
            append_empty found (id_collisions k claimed ts)
            ∙ ap₂ ◌&&◌ (is_empty-clash i t (get i seen) ∙ e)
                (ap (λ d. is_empty (id_collisions k d ts)) claims ∙ reported ts (put i t seen))
            ∙ ap (λ b. b && no_clash ts)
                (all_later (free_id (put i t seen)) (free_id seen) (clashes t) ts
                  (λ u. free_later i (document_id_for k u) t u seen e))
            ∙ regroup (not (any (λ u. not (free_id seen u)) ts)) (any (clashes t) ts) (no_clash ts)
                (free_id seen t) (any (λ u. not (free_id seen u)) ts) e refl
        | inr e ↦
            append_empty found (id_collisions k claimed ts)
            ∙ ap (λ b. b && is_empty (id_collisions k claimed ts))
                (is_empty-clash i t (get i seen) ∙ e)
            ∙ rw e refl
      ]

  -- The check of the titles reports no collision exactly where no two contracts that have a context have
  -- different titles with one document id.
  pub check_titles_iff :
      (contracts : List Contract)
      → is_empty (check_titles k contracts).document_id_collisions ≡ no_clash (titles k contracts)
  unfolding check_titles get
  check_titles_iff contracts =
      reported (titles k contracts) []
      ∙ ap (λ b. not b && no_clash (titles k contracts)) (none_seen (titles k contracts))
    where
      none_seen : (ts : List String) → any (λ u. not (free_id [] u)) ts ≡ false
      none_seen [] = refl
      none_seen (t ∷ ts) = none_seen ts
