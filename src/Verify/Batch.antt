-- ===== src/Verify/Batch.antt =====
-- The claims of one answer: `verify_all_claims`.
use audit_flow_ai.Base.{String, ◌≡◌, refl, inl, inr, false, Option, List, [], ◌∷◌, In, arith, ap}
use audit_flow_ai.Base.Dict.{Dict}
use audit_flow_ai.Base.Text.{is_blank}
use audit_flow_ai.Attempt.{NoContent}
use audit_flow_ai.Exec.{ok, raised, Result-cases}
use audit_flow_ai.Schemas.Errors.{Raised, audit, verification_error}
use audit_flow_ai.Schemas.Generation.{Claim}
use audit_flow_ai.Schemas.Verification.{VerifiedClaim}
use audit_flow_ai.Verify.{Judge, prompt, verify_claim, gather, verify_all_claims}
use audit_flow_ai.Verify.Loop.{AlwaysLegible}
use audit_flow_ai.Verify.Claims.{
  Cites, Checked, verify_claim-Checked, verify_claim_total, verify_claim_null,
}

-- One result for each claim, in order, each checked.
abbrev pub AllChecked : (m : Judge) → Dict String → List Claim → List VerifiedClaim → Type 0
AllChecked m lookup [] [] = Unit
AllChecked m lookup [] (v ∷ vs) = ⊥
AllChecked m lookup (c ∷ claims) [] = ⊥
AllChecked m lookup (c ∷ claims) (v ∷ vs) = Checked m lookup c v × AllChecked m lookup claims vs

module _ (m : Judge) (lookup : Dict String) where
  gather-AllChecked :
      (claims : List Claim) (w : m.World) (vs : List VerifiedClaim)
      → (gather m claims lookup w).0 ≡ ok vs
      → AllChecked m lookup claims vs
  unfolding gather
  gather-AllChecked [] w [] h = tt
  gather-AllChecked [] w (v ∷ vs) h = cc
  gather-AllChecked (c ∷ claims) w vs h = elim (Result-cases (verify_claim m 2 c lookup w).0) [
    | inr (e, failed) ↦ absurd (ground arith)
    | inl (v, done) ↦
        let w' : m.World = (verify_claim m 2 c lookup w).1 in
        elim (Result-cases (gather m claims lookup w').0) [
          | inr (e, failed) ↦ absurd (ground arith)
          | inl (rest, done') ↦
              let e : v ∷ rest ≡ vs = ground arith in
              rw (← e)
                (verify_claim-Checked m 2 c lookup w v done, gather-AllChecked claims w' rest done')
        ]
  ]

  -- The results are the claims in order, each with its own verdict, and every SUPPORTED or PARTIAL
  -- was given by the judge on the text of the chunk that the claim cites.
  pub verify_all_claims-AllChecked :
      (claims : List Claim) (w : m.World) (vs : List VerifiedClaim)
      → (verify_all_claims m claims lookup w).0 ≡ ok vs
      → AllChecked m lookup claims vs
  unfolding verify_all_claims
  verify_all_claims-AllChecked [] w vs h = gather-AllChecked [] w vs (unfold gather in h)
  verify_all_claims-AllChecked (c ∷ claims) w vs h =
      gather-AllChecked (c ∷ claims) w vs (ground arith)

  gather_total :
      AlwaysLegible m
      → (claims : List Claim) (w : m.World)
      → (vs : List VerifiedClaim) × ((gather m claims lookup w).0 ≡ ok vs)
  unfolding gather
  gather_total solid [] w = ([], refl)
  gather_total solid (c ∷ claims) w =
      let (v, done) = verify_claim_total m 2 c lookup solid w in
      let (vs, done') = gather_total solid claims (verify_claim m 2 c lookup w).1 in
      (v ∷ vs, ground arith)

  -- Where every reply of the judge has a content, not null, on which `json.loads` raises nothing but
  -- `JSONDecodeError`, a batch is answered, whatever calls of the client fail and whatever replies are
  -- no JSON or no verdict.
  pub verify_all_claims_total :
      AlwaysLegible m
      → (claims : List Claim) (w : m.World)
      → (vs : List VerifiedClaim) × ((verify_all_claims m claims lookup w).0 ≡ ok vs)
  unfolding verify_all_claims
  verify_all_claims_total solid [] w = ([], refl)
  verify_all_claims_total solid (c ∷ claims) w =
      let (vs, done) = gather_total solid (c ∷ claims) w in (vs, ground arith)

  gather_null :
      (claims : List Claim) (c : Claim) (w : m.World)
      → In c claims
      → is_blank c.text ≡ false
      → (k : Cites lookup c)
      → ((u : m.World)
          → (contents : List (Option String)) × ((m.complete (prompt k.source c.text) u).0
              ≡ ok contents)
            × NoContent contents)
      → (e : Raised) × ((gather m claims lookup w).0 ≡ raised e)
  unfolding gather
  gather_null (d ∷ claims) c w here filled k null =
      elim (Result-cases (verify_claim m 2 d lookup w).0) [
        | inr (e, failed) ↦ (e, ground arith)
        | inl (v, done) ↦ elim here [
          | inl e ↦ absurd (
              ground (
                arith,
                verify_claim_null m 2 c lookup filled k w (null w).0 (null w).1 (null w).2,
                ap (λ x. (verify_claim m 2 x lookup w).0) e,
              ))
          | inr later ↦
              let (e, failed) =
                gather_null claims c (verify_claim m 2 d lookup w).1 later filled k null in
              (e, ground arith)
        ]
      ]
  gather_null [] c w here filled k null = absurd here

  -- One claim of the batch whose judge answers with a null content, or with none at all, fails the whole
  -- batch with `VerificationError`: the retries and the fail-safe verdict do not cover it.
  pub verify_all_claims_null :
      (claims : List Claim) (c : Claim) (w : m.World)
      → In c claims
      → is_blank c.text ≡ false
      → (k : Cites lookup c)
      → ((u : m.World)
          → (contents : List (Option String)) × ((m.complete (prompt k.source c.text) u).0
              ≡ ok contents)
            × NoContent contents)
      → (verify_all_claims m claims lookup w).0 ≡ raised (audit verification_error)
  unfolding verify_all_claims
  verify_all_claims_null [] c w here filled k null = absurd here
  verify_all_claims_null (d ∷ claims) c w here filled k null =
      let (e, failed) = gather_null (d ∷ claims) c w here filled k null in ground arith
