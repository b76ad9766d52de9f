-- ===== src/Identity/Rerun.antt =====
-- After a run every document has an identity, and a second run changes nothing.
use mathlib.Core.Path.{subst}
use audit_flow_ai.Base.{
  String, ◌==◌, Bool, true, false, not, ◌&&◌, ◌||◌, ◌≡◌, refl, ap, ◌∙◌, Option, some, List, [], ◌∷◌,
  is_none, if◌then◌else◌, eq_refl, arith, All, All-map,
}
use audit_flow_ai.Base.Dict.{Dict, get, contains}
use audit_flow_ai.Chunking.Records.{Contract, DocumentIdentity}
use audit_flow_ai.Exec.{Result, ok, raised, ◌>>=◌, pure, After, After-bind}
use audit_flow_ai.Identity.{
  Extractor, preambles, cached, to_process, extract_each, extract_missing, extract_with,
  extract_all_identities, or_no_cache,
}
use audit_flow_ai.Identity.Contents.{
  has, hashes, extract_each-has, has-cached, to_process-has, nothing_left,
}

module _ (x : Extractor) where
  -- The file of the cache: what is saved is what is loaded next, and loading changes nothing there.
  pub record IsFile : Type 0 where
    pub saved :
        (c : Dict DocumentIdentity) (w : x.World)
        → After (λ _. Unit) (λ _ v. x.load v ≡ (ok (some c), v)) (x.save c w)
    pub loaded : (w : x.World) → After (λ _. Unit) (λ found v. x.load v ≡ (ok found, v)) (x.load w)

  -- What a run that ends without an exception gives
  pub record Extracted (documents : List Contract) (results : Dict DocumentIdentity) (w : x.World)
      : Type 0 where
    pub docs : List (String × String)
    pub preambles_of : preambles x documents ≡ ok docs
    pub all_found : All (λ d. is_none (get d.0 results) ≡ false) docs
    pub again : Dict DocumentIdentity
    pub rerun : extract_all_identities x documents w ≡ (ok again, w)

  rerun_at :
      (documents : List Contract) (docs : List (String × String))
      (found : Option (Dict DocumentIdentity)) (w : x.World)
      → preambles x documents ≡ ok docs
      → x.load w ≡ (ok found, w)
      → All (λ d. has (or_no_cache x found) d.0 ≡ true) docs
      → extract_all_identities x documents w ≡ (ok (cached x (or_no_cache x found) docs []), w)
  unfolding extract_all_identities extract_with extract_missing
  rerun_at documents docs found w p l h =
      let c = or_no_cache x found in
      ap
        (λ r.
          ((λ _. r) >>= λ found. extract_with x (or_no_cache x found) (preambles x documents)) w)
        l
      ∙ ap (λ r. extract_with x c r w) p
      ∙ ap (λ t. extract_missing x t (cached x c docs [], c) w) (nothing_left x c docs h)

  own_hashes : (docs : List (String × String)) → All (λ d. contains (hashes docs) d.0 ≡ true) docs
  unfolding contains
  own_hashes [] = tt
  own_hashes ((h, preamble) ∷ docs) = (
    rw (eq_refl h) refl,
    All-map (λ d e. later h d.0 (contains (hashes docs) d.0) e) docs (own_hashes docs),
  )
    where
      later : (h k : String) (b : Bool) → b ≡ true → (if h == k then true else b) ≡ true
      later h k b e = ground arith

  -- After all documents were looked up or processed, the results and the cache have them.
  results_full :
      (cache : Dict DocumentIdentity) (docs : List (String × String)) (w : x.World)
      → All
          (λ d.
            is_none (
              get d.0
                (extract_each x (to_process x cache docs) (cached x cache docs [], cache) w).0.0)
            ≡ false)
          docs
  unfolding get
  results_full cache docs w =
      All-map
        (λ d e.
          let k = d.0 in
          full (contains (hashes docs) k) (has cache k) e
            (extract_each-has x (to_process x cache docs) (cached x cache docs []) cache w k).0
            (has-cached x cache docs [] k) (to_process-has x cache docs k))
        docs (own_hashes docs)
    where
      full :
          (b c : Bool) {r t u : Bool}
          → b ≡ true
          → not r ≡ t || u
          → t ≡ false || (b && c)
          → u ≡ b && not c
          → r ≡ false
      full b c e f g h = ground arith

  cache_full :
      (cache : Dict DocumentIdentity) (docs : List (String × String)) (w : x.World)
      → All
          (λ d.
            has (extract_each x (to_process x cache docs) (cached x cache docs [], cache) w).0.1 d.0
            ≡ true)
          docs
  cache_full cache docs w =
      All-map
        (λ d e.
          let k = d.0 in
          full (contains (hashes docs) k) (has cache k) e
            (extract_each-has x (to_process x cache docs) (cached x cache docs []) cache w k).1
            (to_process-has x cache docs k))
        docs (own_hashes docs)
    where
      full : (b c : Bool) {r u : Bool} → b ≡ true → r ≡ c || u → u ≡ b && not c → r ≡ true
      full b c e f h = ground arith

  missing-Extracted :
      IsFile
      → (documents : List Contract) (docs : List (String × String))
      → preambles x documents ≡ ok docs
      → (found : Option (Dict DocumentIdentity)) (w : x.World) → x.load w ≡ (ok found, w)
      → (todo : List (String × String)) → to_process x (or_no_cache x found) docs ≡ todo
      → After
          (λ _. Unit)
          (Extracted documents)
          (extract_missing x todo (cached x (or_no_cache x found) docs [], or_no_cache x found) w)
  unfolding extract_missing extract_each
  missing-Extracted file documents docs p found w l [] e =
      let c = or_no_cache x found in
      record {
        docs = docs;
        preambles_of = p;
        all_found =
            subst
              (λ t.
                All
                  (λ d. is_none (get d.0 (extract_each x t (cached x c docs [], c) w).0.0) ≡ false)
                  docs)
              e (results_full c docs w);
        again = cached x c docs [];
        rerun = rerun_at documents docs found w p l (
            subst
              (λ t. All (λ d. has (extract_each x t (cached x c docs [], c) w).0.1 d.0 ≡ true) docs)
              e (cache_full c docs w));
      }
  missing-Extracted file documents docs p found w l (d ∷ ds) e =
      let c = or_no_cache x found in
      let after = extract_each x (d ∷ ds) (cached x c docs [], c) w in
      After-bind (λ _. Unit) (λ _ v. x.load v ≡ (ok (some after.0.1), v)) (Extracted documents)
        (x.save after.0.1) after.1 (λ _. pure after.0.0) (file.saved after.0.1 after.1)
        λ _ v k. record {
          docs = docs;
          preambles_of = p;
          all_found =
              subst
                (λ t.
                  All
                    (λ d.
                      is_none (get d.0 (extract_each x t (cached x c docs [], c) w).0.0) ≡ false)
                    docs)
                e (results_full c docs w);
          again = cached x after.0.1 docs [];
          rerun = rerun_at documents docs (some after.0.1) v p k (
              subst
                (λ t.
                  All (λ d. has (extract_each x t (cached x c docs [], c) w).0.1 d.0 ≡ true) docs)
                e (cache_full c docs w));
        }

  with-Extracted :
      IsFile
      → (documents : List Contract) → (found : Option (Dict DocumentIdentity)) (w : x.World)
      → x.load w ≡ (ok found, w)
      → (r : Result (List (String × String))) → preambles x documents ≡ r
      → After (λ _. Unit) (Extracted documents) (extract_with x (or_no_cache x found) r w)
  unfolding extract_with
  with-Extracted file documents found w l (raised e) p = tt
  with-Extracted file documents found w l (ok docs) p =
      missing-Extracted file documents docs p found w l (to_process x (or_no_cache x found) docs)
        refl

  -- A run that ends without an exception gives an identity for the preamble of every document, whatever the
  -- models answered, and leaves a state in which a second run on the same documents succeeds and changes
  -- nothing, neither the models' state nor the file. What is saved to the cache's file is what is loaded
  -- from it next, and loading changes nothing.
  pub extract_all_identities-Extracted :
      IsFile
      → (documents : List Contract) (w : x.World)
      → After (λ _. Unit) (Extracted documents) (extract_all_identities x documents w)
  unfolding extract_all_identities
  extract_all_identities-Extracted file documents w =
      After-bind (λ _. Unit) (λ found v. x.load v ≡ (ok found, v)) (Extracted documents) x.load w
        (λ found. extract_with x (or_no_cache x found) (preambles x documents)) (file.loaded w)
        (λ found v k. with-Extracted file documents found v k (preambles x documents) refl)
