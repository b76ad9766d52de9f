-- ===== src/Watcher/Progress.antt =====
-- What the watcher knows of the caches, and that it catches up.
use mathlib.Core.Option.{none-ne-some}
use audit_flow_ai.Base.{
  ℕ, ◌≤◌, ◌≡◌, refl, sym, ◌∙◌, inl, inr, Option, none, some, List, ltb, Bool-cases, arith,
}
use audit_flow_ai.Exec.{
  Result, ok, raised, Exec, ◌>>=◌, ◌>>◌, pure, gets, modify, After, After-bind,
}
use audit_flow_ai.Watcher.{
  Watch, on_process, or_zero, get_current_version, run_all, set_loaded, count_reload, reload_all,
  follow, look, after_look, watch_once,
}

module _ {Process : Type 0} (read : Exec Process (Option ℕ))
    (callbacks : List (Exec Process Unit)) where
  -- What the watcher relies on: the version in Redis only grows, so that what is read is not above the
  -- version afterwards; the callbacks, where all succeed, leave caches of the version that there was
  -- before them or of a later one; and no call brings the caches back to an older version.
  pub record IsIndexed (index cached : Process → ℕ) : Type 0 where
    pub reads :
        (p : Process)
        → After
            (λ q. cached p ≤ cached q)
            (λ raw q. (or_zero raw ≤ index q) × (cached p ≤ cached q))
            (read p)
    pub reloads :
        (p : Process)
        → After (λ q. cached p ≤ cached q) (λ _ q. index p ≤ cached q) (run_all callbacks p)

  module _ (index cached : Process → ℕ) where
    -- The watcher, and what else happens in the process and in Redis between two of its turns
    pub data Run : Watch Process → Watch Process → Type 0 where
      here : {s : Watch Process} → Run s s
      poll : {s u : Watch Process} → Run s u → Run s (watch_once read callbacks u)
      elsewhere :
          {s u : Watch Process} (p : Process)
          → Run s u
          → cached u.process ≤ cached p
          → Run s (record u { process = p })

    -- The version that the watcher takes for loaded is not above the version of the caches.
    abbrev pub IsLoaded : Watch Process → Type 0
    IsLoaded s = (v : ℕ) × (s.last_seen_version ≡ some v) × (v ≤ cached s.process)

    module _ (laws : IsIndexed index cached) where
      -- with a version that was in the index
      abbrev Read : ℕ → Watch Process → Type 0
      Read current s = IsLoaded s × (current ≤ index s.process)

      IsLoaded-up :
          (s : Watch Process) (p : Process)
          → IsLoaded s
          → cached s.process ≤ cached p
          → IsLoaded (record s { process = p })
      IsLoaded-up s p (v, e, h) k = (v, e, omega (arith, h, k))

      current-After :
          (s : Watch Process)
          → IsLoaded s
          → After IsLoaded Read (on_process (get_current_version read) s)
      unfolding get_current_version
      current-After s h = go (read s.process) (laws.reads s.process)
        where
          go :
              (r : Result (Option ℕ) × Process)
              → After
                  (λ q. cached s.process ≤ cached q)
                  (λ raw q. (or_zero raw ≤ index q) × (cached s.process ≤ cached q))
                  r
              → After IsLoaded Read (on_process ((λ _. r) >>= λ raw. pure (or_zero raw)) s)
          go (ok raw, q) k = (IsLoaded-up s q h k.1, k.0)
          go (raised e, q) k = IsLoaded-up s q h k

      reload_all-After :
          (current : ℕ) (s : Watch Process)
          → Read current s
          → After IsLoaded (λ _ u. IsLoaded u) (reload_all callbacks current s)
      unfolding reload_all
      reload_all-After current s h = go (run_all callbacks s.process) (laws.reloads s.process)
        where
          go :
              (r : Result Unit × Process)
              → After (λ q. cached s.process ≤ cached q) (λ _ q. index s.process ≤ cached q) r
              → After IsLoaded
                  (λ _ u. IsLoaded u)
                  ((on_process (λ _. r) >>= λ _. modify (λ s. count_reload (set_loaded current s)))
                    s)
          go (ok x, q) k = (current, refl, omega (arith, h.1, k))
          go (raised e, q) k = IsLoaded-up s q h.0 k

      follow-After :
          (current : ℕ) (last : Option ℕ) (s : Watch Process)
          → Read current s
          → s.last_seen_version ≡ last
          → After IsLoaded (λ _ u. IsLoaded u) (follow callbacks current last s)
      unfolding follow
      follow-After current none s ((v, f, k), i) e = absurd (none-ne-some v (sym e ∙ f))
      follow-After current (some last) s h e = elim (Bool-cases (ltb last current)) [
        | inl b ↦ rw b (reload_all-After current s h)
        | inr b ↦ rw b (h.0)
      ]

      look-After :
          (s : Watch Process)
          → IsLoaded s
          → After IsLoaded (λ _ u. IsLoaded u) (look read callbacks s)
      unfolding look
      look-After s h =
          After-bind IsLoaded Read (λ _ u. IsLoaded u) (on_process (get_current_version read)) s
            (λ current.
              modify (λ s. record s { index_version_current = current })
              >> (gets (λ s. s.last_seen_version) >>= follow callbacks current))
            (current-After s h)
            (λ current u i.
              follow-After current u.last_seen_version
                (record u { index_version_current = current }) i refl)

      after_look-IsLoaded :
          (r : Result Unit × Watch Process)
          → After IsLoaded (λ _ u. IsLoaded u) r
          → IsLoaded (after_look r)
      unfolding after_look
      after_look-IsLoaded (ok x, u) h = h
      after_look-IsLoaded (raised e, u) h = h

      watch_once-IsLoaded :
          (s : Watch Process) → IsLoaded s → IsLoaded (watch_once read callbacks s)
      unfolding watch_once
      watch_once-IsLoaded s h = after_look-IsLoaded (look read callbacks s) (look-After s h)

      -- Once the version that the watcher takes for loaded is not above the version of the caches, it never
      -- is, over any turns of the watcher and whatever happens between them, where the version of the index
      -- only grows, successful callbacks load the index that is there, and nothing brings an older one back.
      pub run-IsLoaded : {s u : Watch Process} → Run s u → IsLoaded s → IsLoaded u
      run-IsLoaded here h = h
      run-IsLoaded (poll {u = u} r) h = watch_once-IsLoaded u (run-IsLoaded r h)
      run-IsLoaded (elsewhere {u = u} p r k) h = IsLoaded-up u p (run-IsLoaded r h) k
