-- ===== src/Watcher/Liveness.antt =====
-- A watcher whose callbacks fail for a time catches up.
use mathlib.Core.Path.{subst}
use mathlib.Core.Option.{some-injective}
use audit_flow_ai.Base.{
  ℕ, zero, suc, ◌≤◌, ◌<◌, ◌≡◌, refl, sym, ap, ◌∙◌, ◌⊎◌, inl, inr, Option, some, List, ltb, true,
  false, if◌then◌else◌, arith,
}
use audit_flow_ai.Exec.{Result, ok, raised, Exec, ◌>>=◌, ◌>>◌, pure, gets, modify, Result-cases}
use audit_flow_ai.Watcher.{
  Watch, on_process, or_zero, get_current_version, run_all, set_loaded, count_reload, reload_all,
  follow, look, after_look, watch_once, watch_index_version,
}
use audit_flow_ai.Watcher.Progress.{IsIndexed, Run, run-IsLoaded}

lt→ltb : (a b : ℕ) → a < b → ltb a b ≡ true
lt→ltb a b h = ground arith

ltb_irrefl : (a : ℕ) → ltb a a ≡ false
ltb_irrefl a = ground arith

module _ {Process : Type 0} (read : Exec Process (Option ℕ))
    (callbacks : List (Exec Process Unit)) where
  module _ (v : ℕ) where
    -- the state in which the callbacks are called
    abbrev at_reload : Watch Process → Watch Process
    at_reload s = record s { index_version_current = v; process = (read s.process).1 }

    watch_once_reads :
        (s : Watch Process)
        → (read s.process).0 ≡ ok (some v)
        → watch_once read callbacks s
          ≡ after_look (follow callbacks v s.last_seen_version (at_reload s))
    unfolding watch_once look get_current_version
    watch_once_reads s e = go (read s.process) e
      where
        go :
            (r : Result (Option ℕ) × Process)
            → r.0 ≡ ok (some v)
            → after_look (
                (on_process ((λ _. r) >>= λ raw. pure (or_zero raw)) >>= λ current.
                modify (λ s. record s { index_version_current = current })
                >> (gets (λ s. s.last_seen_version) >>= follow callbacks current))
                  s)
              ≡ after_look (
                  follow callbacks v s.last_seen_version
                    (record s { index_version_current = v; process = r.1 }))
        go (x, q) e = rw e refl

    -- What is seen after the callbacks: the version, or what was seen before where one has failed.
    abbrev seen : Option ℕ → Result Unit → Option ℕ
    seen last (ok x) = some v
    seen last (raised e) = last

    reload_outcome :
        (s : Watch Process)
        → (after_look (reload_all callbacks v s)).last_seen_version
          ≡ seen s.last_seen_version (run_all callbacks s.process).0
    unfolding reload_all after_look
    reload_outcome s = go (run_all callbacks s.process)
      where
        go :
            (r : Result Unit × Process)
            → (after_look (
                (on_process (λ _. r) >>= λ _. modify (λ s. count_reload (set_loaded v s)))
                  s)).last_seen_version
              ≡ seen s.last_seen_version r.0
        go (ok x, q) = refl
        go (raised e, q) = refl

    module _ (answers : (p : Process) → (read p).0 ≡ ok (some v)) where
      behind :
          (s : Watch Process) (last : ℕ)
          → s.last_seen_version ≡ some last
          → last < v
          → (watch_once read callbacks s).last_seen_version
            ≡ seen (some last) (run_all callbacks (read s.process).1).0
      unfolding follow
      behind s last e k =
          ap (λ u. u.last_seen_version) (watch_once_reads s (answers s.process))
          ∙ ap (λ o. (after_look (follow callbacks v o (at_reload s))).last_seen_version) e
          ∙ ap
              (λ b.
                (after_look (
                  (if b then reload_all callbacks v else pure tt) (at_reload s))).last_seen_version)
              (lt→ltb last v k)
          ∙ reload_outcome (at_reload s)
          ∙ ap (λ o. seen o (run_all callbacks (read s.process).1).0) e

      caught_up :
          (s : Watch Process)
          → s.last_seen_version ≡ some v
          → (watch_once read callbacks s).last_seen_version ≡ some v
      unfolding follow after_look
      caught_up s e =
          ap (λ u. u.last_seen_version) (watch_once_reads s (answers s.process))
          ∙ ap (λ o. (after_look (follow callbacks v o (at_reload s))).last_seen_version) e
          ∙ ap
              (λ b.
                (after_look (
                  (if b then reload_all callbacks v else pure tt) (at_reload s))).last_seen_version)
              (ltb_irrefl v)
          ∙ e

      -- After any number of turns the version is seen, or still the old one.
      turns :
          (n : ℕ) (s : Watch Process) (last : ℕ)
          → s.last_seen_version ≡ some last
          → last < v
          → ((watch_index_version n read callbacks s).last_seen_version ≡ some v)
            ⊎ ((watch_index_version n read callbacks s).last_seen_version ≡ some last)
      unfolding watch_index_version
      turns zero s last e k = inr e
      turns (suc n) s last e k = elim (turns n s last e k) [
        | inl h ↦ inl (caught_up (watch_index_version n read callbacks s) h)
        | inr h ↦
            let u = watch_index_version n read callbacks s in
            elim (Result-cases (run_all callbacks (read u.process).1).0) [
              | inl (x, f) ↦ inl (behind u last h k ∙ ap (seen (some last)) f)
              | inr (x, f) ↦ inr (behind u last h k ∙ ap (seen (some last)) f)
            ]
      ]

      runs :
          (index cached : Process → ℕ) (n : ℕ) (s : Watch Process)
          → Run read callbacks index cached s (watch_index_version n read callbacks s)
      unfolding watch_index_version
      runs index cached zero s = Run.here
      runs index cached (suc n) s = Run.poll (runs index cached n s)

      reached :
          (n : ℕ) (s : Watch Process) (last : ℕ)
          → s.last_seen_version ≡ some last
          → last < v
          → (run_all callbacks (read (watch_index_version n read callbacks s).process).1).0 ≡ ok tt
          → (watch_index_version (suc n) read callbacks s).last_seen_version ≡ some v
      unfolding watch_index_version
      reached n s last e k h = elim (turns n s last e k) [
        | inl f ↦ caught_up (watch_index_version n read callbacks s) f
        | inr f ↦ behind (watch_index_version n read callbacks s) last f k ∙ ap (seen (some last)) h
      ]

      -- A watcher that is behind the version of the index, which every read gives, has seen that version and
      -- its caches have reached it after any `n` turns, in which the callbacks may fail, and one more in
      -- which they succeed; under the conditions on the index and the callbacks, and where the caches had
      -- reached the version that was taken for loaded.
      pub watch_index_version-reaches :
          (index cached : Process → ℕ)
          → IsIndexed read callbacks index cached
          → (n : ℕ) (s : Watch Process) (last : ℕ) → s.last_seen_version ≡ some last
          → last < v
          → last ≤ cached s.process
          → (run_all callbacks (read (watch_index_version n read callbacks s).process).1).0 ≡ ok tt
          → ((watch_index_version (suc n) read callbacks s).last_seen_version ≡ some v)
            × (v ≤ cached (watch_index_version (suc n) read callbacks s).process)
      watch_index_version-reaches index cached laws n s last e k l h =
          let u = watch_index_version (suc n) read callbacks s in
          let done = reached n s last e k h in
          let (w, f, m) =
            run-IsLoaded read callbacks index cached laws (runs index cached (suc n) s)
              (last, e, l) in
          (done, subst (λ x. x ≤ cached u.process) (some-injective w v (sym f ∙ done)) m)
