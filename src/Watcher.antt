-- ===== src/Watcher.antt =====
-- src/auditflow/retrieval/cache_watcher.py. Redis and the callbacks act on the state of the process.
pub mod Progress
pub mod Liveness
use audit_flow_ai.Base.{ℕ, zero, suc, ◌+◌, Option, none, some, List, [], ◌∷◌, ltb, if◌then◌else◌}
use audit_flow_ai.Exec.{Result, ok, raised, Exec, ◌>>=◌, ◌>>◌, pure, gets, modify}

-- `_last_seen_version`, and the metrics of core/metrics.py
pub record Watch (Process : Type 0) : Type 0 where
  pub last_seen_version : Option ℕ
  pub index_version_current : ℕ
  pub index_version_loaded : ℕ
  pub cache_reload_total : ℕ
  pub cache_reload_failures : ℕ
  pub process : Process

-- `int(raw) if raw is not None else 0`
abbrev pub or_zero : Option ℕ → ℕ
or_zero none = 0
or_zero (some n) = n

module _ {Process : Type 0} where
  abbrev pub on_process : {A : Type 0} → Exec Process A → Exec (Watch Process) A
  on_process e s = let (x, p) = e s.process in (x, record s { process = p })

  unfoldable pub get_current_version : Exec Process (Option ℕ) → Exec Process ℕ
  get_current_version read = do raw ← read; pure (or_zero raw)

  unfoldable pub run_all : List (Exec Process Unit) → Exec Process Unit
  run_all [] = pure tt
  run_all (callback ∷ callbacks) = callback >> run_all callbacks

  abbrev pub set_loaded : ℕ → Watch Process → Watch Process
  set_loaded current s = record s {
    last_seen_version = some current;
    index_version_loaded = current;
  }

  abbrev pub count_reload : Watch Process → Watch Process
  count_reload s = record s { cache_reload_total = s.cache_reload_total + 1 }

  unfoldable pub reload_all : List (Exec Process Unit) → ℕ → Exec (Watch Process) Unit
  unfolding run_all
  reload_all callbacks current = do
    on_process (run_all callbacks)
    modify (λ s. count_reload (set_loaded current s))

  unfoldable pub follow : List (Exec Process Unit) → ℕ → Option ℕ → Exec (Watch Process) Unit
  unfolding reload_all
  follow callbacks current none = modify (set_loaded current)
  follow callbacks current (some last) =
      if ltb last current then reload_all callbacks current else pure tt

  -- the body of the `try`
  unfoldable pub look :
      Exec Process (Option ℕ) → List (Exec Process Unit) → Exec (Watch Process) Unit
  unfolding get_current_version follow
  look read callbacks = do
    current ← on_process (get_current_version read)
    modify (λ s. record s { index_version_current = current })
    last ← gets (λ s. s.last_seen_version)
    follow callbacks current last

  unfoldable pub after_look : Result Unit × Watch Process → Watch Process
  after_look (ok x, s) = s
  after_look (raised e, s) = record s { cache_reload_failures = s.cache_reload_failures + 1 }

  -- one turn of the loop
  unfoldable pub watch_once :
      Exec Process (Option ℕ) → List (Exec Process Unit) → Watch Process → Watch Process
  unfolding look after_look
  watch_once read callbacks s = after_look (look read callbacks s)

  -- `n` turns of `watch_index_version`
  unfoldable pub watch_index_version :
      ℕ → Exec Process (Option ℕ) → List (Exec Process Unit) → Watch Process → Watch Process
  unfolding watch_once
  watch_index_version zero read callbacks s = s
  watch_index_version (suc n) read callbacks s =
      watch_once read callbacks (watch_index_version n read callbacks s)
