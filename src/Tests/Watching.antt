-- ===== src/Tests/Watching.antt =====
-- A watcher whose reload fails twice.
use audit_flow_ai.Base.{
  ℕ, ◌+◌, ◌≡◌, ◌≤◌, refl, some, [], ◌∷◌, List, leb, Option, Bool, true, false, arith,
}
use audit_flow_ai.Exec.{Result, ok, raised, Exec, ◌>>◌, pure, After}
use audit_flow_ai.Schemas.Errors.{other}
use audit_flow_ai.Watcher.{
  Watch, get_current_version, run_all, reload_all, follow, look, after_look, watch_once,
  watch_index_version,
}
use audit_flow_ai.Watcher.Progress.{IsIndexed, Run, IsLoaded, run-IsLoaded}
use audit_flow_ai.Watcher.Liveness.{watch_index_version-reaches}

-- the number of calls of the callback, and the version that is loaded
abbrev Process : Type 0
Process = ℕ × ℕ

abbrev read : Exec Process (Option ℕ)
read p = (ok (some 3), p)

abbrev tried : Bool → Process → Result Unit × Process
tried true p = (ok tt, (p.0 + 1, 3))
tried false p = (raised other, (p.0 + 1, p.1))

abbrev reload : Exec Process Unit
reload p = tried (leb 2 p.0) p

abbrev callbacks : List (Exec Process Unit)
callbacks = reload ∷ []

abbrev index : Process → ℕ
index p = 3

abbrev cached : Process → ℕ
cached p = p.1

abbrev start : Watch Process
start = record {
  last_seen_version = some 1;
  index_version_current = 1;
  index_version_loaded = 1;
  cache_reload_total = 0;
  cache_reload_failures = 0;
  process = (0, 1);
}

watch_runs : watch_index_version 3 read callbacks start ≡ record {
  last_seen_version = some 3;
  index_version_current = 3;
  index_version_loaded = 3;
  cache_reload_total = 1;
  cache_reload_failures = 2;
  process = (3, 3);
}
unfolding watch_index_version watch_once look get_current_version follow reload_all run_all
    after_look
watch_runs = refl

reload_After : (p : Process) → After (λ q. p.1 ≤ q.1) (λ _ q. 3 ≤ q.1) (run_all callbacks p)
unfolding run_all
reload_After p = go (leb 2 p.0)
  where
    go : (b : Bool) → After (λ q. p.1 ≤ q.1) (λ _ q. 3 ≤ q.1) (((λ _. tried b p) >> pure tt) p)
    go true = omega arith
    go false = omega arith

callbacks-IsIndexed : IsIndexed read callbacks index cached
callbacks-IsIndexed = record { reads = λ p. (omega arith, omega arith); reloads = reload_After }

run-IsLoaded_example : IsLoaded read callbacks index cached (watch_once read callbacks start)
run-IsLoaded_example =
    run-IsLoaded read callbacks index cached callbacks-IsIndexed (Run.poll Run.here)
      (1, refl, omega arith)

watch_index_version-reaches_example :
    ((watch_index_version 3 read callbacks start).last_seen_version ≡ some 3)
    × (3 ≤ cached (watch_index_version 3 read callbacks start).process)
unfolding watch_index_version watch_once look get_current_version follow reload_all run_all
    after_look
watch_index_version-reaches_example =
    watch_index_version-reaches read callbacks 3 (λ p. refl) index cached callbacks-IsIndexed 2
      start 1 refl (omega arith) (omega arith) refl
