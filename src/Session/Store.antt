-- ===== src/Session/Store.antt =====
-- `SessionStore` of session_store.py, and history_queue.py. Redis, its queue and the JSON of a session
-- are `Redis`.
use audit_flow_ai.Base.{ℕ, suc, String, ◌<>◌, Bool, Option, none, some, List, [], ◌∷◌}
use audit_flow_ai.Base.Dict.{Dict, get, put}
use audit_flow_ai.Exec.{Result, ok, raised, Exec, ◌>>=◌}
use audit_flow_ai.Schemas.Errors.{other}
use audit_flow_ai.Schemas.Session.{AskResponse, status_value}
use audit_flow_ai.Schemas.Verification.{VerifiedClaim, verdict_value}
use audit_flow_ai.Session.State.{SessionState, new_state}

-- The job that `write_history_and_audit` is called with.
pub record Job : Type 0 where
  pub username : String
  pub question : String
  pub response_status : String
  pub top_contract : Option String
  pub claims_summary : Option (Dict ℕ)

-- `set` takes the seconds until the key expires, `acquire` the timeout of the lock and how long to
-- wait for it, `push` the number of entries that are kept and the seconds until the key expires.
-- `loads` is `none` where `from_json` raises.
pub record Redis : Type 1 where
  pub World : Type 0
  pub get_key : String → Exec World (Option String)
  pub set_key : String → String → ℕ → Exec World Unit
  pub delete_key : String → Exec World Unit
  pub acquire : String → ℕ → ℕ → Exec World Bool
  pub release : String → Exec World Unit
  pub push : String → String → ℕ → ℕ → Exec World Unit
  pub enqueue : Job → Exec World Unit
  pub dumps : SessionState → String
  pub loads : String → Option SessionState
  pub dumps_turn : String → String → Option String → String

abbrev session_ttl_seconds : ℕ
session_ttl_seconds = 3600

-- `ROLE_TTL_SECONDS`
abbrev role_ttl_seconds : Dict ℕ
role_ttl_seconds = ("viewer", 600) ∷ ("employee", 3600) ∷ ("ceo", 3600) ∷ ("admin", 3600) ∷ []

-- `ROLE_TTL_SECONDS.get(role, SESSION_TTL_SECONDS)`
unfoldable pub ttl_of : String → ℕ
unfolding get
ttl_of role = elim (get role role_ttl_seconds) [ none ↦ session_ttl_seconds | some n ↦ n ]

abbrev pub key : String → String
key username = "session:" <> username

-- `verdicts.count(v)` for each verdict that occurs
unfoldable pub count_verdicts : List VerifiedClaim → Dict ℕ → Dict ℕ
unfolding get put verdict_value
count_verdicts [] counts = counts
count_verdicts (c ∷ claims) counts =
    let v = verdict_value c.verdict in
    count_verdicts claims (put v (elim (get v counts) [ none ↦ 1 | some n ↦ suc n ]) counts)

unfoldable pub summarize_claims : AskResponse → Option (Dict ℕ)
unfolding count_verdicts
summarize_claims response = elim response.claims [
  | [] ↦ none
  | c ∷ claims ↦ some (count_verdicts (c ∷ claims) [])
]

module _ (r : Redis) where
  -- `SessionState.from_json`
  unfoldable pub from_json : Option String → Result SessionState
  from_json none = ok new_state
  from_json (some raw) = elim (r.loads raw) [ none ↦ raised other | some state ↦ ok state ]

  unfoldable pub get_session : String → Exec r.World SessionState
  unfolding from_json
  get_session username = do raw ← r.get_key (key username); λ w. (from_json raw, w)

  unfoldable pub set_session : String → SessionState → String → Exec r.World Unit
  unfolding ttl_of
  set_session username state role = r.set_key (key username) (r.dumps state) (ttl_of role)

  unfoldable pub clear : String → Exec r.World Unit
  clear username = r.delete_key (key username)

  unfoldable pub push_recent_turn : String → String → String → Option String → Exec r.World Unit
  push_recent_turn username question answer_status document_id =
      r.push ("recent:" <> username) (r.dumps_turn question answer_status document_id) 5
        session_ttl_seconds

  -- `enqueue_history_write`: whatever is raised is logged.
  abbrev swallow : Result Unit × r.World → Result Unit × r.World
  swallow (x, w) = (ok tt, w)

  unfoldable pub enqueue_history_write : String → String → AskResponse → Exec r.World Unit
  unfolding summarize_claims status_value
  enqueue_history_write username question response w = swallow (
      r.enqueue
        (record {
          username = username;
          question = question;
          response_status = status_value response.status;
          top_contract = response.top_contract;
          claims_summary = summarize_claims response;
        })
        w)
