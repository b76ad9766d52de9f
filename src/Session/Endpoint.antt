-- ===== src/Session/Endpoint.antt =====
-- `ask_endpoint` of src/main.py, over the session store and the pipeline.
pub mod Keys
pub mod Kept
pub mod Stored
use audit_flow_ai.Base.{
  String, ◌<>◌, Bool, true, false, not, ◌||◌, Option, none, some, if◌then◌else◌,
}
use audit_flow_ai.Base.Text.{Tables, is_blank, strip}
use audit_flow_ai.Exec.{Result, ok, raised, Exec, ◌>>=◌, ◌>>◌, pure}
use audit_flow_ai.Pipeline.{Sessions, Run, ask}
use audit_flow_ai.Retry.{Layer}
use audit_flow_ai.Schemas.Errors.{Raised, redis_connection_error, timeout_error, http_exception}
use audit_flow_ai.Schemas.Floats.{Floats}
use audit_flow_ai.Schemas.Session.{AskResponse, status_value}
use audit_flow_ai.Session.State.{SessionState}
use audit_flow_ai.Session.Store.{
  Redis, key, get_session, set_session, push_recent_turn, enqueue_history_write,
}
use audit_flow_ai.Verify.{Judge}

-- `CurrentUser`
pub record CurrentUser : Type 0 where
  pub username : String
  pub role : String

-- `Question.not_blank`: `none` where it raises `ValueError`, which FastAPI answers with 422.
unfoldable pub not_blank : Tables → String → Option String
unfolding is_blank strip
not_blank t v =
    if is_blank v || is_blank (strip t.is_space v) then none else some (strip t.is_space v)

-- The states of Redis, of the layer below the pipeline and of the judge.
pub record Server (redis layer judge : Type 0) : Type 0 where
  pub store : redis
  pub below : layer
  pub bench : judge

-- `except (RedisConnectionError, TimeoutError)`
unfoldable pub unavailable : Raised → Raised
unavailable redis_connection_error = http_exception 503
unavailable timeout_error = http_exception 503
unavailable e = e

module _ (r : Redis) (f : Floats) (l : Layer f) (m : Judge) (s : Sessions) where
  abbrev pub Serve : Type 0 → Type 0
  Serve A = Exec (Server r.World l.World m.World) A

  abbrev pub on_store : {A : Type 0} → Exec r.World A → Serve A
  on_store e v = let (x, w) = e v.store in (x, record v { store = w })

  -- `pipeline.ask`, with the session that it leaves where it returns
  unfoldable pub ask_with_state : String → SessionState → Serve (AskResponse × SessionState)
  ask_with_state question state v =
      let (x, after) =
        ask f l m s question (record { session = state; below = v.below; bench = v.bench }) in
      let v' = record v { below = after.below; bench = after.bench } in
      elim x [ ok response ↦ (ok (response, after.session), v') | raised e ↦ (raised e, v') ]

  -- the block under the lock
  unfoldable pub turn : String → CurrentUser → Serve AskResponse
  unfolding ask_with_state get_session set_session
  turn question user = do
    state ← on_store (get_session r user.username)
    (response, after) ← ask_with_state question state
    on_store (set_session r user.username after user.role)
    pure response

  -- `finally: lock.release()`: what it raises takes the place of what the block came to.
  abbrev released : {A : Type 0} → Result A → Result Unit → Result A
  released x (ok u) = x
  released x (raised e) = raised e

  unfoldable pub release_after :
      {A : Type 0}
      → String
      → Result A × Server r.World l.World m.World
      → Result A × Server r.World l.World m.World
  release_after username (x, v) =
      let (y, w) = r.release ("session-lock:" <> username) v.store in
      (released x y, record v { store = w })

  -- `session_store.locked`
  unfoldable pub locked : {A : Type 0} → String → Serve A → Serve A
  unfolding release_after
  locked username body = do
    acquired ← on_store (r.acquire ("session-lock:" <> username) 10 5)
    λ v. if not acquired then (raised timeout_error, v) else release_after username (body v)

  -- the body of the `try`
  unfoldable pub served : String → CurrentUser → Serve AskResponse
  unfolding turn locked push_recent_turn enqueue_history_write status_value
  served question user = do
    response ← locked user.username (turn question user)
    on_store (
        push_recent_turn r user.username question (status_value response.status)
          response.top_contract)
    on_store (enqueue_history_write r user.username question response)
    pure response

  abbrev handled :
      {A : Type 0}
      → Result A × Server r.World l.World m.World
      → Result A × Server r.World l.World m.World
  handled (ok a, v) = (ok a, v)
  handled (raised e, v) = (raised (unavailable e), v)

  unfoldable pub ask_endpoint : String → CurrentUser → Serve AskResponse
  unfolding served unavailable
  ask_endpoint question user v = handled (served question user v)
