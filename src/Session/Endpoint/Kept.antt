-- ===== src/Session/Endpoint/Kept.antt =====
-- What a request leaves alone: the keys of Redis that are not its user's.
use audit_flow_ai.Base.{
  ℕ, String, ◌<>◌, ◌≡◌, refl, ap, ◌∙◌, true, false, not, inl, inr, Option, some, ◌==◌, Bool, arith,
  if◌then◌else◌,
}
use audit_flow_ai.Base.Dict.{Dict, get}
use audit_flow_ai.Exec.{Result, ok, raised, ◌>>=◌, pure, Result-cases}
use audit_flow_ai.Pipeline.{Sessions, ask}
use audit_flow_ai.Retry.{Layer}
use audit_flow_ai.Schemas.Errors.{timeout_error}
use audit_flow_ai.Schemas.Floats.{Floats}
use audit_flow_ai.Schemas.Session.{AskResponse, status_value}
use audit_flow_ai.Session.State.{SessionState}
use audit_flow_ai.Session.Store.{
  Redis, Job, key, from_json, get_session, set_session, push_recent_turn, enqueue_history_write,
}
use audit_flow_ai.Session.Endpoint.{
  CurrentUser, Server, Serve, on_store, ask_with_state, turn, release_after, locked, served,
  handled,
}
use audit_flow_ai.Session.Endpoint.Keys.{lock_key, recent_key}
use audit_flow_ai.Verify.{Judge}

-- The values that Redis holds in the database of the sessions. A key keeps its value while a request
-- runs, unless a call touches it: a read gives it, and a write that succeeds sets it. The lock is a key
-- too (`SET … NX PX`, and its removal), and the recent turns are a list under a key: each call touches
-- its own key alone. The job queue is another database (`get_primary(db=1)`).
pub record IsStore (r : Redis) : Type 0 where
  pub view : r.World → Dict String
  pub get_ok :
      (k : String) (w : r.World) (o : Option String) → (r.get_key k w).0 ≡ ok o → o ≡ get k (view w)
  pub get_view : (k : String) (w : r.World) → view (r.get_key k w).1 ≡ view w
  pub set_ok :
      (k v : String) (n : ℕ) (w : r.World)
      → (r.set_key k v n w).0 ≡ ok tt
      → get k (view (r.set_key k v n w).1) ≡ some v
  pub set_other :
      (k v : String) (n : ℕ) (w : r.World) (j : String)
      → (k == j) ≡ false
      → get j (view (r.set_key k v n w).1) ≡ get j (view w)
  pub acquire_other :
      (k : String) (n t : ℕ) (w : r.World) (j : String)
      → (k == j) ≡ false
      → get j (view (r.acquire k n t w).1) ≡ get j (view w)
  pub release_other :
      (k : String) (w : r.World) (j : String)
      → (k == j) ≡ false
      → get j (view (r.release k w).1) ≡ get j (view w)
  pub push_other :
      (k e : String) (n t : ℕ) (w : r.World) (j : String)
      → (k == j) ≡ false
      → get j (view (r.push k e n t w).1) ≡ get j (view w)
  pub enqueue_view : (j : Job) (w : r.World) → view (r.enqueue j w).1 ≡ view w

pub ok-injective : {A : Type 0} {a b : A} → ok a ≡ ok b → a ≡ b
ok-injective h = ground arith

module _ (r : Redis) (laws : IsStore r) (f : Floats) (l : Layer f) (m : Judge) (s : Sessions) where
  abbrev pub Here : Type 0
  Here = Server r.World l.World m.World

  -- the value of a key
  abbrev pub held : String → Here → Option String
  held j v = get j (laws.view v.store)

  pub Frames-bind :
      {A B : Type 0} (j : String) (e : Serve r f l m s A) (next : A → Serve r f l m s B) (v : Here)
      → held j (e v).1 ≡ held j v
      → ((a : A) (u : Here) → held j (next a u).1 ≡ held j u)
      → held j ((e >>= next) v).1 ≡ held j v
  Frames-bind {A = A} {B = B} j e next v h k = go (e v) h
    where
      go :
          (x : Result A × Here)
          → held j x.1 ≡ held j v
          → held j (((λ _. x) >>= next) v).1 ≡ held j v
      go (ok a, u) h = k a u ∙ h
      go (raised y, u) h = h

  module _ (question : String) (user : CurrentUser) (j : String)
      (other : (key user.username == j) ≡ false) (unlocked : (lock_key user.username == j) ≡ false)
      (unlisted : (recent_key user.username == j) ≡ false) where
    get_session-other :
        (v : Here) → held j (on_store r f l m s (get_session r user.username) v).1 ≡ held j v
    unfolding get_session
    get_session-other v = ap (get j) (
        read (r.get_key (key user.username) v.store) v.store
        ∙ laws.get_view (key user.username) v.store)
      where
        read :
            (x : Result (Option String) × r.World) (w : r.World)
            → laws.view (((λ _. x) >>= λ raw u. (from_json r raw, u)) w).1 ≡ laws.view x.1
        read (ok o, u) w = refl
        read (raised e, u) w = refl

    ask_with_state-other :
        (state : SessionState) (v : Here)
        → held j (ask_with_state r f l m s question state v).1 ≡ held j v
    unfolding ask_with_state
    ask_with_state-other state v =
        elim (Result-cases
          (ask f l m s question (record { session = state; below = v.below; bench = v.bench })).0) [
            | inl (x, e) ↦ rw (e, ask_with_state) refl
            | inr (x, e) ↦ rw (e, ask_with_state) refl
          ]

    abbrev save : SessionState → Serve r f l m s Unit
    save state = on_store r f l m s (set_session r user.username state user.role)

    save-other : (state : SessionState) (v : Here) → held j (save state v).1 ≡ held j v
    unfolding set_session
    save-other state v = laws.set_other (key user.username) _ _ v.store j other

    turn-other : (v : Here) → held j (turn r f l m s question user v).1 ≡ held j v
    unfolding turn
    turn-other v =
        Frames-bind j (on_store r f l m s (get_session r user.username))
          (λ state. ask_with_state r f l m s question state >>= λ (response, after).
            save after >>= λ _. pure response)
          v (get_session-other v)
          (λ state u.
            Frames-bind j (ask_with_state r f l m s question state)
              (λ (response, after). save after >>= λ _. pure response) u
              (ask_with_state-other state u)
              (λ x u. Frames-bind j (save x.1) (λ _. pure x.0) u (save-other x.1 u) (λ _ u. refl)))

    release-other :
        (x : Result AskResponse × Here)
        → held j (release_after r f l m s user.username x).1 ≡ held j x.1
    unfolding release_after
    release-other (x, v) = laws.release_other (lock_key user.username) v.store j unlocked

    locked-other :
        (v : Here)
        → held j (locked r f l m s user.username (turn r f l m s question user) v).1 ≡ held j v
    unfolding locked
    locked-other v =
        Frames-bind j (on_store r f l m s (r.acquire ("session-lock:" <> user.username) 10 5))
          (λ acquired v.
            if not acquired
            then (raised timeout_error, v)
            else release_after r f l m s user.username (turn r f l m s question user v))
          v (laws.acquire_other (lock_key user.username) 10 5 v.store j unlocked) after
      where
        after :
            (acquired : Bool) (u : Here)
            → held j
                (if not acquired
                  then (raised timeout_error, u)
                  else release_after r f l m s user.username (turn r f l m s question user u)).1
              ≡ held j u
        after false u = refl
        after true u = release-other (turn r f l m s question user u) ∙ turn-other u

    pub served-other : (v : Here) → held j (served r f l m s question user v).1 ≡ held j v
    unfolding served push_recent_turn enqueue_history_write
    served-other v =
        Frames-bind j (locked r f l m s user.username (turn r f l m s question user))
          (λ response.
            on_store r f l m s (
              push_recent_turn r user.username question (status_value response.status)
                response.top_contract)
            >>= λ _.
                on_store r f l m s (enqueue_history_write r user.username question response)
                >>= λ _. pure response)
          v (locked-other v)
          (λ response u.
            Frames-bind j
              (on_store r f l m s (
                push_recent_turn r user.username question (status_value response.status)
                  response.top_contract))
              (λ _.
                on_store r f l m s (enqueue_history_write r user.username question response)
                >>= λ _. pure response)
              u (laws.push_other (recent_key user.username) _ _ _ u.store j unlisted)
              (λ _ u. ap (get j) (laws.enqueue_view _ u.store)))

    pub handled-other :
        (x : Result AskResponse × Here) → held j (handled r f l m s x).1 ≡ held j x.1
    handled-other (ok a, v) = refl
    handled-other (raised e, v) = refl
