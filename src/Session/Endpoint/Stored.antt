-- ===== src/Session/Endpoint/Stored.antt =====
-- What a request to `ask_endpoint` leaves in the session store.
use audit_flow_ai.Base.{
  String, ◌<>◌, ◌≡◌, refl, sym, ap, ◌∙◌, true, false, not, Option, some, ◌==◌, Bool, arith,
  if◌then◌else◌,
}
use audit_flow_ai.Base.Dict.{get}
use audit_flow_ai.Exec.{Result, ok, raised, ◌>>=◌, pure}
use audit_flow_ai.Pipeline.{Sessions, Run, ask}
use audit_flow_ai.Retry.{Layer}
use audit_flow_ai.Schemas.Errors.{timeout_error}
use audit_flow_ai.Schemas.Floats.{Floats}
use audit_flow_ai.Schemas.Session.{AskResponse, status_value}
use audit_flow_ai.Session.State.{SessionState}
use audit_flow_ai.Session.Store.{
  Redis, key, ttl_of, from_json, get_session, set_session, push_recent_turn, enqueue_history_write,
}
use audit_flow_ai.Session.Endpoint.{
  CurrentUser, Serve, on_store, ask_with_state, turn, released, release_after, locked, served,
  handled, ask_endpoint,
}
use audit_flow_ai.Session.Endpoint.Keys.{lock_key, recent_key, lock-key, recent-key}
use audit_flow_ai.Verify.{Judge}
use audit_flow_ai.Session.Endpoint.Kept.{
  IsStore, ok-injective, Here, held, handled-other, served-other,
}

module _ (r : Redis) (laws : IsStore r) (f : Floats) (l : Layer f) (m : Judge) (s : Sessions) where
  -- Where Redis is as `IsStore` says: however a request ends, the value of every key but the user's
  -- own session, lock and recent turns stays as it was.
  pub ask_endpoint-other :
      (question : String) (user : CurrentUser) (j : String)
      → (key user.username == j) ≡ false
      → (lock_key user.username == j) ≡ false
      → (recent_key user.username == j) ≡ false
      → (v : Here r laws f l m s)
      → held r laws f l m s j (ask_endpoint r f l m s question user v).1 ≡ held r laws f l m s j v
  unfolding ask_endpoint
  ask_endpoint-other question user j other unlocked unlisted v =
      handled-other r laws f l m s question user j other unlocked unlisted
        (served r f l m s question user v)
      ∙ served-other r laws f l m s question user j other unlocked unlisted v

  -- A call that returns went through its parts.
  ok-bind :
      {A B : Type 0} (e : Serve r f l m s A) (next : A → Serve r f l m s B)
      (v w : Here r laws f l m s) (b : B)
      → (e >>= next) v ≡ (ok b, w)
      → (a : A) × (u : Here r laws f l m s) × (e v ≡ (ok a, u)) × (next a u ≡ (ok b, w))
  ok-bind {A = A} {B = B} e next v w b h = go (e v) refl h
    where
      go :
          (x : Result A × Here r laws f l m s)
          → e v ≡ x
          → ((λ _. x) >>= next) v ≡ (ok b, w)
          → (a : A) × (u : Here r laws f l m s) × (e v ≡ (ok a, u)) × (next a u ≡ (ok b, w))
      go (ok a, u) same h = (a, u, same, h)
      go (raised y, u) same h = absurd (ground arith)

  -- A request that is answered: the session that was held, or a new one, was taken to the session
  -- that is held now, by a call of `ask` whose reply is the response.
  pub record Answered (question : String) (user : CurrentUser) (response : AskResponse)
      (before after : Here r laws f l m s) : Type 0 where
    pub loaded : SessionState
    pub start : Run l.World m.World
    pub end : Run l.World m.World
    pub was_held : from_json r (held r laws f l m s (key user.username) before) ≡ ok loaded
    pub starts : start.session ≡ loaded
    pub asked : ask f l m s question start ≡ (ok response, end)
    pub is_held : held r laws f l m s (key user.username) after ≡ some (r.dumps end.session)

  module _ (question : String) (user : CurrentUser) where
    loads-held :
        (v u : Here r laws f l m s) (state : SessionState)
        → on_store r f l m s (get_session r user.username) v ≡ (ok state, u)
        → from_json r (held r laws f l m s (key user.username) v) ≡ ok state
    unfolding get_session
    loads-held v u state h = go (r.get_key (key user.username) v.store) refl h
      where
        go :
            (x : Result (Option String) × r.World)
            → r.get_key (key user.username) v.store ≡ x
            → on_store r f l m s ((λ _. x) >>= λ raw w. (from_json r raw, w)) v ≡ (ok state, u)
            → from_json r (held r laws f l m s (key user.username) v) ≡ ok state
        go (ok o, w) same h =
            ap (from_json r) (sym (laws.get_ok (key user.username) v.store o (ap (λ x. x.0) same)))
            ∙ ap (λ x. x.0) h
        go (raised e, w) same h = absurd (ground arith)

    abbrev started : SessionState → Here r laws f l m s → Run l.World m.World
    started state u = record { session = state; below = u.below; bench = u.bench }

    asks :
        (state : SessionState) (u u' : Here r laws f l m s) (x : AskResponse × SessionState)
        → ask_with_state r f l m s question state u ≡ (ok x, u')
        → (end : Run l.World m.World) × (ask f l m s question (started state u) ≡ (ok x.0, end))
          × (end.session ≡ x.1)
    unfolding ask_with_state
    asks state u u' x h = go (ask f l m s question (started state u)) refl h
      where
        go :
            (y : Result AskResponse × Run l.World m.World)
            → ask f l m s question (started state u) ≡ y
            → (let v' : Here r laws f l m s = record u { below = y.1.below; bench = y.1.bench } in
                elim y.0 as (λ _. Result (AskResponse × SessionState) × Here r laws f l m s) [
                  | ok response ↦ (ok (response, y.1.session), v')
                  | raised e ↦ (raised e, v')
                ])
              ≡ (ok x, u')
            → (end : Run l.World m.World) × (ask f l m s question (started state u) ≡ (ok x.0, end))
              × (end.session ≡ x.1)
        go (ok response, end) same h =
            let e : (response, end.session) ≡ x = ok-injective (ap (λ p. p.0) h) in
            (end, same ∙ ap (λ y. (ok y.0, end)) e, ap (λ y. y.1) e)
        go (raised e, end) same h = absurd (ground arith)

    saves :
        (state : SessionState) (u u' : Here r laws f l m s)
        → on_store r f l m s (set_session r user.username state user.role) u ≡ (ok tt, u')
        → held r laws f l m s (key user.username) u' ≡ some (r.dumps state)
    unfolding set_session
    saves state u u' h =
        ap (λ w. get (key user.username) (laws.view w)) (sym (ap (λ p. p.1.store) h))
        ∙ laws.set_ok (key user.username) (r.dumps state) (ttl_of user.role) u.store
            (ap (λ p. p.0) h)

    -- the steps of `turn`, from the last one
    abbrev last : AskResponse × SessionState → Serve r f l m s AskResponse
    last x = on_store r f l m s (set_session r user.username x.1 user.role) >>= λ _. pure x.0

    abbrev from_ask : SessionState → Serve r f l m s AskResponse
    from_ask state = ask_with_state r f l m s question state >>= last

    turn-Answered :
        (v w : Here r laws f l m s) (response : AskResponse)
        → turn r f l m s question user v ≡ (ok response, w)
        → Answered question user response v w
    unfolding turn
    turn-Answered v w response h =
        let (state, u, read, h1) =
          ok-bind (on_store r f l m s (get_session r user.username)) from_ask v w response h in
        let (x, u', asked, h2) =
          ok-bind (ask_with_state r f l m s question state) last u w response h1 in
        let (z, u'', saved, h3) =
          ok-bind (on_store r f l m s (set_session r user.username x.1 user.role)) (λ _. pure x.0)
            u' w response h2 in
        let (end, replied, left) = asks state u u' x asked in
        let same : x.0 ≡ response = ok-injective (ap (λ p. p.0) h3) in
        record {
          loaded = state;
          start = started state u;
          end = end;
          was_held = loads-held v u state read;
          starts = refl;
          asked = replied ∙ ap (λ y. (ok y, end)) same;
          is_held =
              ap (held r laws f l m s (key user.username)) (sym (ap (λ p. p.1) h3))
              ∙ saves x.1 u' u'' saved
              ∙ ap (λ y. some (r.dumps y)) (sym left);
        }

    -- The lock, the turns and the queue leave the session's value.
    Answered-move :
        (v v' w w' : Here r laws f l m s) (response : AskResponse)
        → held r laws f l m s (key user.username) v' ≡ held r laws f l m s (key user.username) v
        → held r laws f l m s (key user.username) w' ≡ held r laws f l m s (key user.username) w
        → Answered question user response v w
        → Answered question user response v' w'
    Answered-move v v' w w' response e e' a = record {
      loaded = a.loaded;
      start = a.start;
      end = a.end;
      was_held = ap (from_json r) e ∙ a.was_held;
      starts = a.starts;
      asked = a.asked;
      is_held = e' ∙ a.is_held;
    }

    released-ok :
        (x : Result AskResponse) (y : Result Unit) (response : AskResponse)
        → released r f l m s x y ≡ ok response
        → x ≡ ok response
    released-ok x (ok u) response h = h
    released-ok x (raised e) response h = absurd (ground arith)

    abbrev Block : Serve r f l m s AskResponse
    Block = turn r f l m s question user

    release_after-ok :
        (x : Result AskResponse × Here r laws f l m s) (w : Here r laws f l m s)
        (response : AskResponse)
        → release_after r f l m s user.username x ≡ (ok response, w)
        → (x ≡ (ok response, x.1))
          × (held r laws f l m s (key user.username) w
              ≡ held r laws f l m s (key user.username) x.1)
    unfolding release_after
    release_after-ok (x, v) w response h = (
      ap (λ z. (z, v))
          (released-ok x (r.release ("session-lock:" <> user.username) v.store).0 response
            (ap (λ p. p.0) h)),
      ap (λ p. held r laws f l m s (key user.username) p.1) (sym h)
          ∙ laws.release_other (lock_key user.username) v.store (key user.username)
              (lock-key user.username user.username),
    )

    after_acquire :
        (acquired : Bool) (u w : Here r laws f l m s) (response : AskResponse)
        → (if not acquired
            then (raised timeout_error, u)
            else release_after r f l m s user.username (Block u))
          ≡ (ok response, w)
        → Answered question user response u w
    after_acquire false u w response h = absurd (ground arith)
    after_acquire true u w response h =
        let (e, same) = release_after-ok (Block u) w response h in
        Answered-move u u (Block u).1 w response refl same (turn-Answered u (Block u).1 response e)

    locked-Answered :
        (v w : Here r laws f l m s) (response : AskResponse)
        → locked r f l m s user.username Block v ≡ (ok response, w)
        → Answered question user response v w
    unfolding locked
    locked-Answered v w response h =
        let acquire : Serve r f l m s Bool =
          on_store r f l m s (r.acquire ("session-lock:" <> user.username) 10 5) in
        let (acquired, u, got, h1) =
          ok-bind acquire
            (λ acquired u.
              if not acquired
              then (raised timeout_error, u)
              else release_after r f l m s user.username (Block u))
            v w response h in
        Answered-move u v w w response
          (sym (
              laws.acquire_other (lock_key user.username) 10 5 v.store (key user.username)
                (lock-key user.username user.username))
            ∙ ap (λ p. held r laws f l m s (key user.username) p.1) got)
          refl (after_acquire acquired u w response h1)

    abbrev noting : AskResponse → Serve r f l m s Unit
    noting response = on_store r f l m s (
        push_recent_turn r user.username question (status_value response.status)
          response.top_contract)

    abbrev queueing : AskResponse → Serve r f l m s Unit
    queueing response = on_store r f l m s (enqueue_history_write r user.username question response)

    served-Answered :
        (v w : Here r laws f l m s) (response : AskResponse)
        → served r f l m s question user v ≡ (ok response, w)
        → Answered question user response v w
    unfolding served push_recent_turn enqueue_history_write
    served-Answered v w response h =
        let (x, u, block, h1) =
          ok-bind (locked r f l m s user.username Block)
            (λ x. noting x >>= λ _. queueing x >>= λ _. pure x) v w response h in
        let (z, u', noted, h2) =
          ok-bind (noting x) (λ _. queueing x >>= λ _. pure x) u w response h1 in
        let same : x ≡ response = ok-injective (ap (λ p. p.0) h2) in
        Answered-move v v u w response refl
          (ap (λ p. held r laws f l m s (key user.username) p.1) (sym h2)
            ∙ ap (get (key user.username)) (laws.enqueue_view _ u'.store)
            ∙ ap (λ p. held r laws f l m s (key user.username) p.1) (sym noted)
            ∙ laws.push_other (recent_key user.username) _ _ _ u.store (key user.username)
                (recent-key user.username user.username))
          (locked-Answered v u response (block ∙ ap (λ y. (ok y, u)) same))

    handled-ok :
        (x : Result AskResponse × Here r laws f l m s) (w : Here r laws f l m s)
        (response : AskResponse)
        → handled r f l m s x ≡ (ok response, w)
        → x ≡ (ok response, w)
    handled-ok (ok a, v) w response h = h
    handled-ok (raised e, v) w response h = absurd (ground arith)

    -- Where Redis is as `IsStore` says: a request that returns was answered by `ask` from the
    -- session that was held for the user, or from a new one where none was, and what is held for
    -- the user afterwards is the session that `ask` left.
    pub ask_endpoint-Answered :
        (v w : Here r laws f l m s) (response : AskResponse)
        → ask_endpoint r f l m s question user v ≡ (ok response, w)
        → Answered question user response v w
    unfolding ask_endpoint
    ask_endpoint-Answered v w response h = served-Answered v w response (handled-ok _ w response h)
