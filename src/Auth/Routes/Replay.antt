-- ===== src/Auth/Routes/Replay.antt =====
-- What a refresh token is good for over the life of the server: any sequence of logins, refreshes and
-- logouts, of any users.
use audit_flow_ai.Base.{
  ℕ, String, ◌≡◌, refl, sym, ap, ◌∙◌, inl, inr, true, false, not, ◌||◌, Option, none, some,
  Bool-cases, Option-cases, arith, suc,
}
use audit_flow_ai.Base.Dict.{get}
use audit_flow_ai.Base.Text.{is_blank}
use audit_flow_ai.Exec.{Result, ok, raised, pure, ◌>>=◌}
use audit_flow_ai.Schemas.Errors.{audit, authentication_error}
use audit_flow_ai.Auth.Refresh.{
  User, Token, Issued, Crypto, revoke_rows, issue_refresh_token, revoke_all_for_user,
  rotate_refresh_token,
}
use audit_flow_ai.Auth.Refresh.Rotation.{
  Here, Rotated, Ends, rotate_refresh_token-Ends, rotate_refresh_token-reused,
}
use audit_flow_ai.Auth.Refresh.History.{
  Keeps, Keeps-trans, revoke_rows-Keeps, revoke_rows-spent, issue_refresh_token-Keeps,
  rotate_refresh_token-Keeps, Keeps-bind,
}
use audit_flow_ai.Auth.Routes.{
  Cookie, cleared, Reply, Clock, answer, login_as, login, dismiss, refresh_as, refreshed,
  refresh_with, refresh, revoke_owner, logout,
}

module _ (c : Crypto) where
  -- A request to one of the routes, which may be refused.
  pub data Request (v : Here c) : Here c → Type 0 where
    logging_in :
        (username password : String) (clock : Clock)
        → Request v (login c username password clock v).1
    refreshing : (cookie : Option String) (clock : Clock) → Request v (refresh c cookie clock v).1
    logging_out : (cookie : Option String) (now : ℕ) → Request v (logout c cookie now v).1

  pub data Later (v : Here c) : Here c → Type 0 where
    at_once : Later v v
    after : (w u : Here c) → Later v w → Request w u → Later v u

  login_as-Keeps :
      (password : String) (clock : Clock) (o : Option User) (v : Here c)
      → Keeps v.tokens (login_as c password clock o v).1.tokens
  unfolding login_as
  login_as-Keeps password clock none v = λ k row at e was. e
  login_as-Keeps password clock (some user) v =
      elim (Bool-cases (not user.is_active || not (c.checkpw password user.password_hash))) [
        | inl bad ↦ rw bad (λ k row at e was. e)
        | inr good ↦ rw good (
            Keeps-bind c (issue_refresh_token c user.username clock.now)
              (λ issued. pure (answer c user.username user.role clock issued)) v
              (issue_refresh_token-Keeps c user.username clock.now v)
              (λ issued w k row at e was. e))
      ]

  refresh_as-Keeps :
      (username : String) (clock : Clock) (issued : Issued) (o : Option User) (v : Here c)
      → Keeps v.tokens (refresh_as c username clock issued o v).1.tokens
  unfolding refresh_as dismiss revoke_all_for_user
  refresh_as-Keeps username clock issued none v = revoke_rows-Keeps username clock.now v.tokens
  refresh_as-Keeps username clock issued (some user) v = elim (Bool-cases user.is_active) [
    | inl e ↦ rw e (λ k row at e was. e)
    | inr e ↦ rw e (revoke_rows-Keeps username clock.now v.tokens)
  ]

  refresh_with-Keeps :
      (clock : Clock) (token : String) (v : Here c)
      → Keeps v.tokens (refresh_with c clock token v).1.tokens
  unfolding refresh_with refreshed
  refresh_with-Keeps clock token v = elim (Bool-cases (is_blank token)) [
    | inl e ↦ rw e (λ k row at e was. e)
    | inr e ↦ rw e (
        Keeps-bind c (rotate_refresh_token c token clock.now) (refreshed c clock) v
          (rotate_refresh_token-Keeps c token clock.now v)
          (λ r w. refresh_as-Keeps r.0 clock r.1 _ w))
  ]

  revoke_owner-Keeps :
      (now : ℕ) (o : Option Token) (v : Here c) → Keeps v.tokens (revoke_owner c now o v).1.tokens
  unfolding revoke_owner revoke_all_for_user
  revoke_owner-Keeps now none v = λ k row at e was. e
  revoke_owner-Keeps now (some row) v = revoke_rows-Keeps row.username now v.tokens

  logout-Keeps :
      (cookie : Option String) (now : ℕ) (v : Here c)
      → Keeps v.tokens (logout c cookie now v).1.tokens
  unfolding logout
  logout-Keeps none now v = λ k row at e was. e
  logout-Keeps (some token) now v = elim (Bool-cases (is_blank token)) [
    | inl e ↦ rw e (λ k row at e was. e)
    | inr e ↦ rw e (
        Keeps-bind c (λ u. revoke_owner c now (get (c.hash token) u.tokens) u) (λ _. pure cleared) v
          (revoke_owner-Keeps now _ v) (λ _ w k row at e was. e))
  ]

  Request-Keeps : (v w : Here c) → Request v w → Keeps v.tokens w.tokens
  unfolding login refresh
  Request-Keeps v _ (logging_in username password clock) = login_as-Keeps password clock _ v
  Request-Keeps v _ (refreshing none clock) = λ k row at e was. e
  Request-Keeps v _ (refreshing (some token) clock) = refresh_with-Keeps clock token v
  Request-Keeps v _ (logging_out cookie now) = logout-Keeps cookie now v

  Later-Keeps : (v w : Here c) → Later v w → Keeps v.tokens w.tokens
  Later-Keeps v _ at_once = λ k row at e was. e
  Later-Keeps v _ (after w u l r) = Keeps-trans _ _ _ (Later-Keeps v w l) (Request-Keeps w u r)

  -- A refresh that succeeds.
  pub record Refreshed (token : String) (clock : Clock) (reply : Reply) (v w : Here c)
      : Type 0 where
    pub username : String
    pub issued : Issued
    pub user : User
    pub rotated : Rotated c token clock.now username issued v w
    pub found : get username w.users ≡ some user
    pub active : user.is_active ≡ true
    pub replies : reply ≡ answer c username user.role clock issued

  abbrev Fine : String → Clock → Here c → Result Reply × Here c → Type 0
  Fine token clock v (ok reply, w) = Refreshed token clock reply v w
  Fine token clock v (raised e, w) = Unit

  refresh_as-Fine :
      (token : String) (clock : Clock) (username : String) (issued : Issued) (v w : Here c)
      (o : Option User)
      → Rotated c token clock.now username issued v w
      → get username w.users ≡ o
      → Fine token clock v (refresh_as c username clock issued o w)
  unfolding refresh_as dismiss revoke_all_for_user
  refresh_as-Fine token clock username issued v w none r e = tt
  refresh_as-Fine token clock username issued v w (some user) r e =
      elim (Bool-cases user.is_active) [
        | inr off ↦ rw off tt
        | inl on ↦ rw on (record {
          username = username;
          issued = issued;
          user = user;
          rotated = r;
          found = e;
          active = on;
          replies = refl;
        })
      ]

  refresh_with-Fine :
      (token : String) (clock : Clock) (v : Here c)
      → Fine token clock v (refresh_with c clock token v)
  unfolding refresh_with refreshed
  refresh_with-Fine token clock v = elim (Bool-cases (is_blank token)) [
    | inl e ↦ rw e tt
    | inr e ↦ rw e (
        next (rotate_refresh_token c token clock.now v)
          (rotate_refresh_token-Ends c token clock.now v))
  ]
    where
      next :
          (x : Result (String × Issued) × Here c)
          → Ends c token clock.now v x
          → Fine token clock v (((λ _. x) >>= refreshed c clock) v)
      next (ok (username, issued), w) r = refresh_as-Fine token clock username issued v w _ r refl
      next (raised e, w) r = tt

  -- A refresh succeeds only for a token that is live, unexpired and of an active user. The token is
  -- revoked, the one that replaces it is live and set as the cookie, and no other row changes.
  pub refresh-Refreshed :
      (token : String) (clock : Clock) (v w : Here c) (reply : Reply)
      → refresh c (some token) clock v ≡ (ok reply, w)
      → Refreshed token clock reply v w
  unfolding refresh
  refresh-Refreshed token clock v w reply h = rw h at (refresh_with-Fine token clock v)

  refresh_with-reused :
      (token : String) (at : ℕ) (clock : Clock) (v : Here c) (row : Token)
      → is_blank token ≡ false
      → get (c.hash token) v.tokens ≡ some row
      → row.revoked_at ≡ some at
      → refresh_with c clock token v ≡ (
        raised (audit authentication_error),
        record v {
          tokens = revoke_rows row.username clock.now v.tokens;
          reuse_total = suc v.reuse_total;
        },
      )
  unfolding refresh_with
  refresh_with-reused token at clock v row filled found was = rw filled (
      ap (λ x. ((λ _. x) >>= refreshed c clock) v)
        (rotate_refresh_token-reused c token clock.now at v row found was))

  refresh_with-filled :
      (token : String) (clock : Clock) (v w : Here c) (reply : Reply)
      → refresh_with c clock token v ≡ (ok reply, w)
      → is_blank token ≡ false
  unfolding refresh_with
  refresh_with-filled token clock v w reply h = elim (Bool-cases (is_blank token)) [
    | inr e ↦ e
    | inl e ↦
        let refused : Result Reply × Here c = (raised (audit authentication_error), v) in
        let k : refused ≡ (ok reply, w) = rw e at h in ground arith
  ]

  -- After a refresh with a token that is in the table has succeeded, every later refresh with it is
  -- refused, whatever was requested between them; each row of its user is then revoked, and the
  -- reuse is counted.
  pub refresh-once :
      (token : String) (clock clock' : Clock) (v w u : Here c) (reply : Reply) (row : Token)
      → refresh c (some token) clock v ≡ (ok reply, w)
      → get (c.hash token) v.tokens ≡ some row
      → Later w u
      → refresh c (some token) clock' u ≡ (
        raised (audit authentication_error),
        record u {
          tokens = revoke_rows row.username clock'.now u.tokens;
          reuse_total = suc u.reuse_total;
        },
      )
  unfolding refresh
  refresh-once token clock clock' v w u reply row h found later =
      let r = (refresh-Refreshed token clock v w reply h).rotated in
      let spent : Token = record row { revoked_at = some clock.now } in
      let same : some r.row ≡ some row = sym r.found ∙ found in
      let gone : get (c.hash token) w.tokens ≡ some spent = ground (arith, r.spent) in
      refresh_with-reused token clock.now clock' u spent
        (refresh_with-filled token clock v w reply h)
        (Later-Keeps w u later (c.hash token) spent clock.now gone refl) refl

  logout-tokens :
      (token : String) (at : ℕ) (v : Here c) (row : Token)
      → is_blank token ≡ false
      → get (c.hash token) v.tokens ≡ some row
      → (logout c (some token) at v).1.tokens ≡ revoke_rows row.username at v.tokens
  unfolding logout revoke_owner revoke_all_for_user
  logout-tokens token at v row filled found = rw filled (
      ap (λ o. (((λ u. revoke_owner c at o u) >>= λ _. pure {A = Cookie} cleared) v).1.tokens)
        found)

  -- After a logout with a known token that is not empty, every token that its user had by then and that
  -- is not empty is refused, whatever is requested after it.
  pub logout-ends :
      (token token' : String) (at : ℕ) (clock : Clock) (v u : Here c) (row row' : Token)
      → is_blank token ≡ false
      → is_blank token' ≡ false
      → get (c.hash token) v.tokens ≡ some row
      → get (c.hash token') (logout c (some token) at v).1.tokens ≡ some row'
      → row'.username ≡ row.username
      → Later (logout c (some token) at v).1 u
      → (refresh c (some token') clock u).0 ≡ raised (audit authentication_error)
  unfolding refresh
  logout-ends token token' at clock v u row row' filled filled' found found' same later =
      let gone : get (c.hash token') (revoke_rows row.username at v.tokens) ≡ some row' =
        sym (ap (get (c.hash token')) (logout-tokens token at v row filled found)) ∙ found' in
      elim (Option-cases row'.revoked_at) [
        | inl live ↦
            absurd (revoke_rows-spent (c.hash token') row.username at v.tokens row' gone same live)
        | inr (was, e) ↦
            ap (λ x. x.0)
              (refresh_with-reused token' was clock u row' filled'
                (Later-Keeps _ u later (c.hash token') row' was found' e) e)
      ]
