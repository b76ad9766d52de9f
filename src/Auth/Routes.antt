-- ===== src/Auth/Routes.antt =====
-- src/auditflow/auth/routes.py: what each route answers and the cookie that it sets. The clock is
-- read where the code reads it.
pub mod Replay
use audit_flow_ai.Base.{
  ℕ, ◌+◌, ◌-◌, ◌*◌, ◌/◌, String, Bool, true, false, not, ◌||◌, Option, none, some, if◌then◌else◌,
}
use audit_flow_ai.Base.Dict.{get}
use audit_flow_ai.Base.Text.{is_blank}
use audit_flow_ai.Exec.{Result, ok, raised, Exec, ◌>>=◌, ◌>>◌, pure, raise, modify}
use audit_flow_ai.Schemas.Errors.{audit, authentication_error}
use audit_flow_ai.Auth.Refresh.{
  User, Token, Issued, Crypto, Vault, Db, issue_refresh_token, revoke_all_for_user,
  rotate_refresh_token,
}

-- What a route does to the refresh cookie of its response.
pub data Cookie : Type 0 where
  untouched : Cookie
  set : String → ℕ → Cookie
  cleared : Cookie

-- `LoginResponse` and `RefreshResponse`, beside the cookie
pub record Reply : Type 0 where
  pub access_token : String
  pub role : String
  pub cookie : Cookie

-- The readings of the clock: of refresh.py, of `issue_token` in seconds, of `_set_refresh_cookie`.
pub record Clock : Type 0 where
  pub now : ℕ
  pub seconds : ℕ
  pub at_cookie : ℕ

-- `ACCESS_TOKEN_EXPIRY_SECONDS`
abbrev access_token_expiry_seconds : ℕ
access_token_expiry_seconds = 15 * 60

-- `max(0, int(…))`
unfoldable pub set_refresh_cookie : Issued → ℕ → Cookie
set_refresh_cookie issued now = set issued.raw_token ((issued.expires_at - now) / 1000000)

module _ (c : Crypto) where
  unfoldable pub issue_token : String → String → ℕ → String
  issue_token username role now = c.encode username role now (now + access_token_expiry_seconds)

  -- the end of `login` and of `refresh`
  unfoldable pub answer : String → String → Clock → Issued → Reply
  unfolding issue_token set_refresh_cookie
  answer username role clock issued = record {
    access_token = issue_token username role clock.seconds;
    role = role;
    cookie = set_refresh_cookie issued clock.at_cookie;
  }

  unfoldable pub login_as : String → Clock → Option User → Db c Reply
  unfolding answer issue_refresh_token
  login_as password clock none = raise (audit authentication_error)
  login_as password clock (some user) =
      if not user.is_active || not (c.checkpw password user.password_hash)
      then raise (audit authentication_error)
      else (do
        issued ← issue_refresh_token c user.username clock.now
        pure (answer user.username user.role clock issued))

  unfoldable pub login : String → String → Clock → Db c Reply
  unfolding login_as
  login username password clock v = login_as password clock (get username v.users) v

  -- `revoke_all_for_user`, `_clear_refresh_cookie`, `raise`
  unfoldable pub dismiss : String → ℕ → Db c Reply
  unfolding revoke_all_for_user
  dismiss username now = do revoke_all_for_user c username now; raise (audit authentication_error)

  unfoldable pub refresh_as : String → Clock → Issued → Option User → Db c Reply
  unfolding answer dismiss
  refresh_as username clock issued none = dismiss username clock.now
  refresh_as username clock issued (some user) =
      if not user.is_active
      then dismiss username clock.now
      else pure (answer username user.role clock issued)

  unfoldable pub refreshed : Clock → String × Issued → Db c Reply
  unfolding refresh_as
  refreshed clock (username, issued) v = refresh_as username clock issued (get username v.users) v

  unfoldable pub refresh_with : Clock → String → Db c Reply
  unfolding rotate_refresh_token refreshed
  refresh_with clock token =
      if is_blank token
      then raise (audit authentication_error)
      else (do rotated ← rotate_refresh_token c token clock.now; refreshed clock rotated)

  -- The cookie of the request is `None` where there is none.
  unfoldable pub refresh : Option String → Clock → Db c Reply
  unfolding refresh_with
  refresh none clock = raise (audit authentication_error)
  refresh (some token) clock = refresh_with clock token

  -- `_resolve_owner_for_logout` and what follows it
  unfoldable pub revoke_owner : ℕ → Option Token → Db c Unit
  unfolding revoke_all_for_user
  revoke_owner now none = pure tt
  revoke_owner now (some row) = revoke_all_for_user c row.username now

  unfoldable pub logout : Option String → ℕ → Db c Cookie
  unfolding revoke_owner
  logout none now = pure cleared
  logout (some token) now =
      if is_blank token
      then pure cleared
      else (do λ v. revoke_owner now (get (c.hash token) v.tokens) v; pure cleared)
