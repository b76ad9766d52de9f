-- ===== src/Tests/Sessions.antt =====
-- A login, a refresh with its token, and a logout.
use audit_flow_ai.Base.{ℕ, suc, ◌≡◌, refl, false, some, [], ◌∷◌}
use audit_flow_ai.Base.Dict.{get, put}
use audit_flow_ai.Base.Text.{is_blank}
use audit_flow_ai.Exec.{ok, raised}
use audit_flow_ai.Schemas.Errors.{audit, authentication_error}
use audit_flow_ai.Auth.Refresh.{
  Vault, new_token, revoke, revoke_rows, insert, insert_over, generate_refresh_token,
  issue_refresh_token, replace_row, try_row, conclude, revoke_all_for_user, rotate_refresh_token,
}
use audit_flow_ai.Auth.Refresh.Rotation.{Ends, rotate_refresh_token-Ends}
use audit_flow_ai.Auth.Routes.{
  Reply, set, login, login_as, refresh, refresh_as, refreshed, refresh_with, logout, revoke_owner,
  answer, issue_token, set_refresh_cookie,
}
use audit_flow_ai.Auth.Routes.Replay.{
  at_once, after, refreshing, Refreshed, refresh-Refreshed, refresh-once, logout-ends,
}
use audit_flow_ai.Tests.Fixtures.{crypto, ann, clock}

-- "ann" with a live token "t0".
abbrev logged_in : Vault ℕ
logged_in = record {
  tokens = ("t0", new_token "ann" 3) ∷ [];
  users = ("ann", ann) ∷ [];
  reuse_total = 0;
  entropy = 0;
}

abbrev renewed : Vault ℕ
renewed = record logged_in {
  tokens =
      ("t0", record (new_token "ann" 3) { revoked_at = some 5 }) ∷ ("t1", new_token "ann" 5) ∷ [];
  entropy = 1;
}

abbrev granted : Reply
granted = record { access_token = "ann"; role = "viewer"; cookie = set "t1" 604800 }

login_runs : (login crypto "ann" "pw" clock (record logged_in { tokens = [] })).0 ≡ ok granted
unfolding login login_as answer issue_token set_refresh_cookie issue_refresh_token
    generate_refresh_token insert insert_over get put
login_runs = refl

refresh_runs : refresh crypto (some "t0") clock logged_in ≡ (ok granted, renewed)
unfolding refresh refresh_with refreshed refresh_as answer issue_token set_refresh_cookie
    rotate_refresh_token try_row conclude replace_row generate_refresh_token insert insert_over get
    put is_blank
refresh_runs = refl

refresh-Refreshed_example : Refreshed crypto "t0" clock granted logged_in renewed
refresh-Refreshed_example =
    refresh-Refreshed crypto "t0" clock logged_in renewed granted refresh_runs

t0_found : get "t0" logged_in.tokens ≡ some (new_token "ann" 3)
unfolding get
t0_found = refl

-- The token that replaced "t0" is used in between.
abbrev moved : Vault ℕ
moved = (refresh crypto (some "t1") clock renewed).1

refresh-once_example : refresh crypto (some "t0") clock moved ≡ (
  raised (audit authentication_error),
  record moved { tokens = revoke_rows "ann" 5 moved.tokens; reuse_total = suc moved.reuse_total },
)
refresh-once_example =
    refresh-once crypto "t0" clock clock logged_in renewed moved granted (new_token "ann" 3)
      refresh_runs t0_found (after renewed moved at_once (refreshing (some "t1") clock))

abbrev logged_out : Vault ℕ
logged_out = (logout crypto (some "t1") 6 renewed).1

t1_found : get "t1" renewed.tokens ≡ some (new_token "ann" 5)
unfolding get
t1_found = refl

t1_gone : get "t1" logged_out.tokens ≡ some (record (new_token "ann" 5) { revoked_at = some 6 })
unfolding logout revoke_owner revoke_all_for_user revoke_rows revoke get is_blank
t1_gone = refl

t1_filled : is_blank "t1" ≡ false
unfolding is_blank
t1_filled = refl

logout-ends_example :
    (refresh crypto (some "t1") clock logged_out).0 ≡ raised (audit authentication_error)
logout-ends_example =
    logout-ends crypto "t1" "t1" 6 clock renewed logged_out (new_token "ann" 5) _ t1_filled
      t1_filled t1_found t1_gone refl at_once

rotate_refresh_token-Ends_example :
    Ends crypto "t0" 5 logged_in (rotate_refresh_token crypto "t0" 5 logged_in)
rotate_refresh_token-Ends_example = rotate_refresh_token-Ends crypto "t0" 5 logged_in
