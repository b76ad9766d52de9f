-- ===== src/Tests/Guarding.antt =====
-- A viewer who asks, and who tries to delete.
use audit_flow_ai.Base.{◌≡◌, refl, none, some, [], ◌∷◌, any, ◌==◌, ◌&&◌, ◌||◌, if◌then◌else◌}
use audit_flow_ai.Base.Dict.{get}
use audit_flow_ai.Base.Text.{is_blank, has_prefix, drop_as, strip, strip_left, strip_right}
use audit_flow_ai.Exec.{ok, raised}
use audit_flow_ai.Schemas.Errors.{audit, authorization_error}
use audit_flow_ai.Auth.Access.{
  Access, IsCasbin, has_role, guard, get_current_user, require_permission, bearer, decode_token,
  user_of,
}
use audit_flow_ai.Auth.Access.Rights.{Guarded, guard-Guarded}
use audit_flow_ai.Tests.Fixtures.{ascii}

abbrev access : Access
access = record {
  tables = ascii;
  decode = λ token. if token == "t1" then some (("sub", "ann") ∷ ("role", "viewer") ∷ []) else none;
  enforce = λ p g sub obj act.
      any
        (λ r.
          has_role 10 g sub r.sub
          && (((r.obj == "*") || (obj == r.obj)) && ((r.act == "*") || (act == r.act))))
        p;
}

access-IsCasbin : IsCasbin access.enforce
access-IsCasbin = λ p g sub obj act. refl

ask_runs :
    guard access "ask" "execute" (some "Bearer t1")
    ≡ ok (record { username = "ann"; role = "viewer" })
unfolding guard get_current_user require_permission bearer decode_token user_of get is_blank
    has_prefix drop_as strip strip_left strip_right
ask_runs = refl

delete_runs :
    guard access "documents" "delete" (some "Bearer t1") ≡ raised (audit authorization_error)
unfolding guard get_current_user require_permission bearer decode_token user_of get is_blank
    has_prefix drop_as strip strip_left strip_right
delete_runs = refl

guard-Guarded_example :
    Guarded access "ask" "execute"
      (some "Bearer t1")
      (guard access "ask" "execute" (some "Bearer t1"))
guard-Guarded_example = guard-Guarded access access-IsCasbin "ask" "execute" (some "Bearer t1")
