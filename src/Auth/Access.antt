-- ===== src/Auth/Access.antt =====
-- src/auditflow/auth/dependencies.py, `decode_token` of security.py, and the policy that
-- casbin_enforcer.py loads: src/auditflow/RBAC/policy.csv. JWT and the Casbin engine are parameters.
pub mod Rights
use mathlib.Core.Path.{ap₂}
use audit_flow_ai.Base.{
  ℕ, zero, suc, String, ◌==◌, Bool, true, false, not, ◌&&◌, ◌||◌, ◌≡◌, refl, sym, ap, ◌∙◌, ◌⊎◌, inl,
  inr, Option, none, some, List, [], ◌∷◌, any, if◌then◌else◌, Bool-cases, Option-cases, arith,
}
use audit_flow_ai.Base.Dict.{Dict, get}
use audit_flow_ai.Base.Text.{Tables, is_blank, has_prefix, drop_as, strip}
use audit_flow_ai.Exec.{Result, ok, raised}
use audit_flow_ai.Schemas.Errors.{audit, authentication_error, authorization_error, other}
use audit_flow_ai.Session.Endpoint.{CurrentUser}

-- a line `p, sub, obj, act`
pub record Rule : Type 0 where
  pub sub : String
  pub obj : String
  pub act : String

abbrev rule : String → String → String → Rule
rule sub obj act = record { sub = sub; obj = obj; act = act }

abbrev pub policy : List Rule
policy =
    rule "viewer" "ask" "execute"
    ∷ rule "viewer" "history" "read_own"
    ∷ rule "admin" "history" "read_all"
    ∷ rule "employee" "documents" "read"
    ∷ rule "employee" "documents" "write"
    ∷ rule "ceo" "documents" "delete"
    ∷ rule "ceo" "reports" "read"
    ∷ rule "admin" "*" "*"
    ∷ []

-- the lines `g, role, inherited role`
abbrev pub grouping : List (String × String)
grouping = ("employee", "viewer") ∷ ("ceo", "employee") ∷ ("admin", "ceo") ∷ []

-- `decode` gives `none` where JWT raises.
pub record Access : Type 0 where
  pub tables : Tables
  pub decode : String → Option (Dict String)
  pub enforce : List Rule → List (String × String) → String → String → String → Bool

-- A role has the roles that it inherits, through at most `n` lines.
abbrev pub has_role : ℕ → List (String × String) → String → String → Bool
has_role zero g role sub = role == sub
has_role (suc n) g role sub =
    (role == sub) || any (λ line. (role == line.0) && has_role n g line.1 sub) g

-- What Casbin documents: the matcher of casbin_model.conf, over roles that are inherited through at most ten
-- lines.
abbrev pub IsCasbin :
    (List Rule → List (String × String) → String → String → String → Bool) → Type 0
IsCasbin enforce =
    (p : List Rule) (g : List (String × String)) (sub obj act : String)
    → enforce p g sub obj act
      ≡ any
          (λ r.
            has_role 10 g sub r.sub
            && (((r.obj == "*") || (obj == r.obj)) && ((r.act == "*") || (act == r.act))))
          p

module _ (x : Access) where
  unfoldable pub decode_token : String → Result (Dict String)
  decode_token token = elim (x.decode token) [
    | none ↦ raised (audit authentication_error)
    | some payload ↦ ok payload
  ]

  -- `authorization.removeprefix("Bearer ").strip()`
  unfoldable pub bearer : String → String
  unfolding strip drop_as
  bearer authorization = strip x.tables.is_space (drop_as authorization "Bearer ")

  -- A payload without one of the two claims raises KeyError.
  unfoldable pub user_of : Option String → Option String → Result CurrentUser
  user_of none role = raised other
  user_of (some sub) none = raised other
  user_of (some sub) (some role) = ok (record { username = sub; role = role })

  unfoldable pub get_current_user : Option String → Result CurrentUser
  unfolding is_blank has_prefix bearer decode_token user_of
  get_current_user none = raised (audit authentication_error)
  get_current_user (some authorization) =
      if is_blank authorization || not (has_prefix authorization "Bearer ")
      then raised (audit authentication_error)
      else elim (decode_token (bearer authorization)) [
        | raised e ↦ raised e
        | ok payload ↦ user_of (get "sub" payload) (get "role" payload)
      ]

  -- `_check`, for a user who is known
  unfoldable pub require_permission : String → String → CurrentUser → Result CurrentUser
  require_permission resource action user =
      if x.enforce policy grouping user.role resource action
      then ok user
      else raised (audit authorization_error)

  -- The dependency of a route on the `Authorization` header
  unfoldable pub guard : String → String → Option String → Result CurrentUser
  unfolding get_current_user require_permission
  guard resource action authorization = elim (get_current_user authorization) [
    | raised e ↦ raised e
    | ok user ↦ require_permission resource action user
  ]
