-- ===== src/Auth/Access/Rights.antt =====
-- What each role may do, and who passes the guard of a route.
use mathlib.Core.Path.{ap₂}
use audit_flow_ai.Base.{
  String, ◌==◌, Bool, true, false, not, ◌&&◌, ◌||◌, ◌≡◌, refl, sym, ◌∙◌, ◌⊎◌, inl, inr, Option,
  none, some, any, Bool-cases, Option-cases, arith,
}
use audit_flow_ai.Base.Dict.{Dict, get}
use audit_flow_ai.Base.Text.{is_blank, has_prefix}
use audit_flow_ai.Exec.{Result, ok, raised}
use audit_flow_ai.Schemas.Errors.{audit, authentication_error, authorization_error, other}
use audit_flow_ai.Session.Endpoint.{CurrentUser}
use audit_flow_ai.Auth.Access.{
  policy, grouping, has_role, IsCasbin, Access, decode_token, bearer, user_of, get_current_user,
  require_permission, guard,
}

-- What each role may do, written out.
abbrev pub is_viewer_right : String → String → Bool
is_viewer_right obj act =
    ((obj == "ask") && (act == "execute")) || ((obj == "history") && (act == "read_own"))

abbrev pub is_employee_right : String → String → Bool
is_employee_right obj act =
    is_viewer_right obj act
    || ((obj == "documents") && (act == "read"))
    || ((obj == "documents") && (act == "write"))

abbrev pub is_ceo_right : String → String → Bool
is_ceo_right obj act =
    is_employee_right obj act
    || ((obj == "documents") && (act == "delete"))
    || ((obj == "reports") && (act == "read"))

abbrev pub permitted : String → String → String → Bool
permitted role obj act =
    (role == "admin")
    || ((role == "ceo") && is_ceo_right obj act)
    || ((role == "employee") && is_employee_right obj act)
    || ((role == "viewer") && is_viewer_right obj act)

-- The roles that have each role
viewers :
    (v e c a : Bool)
    → v || ((e && true) || ((c && true) || ((a && true) || false))) ≡ v || (e || (c || a))
viewers v e c a = ground arith

employees :
    (e c a : Bool) → e || ((e && false) || ((c && true) || ((a && true) || false))) ≡ e || (c || a)
employees e c a = ground arith

ceos : (e c a : Bool) → c || ((e && false) || ((c && false) || ((a && true) || false))) ≡ c || a
ceos e c a = ground arith

has_viewer :
    (role : String)
    → has_role 10 grouping role "viewer"
      ≡ (role == "viewer") || ((role == "employee") || ((role == "ceo") || (role == "admin")))
has_viewer role = viewers (role == "viewer") (role == "employee") (role == "ceo") (role == "admin")

has_employee :
    (role : String)
    → has_role 10 grouping role "employee"
      ≡ (role == "employee") || ((role == "ceo") || (role == "admin"))
has_employee role = employees (role == "employee") (role == "ceo") (role == "admin")

has_ceo : (role : String) → has_role 10 grouping role "ceo" ≡ (role == "ceo") || (role == "admin")
has_ceo role = ceos (role == "employee") (role == "ceo") (role == "admin")

admins : (e c a : Bool) → a || ((e && false) || ((c && false) || ((a && false) || false))) ≡ a
admins e c a = ground arith

has_admin : (role : String) → has_role 10 grouping role "admin" ≡ (role == "admin")
has_admin role = admins (role == "employee") (role == "ceo") (role == "admin")

-- the rules of each role, side by side
abbrev of_rights : Bool → Bool → Bool → Bool → Bool → Bool → Bool → Bool → Bool → Bool → Bool → Bool
of_rights v e c a r1 r2 r3 r4 r5 r6 r7 =
    (v && r1)
    || ((v && r2)
        || ((a && r3)
            || ((e && r4) || ((e && r5) || ((c && r6) || ((c && r7) || ((a && true) || false)))))))

by_role :
    (v e c a r1 r2 r3 r4 r5 r6 r7 : Bool)
    → of_rights (v || (e || (c || a))) (e || (c || a)) (c || a) a r1 r2 r3 r4 r5 r6 r7
      ≡ a
        || (c && (((r1 || r2) || r4 || r5) || r6 || r7))
        || (e && ((r1 || r2) || r4 || r5))
        || (v && (r1 || r2))
by_role v e c a r1 r2 r3 r4 r5 r6 r7 = ground arith

enforced :
    (role obj act : String)
    → any
        (λ r.
          has_role 10 grouping role r.sub
          && (((r.obj == "*") || (obj == r.obj)) && ((r.act == "*") || (act == r.act))))
        policy
      ≡ permitted role obj act
enforced role obj act =
    let r1 = (obj == "ask") && (act == "execute") in
    let r2 = (obj == "history") && (act == "read_own") in
    let r3 = (obj == "history") && (act == "read_all") in
    let r4 = (obj == "documents") && (act == "read") in
    let r5 = (obj == "documents") && (act == "write") in
    let r6 = (obj == "documents") && (act == "delete") in
    let r7 = (obj == "reports") && (act == "read") in
    ap₂
      (λ v e.
        of_rights v e (has_role 10 grouping role "ceo") (has_role 10 grouping role "admin") r1 r2 r3
          r4 r5 r6 r7)
      (has_viewer role) (has_employee role)
    ∙ ap₂
        (λ c a.
          of_rights
            ((role == "viewer") || ((role == "employee") || ((role == "ceo") || (role == "admin"))))
            ((role == "employee") || ((role == "ceo") || (role == "admin"))) c a r1 r2 r3 r4 r5 r6
            r7)
        (has_ceo role) (has_admin role)
    ∙ by_role (role == "viewer") (role == "employee") (role == "ceo") (role == "admin") r1 r2 r3 r4
        r5 r6 r7

module _ (x : Access) where
  -- The outcome of a guard: a user whose token says who it is and whose role has the right, or a refusal.
  pub Guarded : String → String → Option String → Result CurrentUser → Type 0
  Guarded resource action none r = r ≡ raised (audit authentication_error)
  Guarded resource action (some authorization) (ok user) =
      (has_prefix authorization "Bearer " ≡ true)
      × (payload : Dict String) × (x.decode (bearer x authorization) ≡ some payload)
      × (get "sub" payload ≡ some user.username)
      × (get "role" payload ≡ some user.role)
      × (permitted user.role resource action ≡ true)
  Guarded resource action (some authorization) (raised e) =
      (e ≡ audit authentication_error)
      ⊎ ((e ≡ other)
          ⊎ ((e ≡ audit authorization_error)
              × (payload : Dict String) × (role : String) × (x.decode (bearer x authorization)
                  ≡ some payload)
              × (get "role" payload ≡ some role)
              × (permitted role resource action ≡ false)))

  module _ (casbin : IsCasbin x.enforce) (resource action : String) where
    allowed :
        (role : String)
        → x.enforce policy grouping role resource action ≡ permitted role resource action
    allowed role = casbin policy grouping role resource action ∙ enforced role resource action

    decided :
        (authorization : String) (payload : Dict String) (sub role : String)
        → has_prefix authorization "Bearer " ≡ true
        → x.decode (bearer x authorization) ≡ some payload
        → get "sub" payload ≡ some sub
        → get "role" payload ≡ some role
        → Guarded resource action
            (some authorization)
            (require_permission x resource action (record { username = sub; role = role }))
    unfolding require_permission Guarded
    decided authorization payload sub role h d e f =
        elim (Bool-cases (x.enforce policy grouping role resource action)) [
          | inl b ↦ rw (b, require_permission) (h, payload, d, e, f, sym (allowed role) ∙ b)
          | inr b ↦
              rw (b, require_permission)
                (inr (inr (refl, payload, role, d, f, sym (allowed role) ∙ b)))
        ]

    -- Where Casbin decides by its documented matcher, a guarded request gets through only with a Bearer token
    -- that decodes to a name and a role, as the user of that name and role, and only if the role has the
    -- right: a viewer to ask and to read its own history, an employee also to read and write documents, a
    -- ceo also to delete documents and read reports, an admin everything, and any other role nothing. A
    -- request without a header is an authentication error, and a request that is refused for its right has
    -- a role without it.
    pub guard-Guarded :
        (authorization : Option String)
        → Guarded resource action authorization (guard x resource action authorization)
    unfolding guard get_current_user user_of decode_token Guarded
    guard-Guarded none = refl
    guard-Guarded (some authorization) =
        elim (Bool-cases (is_blank authorization || not (has_prefix authorization "Bearer "))) [
          | inl e ↦ rw (e, guard, get_current_user) (inl refl)
          | inr e ↦
              let h : has_prefix authorization "Bearer " ≡ true = ground arith in
              elim (Option-cases (x.decode (bearer x authorization))) [
                | inl d ↦ rw (e, guard, get_current_user, d, decode_token) (inl refl)
                | inr (payload, d) ↦ elim (Option-cases (get "sub" payload)) [
                  | inl f ↦
                      rw (e, guard, get_current_user, d, decode_token, f, user_of) (inr (inl refl))
                  | inr (sub, f) ↦ elim (Option-cases (get "role" payload)) [
                    | inl k ↦
                        rw (e, guard, get_current_user, d, decode_token, f, k, user_of)
                          (inr (inl refl))
                    | inr (role, k) ↦
                        rw (e, guard, get_current_user, d, decode_token, f, k, user_of)
                          (decided authorization payload sub role h d f k)
                  ]
                ]
              ]
        ]
