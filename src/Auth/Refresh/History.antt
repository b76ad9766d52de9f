-- ===== src/Auth/Refresh/History.antt =====
-- What the operations of refresh.py leave of a revoked row.
use audit_flow_ai.Base.{
  ℕ, ◌+◌, String, ◌≡◌, ◌≢◌, refl, sym, inl, inr, ◌∙◌, Option, none, some, ◌==◌, eq_iff, Bool-cases,
  Option-cases, arith,
}
use audit_flow_ai.Base.Dict.{Dict, get, put, get-put}
use audit_flow_ai.Exec.{Result, ok, raised, ◌>>=◌, pure}
use audit_flow_ai.Auth.Refresh.{
  Token, Issued, Crypto, Db, new_token, revoke, revoke_rows, refresh_token_expiry, insert,
  insert_over, rolled, generate_refresh_token, issue_refresh_token, rotate_refresh_token,
}
use audit_flow_ai.Auth.Refresh.Rotation.{
  revoked_for, get-revoke_rows, Here, unknown, reused, expired, clashed, revoke-spent, Ends,
  rotate_refresh_token-Ends,
}

-- A row that is revoked in one table is in the other as it is.
abbrev pub Keeps : Dict Token → Dict Token → Type 0
Keeps before after =
    (k : String) (row : Token) (at : ℕ)
    → get k before ≡ some row
    → row.revoked_at ≡ some at
    → get k after ≡ some row

pub Keeps-trans : (a b d : Dict Token) → Keeps a b → Keeps b d → Keeps a d
Keeps-trans a b d h h' k row at e was = h' k row at (h k row at e was) was

pub revoke_rows-Keeps :
    (username : String) (now : ℕ) (rows : Dict Token) → Keeps rows (revoke_rows username now rows)
unfolding revoked_for revoke
revoke_rows-Keeps username now rows k row at e was =
    get-revoke_rows k username now rows ∙ elim (Bool-cases (row.username == username)) [
      | inl t ↦ rw (e, t, was) refl
      | inr t ↦ rw (e, t) refl
    ]

revoke-owner : (now : ℕ) (row : Token) → (revoke now row).username ≡ row.username
unfolding revoke
revoke-owner now row = elim (Option-cases row.revoked_at) [
  | inl e ↦ rw e refl
  | inr (at, e) ↦ rw e refl
]

-- A row of a table in which `username` is revoked is not a live one of `username`.
revoked_for-spent :
    (username : String) (now : ℕ) (o : Option Token) (row : Token)
    → revoked_for username now o ≡ some row
    → row.username ≡ username
    → row.revoked_at ≢ none
unfolding revoked_for
revoked_for-spent username now none row e same live = ground (arith, e)
revoked_for-spent username now (some old) row e same live =
    elim (Bool-cases (old.username == username)) [
      | inl t ↦
          let h : some (revoke now old) ≡ some row = rw t at e in
          revoke-spent now old (ground arith)
      | inr t ↦
          let h : some old ≡ some row = rw t at e in ground (arith, eq_iff old.username username)
    ]

pub revoke_rows-spent :
    (k username : String) (now : ℕ) (rows : Dict Token) (row : Token)
    → get k (revoke_rows username now rows) ≡ some row
    → row.username ≡ username
    → row.revoked_at ≢ none
revoke_rows-spent k username now rows row e =
    revoked_for-spent username now (get k rows) row (sym (get-revoke_rows k username now rows) ∙ e)

put-Keeps :
    (h : String) (row : Token) (rows : Dict Token) → get h rows ≡ none → Keeps rows (put h row rows)
put-Keeps h row rows free k row' at e was = ground (arith, get-put h k row rows, eq_iff h k)

module _ (c : Crypto) where
  insert-Keeps :
      (h : String) (row : Token) (issued : Issued) (v : Here c) (o : Option Token)
      → get h v.tokens ≡ o
      → Keeps v.tokens
          (((λ u. rolled c u.tokens (insert_over c h row o u)) >>= λ _. pure issued) v).1.tokens
  unfolding insert_over
  insert-Keeps h row issued v none free = put-Keeps h row v.tokens free
  insert-Keeps h row issued v (some x) taken = λ k row' at e was. e

  pub issue_refresh_token-Keeps :
      (username : String) (now : ℕ) (v : Here c)
      → Keeps v.tokens (issue_refresh_token c username now v).1.tokens
  unfolding issue_refresh_token insert generate_refresh_token
  issue_refresh_token-Keeps username now v =
      let drawn = c.generate v.entropy in
      insert-Keeps (c.hash drawn.0) (new_token username now)
        (record { raw_token = drawn.0; expires_at = now + refresh_token_expiry })
        (record v { entropy = drawn.1 }) _ refl

  Ends-Keeps :
      (raw : String) (now : ℕ) (v : Here c) (x : Result (String × Issued) × Here c)
      → Ends c raw now v x
      → Keeps v.tokens x.1.tokens
  Ends-Keeps raw now v (ok (username, issued), w) r =
      λ k row at e was. ground (arith, r.found, r.live, r.unused, r.kept k, e, was)
  Ends-Keeps raw now v (raised x, w) (reused row at found was kind gone ended others count) =
      λ k row' at' e was'. rw gone (revoke_rows-Keeps row.username now v.tokens k row' at' e was')
  Ends-Keeps raw now v (raised x, w) (unknown free kind same count) = λ k row at e was. rw same e
  Ends-Keeps raw now v (raised x, w) (expired row found live late kind same count) =
      λ k row at e was. rw same e
  Ends-Keeps raw now v (raised x, w) (clashed row taken found live due clash kind same count) =
      λ k row at e was. rw same e

  pub rotate_refresh_token-Keeps :
      (raw : String) (now : ℕ) (v : Here c)
      → Keeps v.tokens (rotate_refresh_token c raw now v).1.tokens
  rotate_refresh_token-Keeps raw now v =
      Ends-Keeps raw now v _ (rotate_refresh_token-Ends c raw now v)

  -- A call, and what is done with its result.
  pub Keeps-bind :
      {A B : Type 0} (m : Db c A) (next : A → Db c B) (v : Here c)
      → Keeps v.tokens (m v).1.tokens
      → ((a : A) (w : Here c) → Keeps w.tokens (next a w).1.tokens)
      → Keeps v.tokens ((m >>= next) v).1.tokens
  Keeps-bind {A = A} {B = B} m next v h k = after (m v) h
    where
      after :
          (x : Result A × Here c)
          → Keeps v.tokens x.1.tokens
          → Keeps v.tokens (((λ _. x) >>= next) v).1.tokens
      after (ok a, w) h = Keeps-trans _ _ _ h (k a w)
      after (raised e, w) h = h
