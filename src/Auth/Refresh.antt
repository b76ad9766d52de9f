-- ===== src/Auth/Refresh.antt =====
-- src/auditflow/auth/refresh.py, over the tables `refresh_tokens` and `users`. `token_hash` is UNIQUE
-- (migration 0002), so the table is a dict from it. Times are microseconds. The database answers:
-- the one query that fails is an INSERT of a hash that is there.
pub mod Rotation
pub mod History
use audit_flow_ai.Base.{
  ℕ, suc, ◌+◌, ◌*◌, String, Bool, true, false, Option, none, some, List, [], ◌∷◌, ◌==◌, ltb,
  if◌then◌else◌,
}
use audit_flow_ai.Base.Dict.{Dict, get, put}
use audit_flow_ai.Exec.{Result, ok, raised, Exec, ◌>>=◌, ◌>>◌, pure, raise, modify}
use audit_flow_ai.Schemas.Errors.{audit, authentication_error, ingestion_error}

-- a row of `refresh_tokens`
pub record Token : Type 0 where
  pub username : String
  pub issued_at : ℕ
  pub expires_at : ℕ
  pub revoked_at : Option ℕ

-- a row of `users`
pub record User : Type 0 where
  pub username : String
  pub password_hash : String
  pub role : String
  pub is_active : Bool

-- `IssuedRefreshToken`
pub record Issued : Type 0 where
  pub raw_token : String
  pub expires_at : ℕ

-- What the program calls: `hashlib.sha256(…).hexdigest()`, `secrets.token_urlsafe(32)` over a source
-- of randomness, `bcrypt.checkpw`, `jwt.encode` of the claims sub, role, iat and exp.
pub record Crypto : Type 1 where
  pub Entropy : Type 0
  pub hash : String → String
  pub generate : Entropy → String × Entropy
  pub checkpw : String → String → Bool
  pub encode : String → String → ℕ → ℕ → String

-- The tables, the counter REFRESH_TOKEN_REUSE_TOTAL and the randomness.
pub record Vault (Entropy : Type 0) : Type 0 where
  pub tokens : Dict Token
  pub users : Dict User
  pub reuse_total : ℕ
  pub entropy : Entropy

-- 7 days
abbrev pub refresh_token_expiry : ℕ
refresh_token_expiry = 7 * 86400000000

abbrev pub new_token : String → ℕ → Token
new_token username now = record {
  username = username;
  issued_at = now;
  expires_at = now + refresh_token_expiry;
  revoked_at = none;
}

-- `SET revoked_at = now WHERE revoked_at IS NULL`
unfoldable pub revoke : ℕ → Token → Token
revoke now row = elim row.revoked_at [ none ↦ record row { revoked_at = some now } | some at ↦ row ]

-- `UPDATE … WHERE username = … AND revoked_at IS NULL`
unfoldable pub revoke_rows : String → ℕ → Dict Token → Dict Token
unfolding revoke
revoke_rows username now [] = []
revoke_rows username now ((k, row) ∷ rows) =
    (k, (if row.username == username then revoke now row else row)) ∷ revoke_rows username now rows

module _ (c : Crypto) where
  abbrev pub Db : Type 0 → Type 0
  Db A = Exec (Vault c.Entropy) A

  -- `with _cursor()`: an exception rolls the tables back.
  abbrev rolled :
      {A : Type 0} → Dict Token → Result A × Vault c.Entropy → Result A × Vault c.Entropy
  rolled before (ok a, v) = (ok a, v)
  rolled before (raised e, v) = (raised e, record v { tokens = before })

  abbrev pub transaction : {A : Type 0} → Db A → Db A
  transaction m v = rolled v.tokens (m v)

  -- `INSERT INTO refresh_tokens`, with the row that has the hash already
  unfoldable pub insert_over : String → Token → Option Token → Db Unit
  insert_over token_hash row none = modify (λ v. record v { tokens = put token_hash row v.tokens })
  insert_over token_hash row (some taken) = raise (audit ingestion_error)

  unfoldable pub insert : String → Token → Db Unit
  unfolding insert_over
  insert token_hash row v = insert_over token_hash row (get token_hash v.tokens) v

  unfoldable pub generate_refresh_token : Db String
  generate_refresh_token v =
      let (raw, e) = c.generate v.entropy in (ok raw, record v { entropy = e })

  unfoldable pub issue_refresh_token : String → ℕ → Db Issued
  unfolding insert generate_refresh_token
  issue_refresh_token username now = do
    raw_token ← generate_refresh_token
    transaction (insert (c.hash raw_token) (new_token username now))
    pure (record { raw_token = raw_token; expires_at = now + refresh_token_expiry })

  -- `else`: the row is spent and a new one takes its place.
  unfoldable pub replace_row : String → Token → ℕ → Db Issued
  unfolding insert generate_refresh_token
  replace_row token_hash row now = do
    modify
        (λ v. record v { tokens = put token_hash (record row { revoked_at = some now }) v.tokens })
    new_raw_token ← generate_refresh_token
    insert (c.hash new_raw_token) (new_token row.username now)
    pure (record { raw_token = new_raw_token; expires_at = now + refresh_token_expiry })

  -- The block under the first cursor. `none` beside the username is `reuse_detected`.
  unfoldable pub try_row : String → ℕ → Option Token → Db (String × Option Issued)
  unfolding replace_row
  try_row token_hash now none = raise (audit authentication_error)
  try_row token_hash now (some row) = elim row.revoked_at [
    | some at ↦ pure (row.username, none)
    | none ↦
        if ltb row.expires_at now
        then raise (audit authentication_error)
        else (do issued ← replace_row token_hash row now; pure (row.username, some issued))
  ]

  unfoldable pub revoke_all_for_user : String → ℕ → Db Unit
  unfolding revoke_rows
  revoke_all_for_user username now =
      transaction (modify (λ v. record v { tokens = revoke_rows username now v.tokens }))

  -- `if reuse_detected:` and the return
  unfoldable pub conclude : ℕ → String × Option Issued → Db (String × Issued)
  unfolding revoke_all_for_user
  conclude now (username, some issued) = pure (username, issued)
  conclude now (username, none) = do
    revoke_all_for_user username now
    modify (λ v. record v { reuse_total = suc v.reuse_total })
    raise (audit authentication_error)

  unfoldable pub rotate_refresh_token : String → ℕ → Db (String × Issued)
  unfolding try_row conclude
  rotate_refresh_token raw_token now = do
    found ← transaction (λ v. try_row (c.hash raw_token) now (get (c.hash raw_token) v.tokens) v)
    conclude now found
