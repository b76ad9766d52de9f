-- ===== src/Auth/Refresh/Rotation.antt =====
-- What `rotate_refresh_token` of refresh.py does with each token.
use audit_flow_ai.Base.{
  ℕ, suc, ◌+◌, String, ◌≡◌, ◌≢◌, refl, ap, ◌∙◌, inl, inr, true, false, Option, none, some, [], ◌∷◌,
  ◌==◌, eq_iff, eq_refl, ltb, if◌then◌else◌, Bool-cases, Option-cases, arith,
}
use audit_flow_ai.Base.Dict.{Dict, get, put, get-put}
use audit_flow_ai.Exec.{Result, ok, raised, ◌>>=◌, pure}
use audit_flow_ai.Schemas.Errors.{Raised, audit, authentication_error, ingestion_error}
use audit_flow_ai.Auth.Refresh.{
  Token, Issued, Crypto, Vault, new_token, revoke, revoke_rows, refresh_token_expiry, insert,
  insert_over, rolled, generate_refresh_token, replace_row, try_row, revoke_all_for_user, conclude,
  rotate_refresh_token,
}

-- The row of `username` with its revocation, other rows as they are.
unfoldable pub revoked_for : String → ℕ → Option Token → Option Token
revoked_for username now none = none
revoked_for username now (some row) =
    some (if row.username == username then revoke now row else row)

pub get-revoke_rows :
    (k username : String) (now : ℕ) (rows : Dict Token)
    → get k (revoke_rows username now rows) ≡ revoked_for username now (get k rows)
unfolding get revoke_rows revoked_for
get-revoke_rows k username now [] = refl
get-revoke_rows k username now ((j, row) ∷ rows) = elim (Bool-cases (j == k)) [
  | inl e ↦ rw (e) refl
  | inr e ↦ rw (e) (get-revoke_rows k username now rows)
]

pub revoke-spent : (now : ℕ) (row : Token) → (revoke now row).revoked_at ≢ none
unfolding revoke
revoke-spent now row live = elim (Option-cases row.revoked_at) [
  | inl e ↦ let h : some now ≡ none = rw e at live in ground arith
  | inr (at, e) ↦ let h : some at ≡ none = rw e at live in ground arith
]

-- The rows of a user after their revocation, and the rows of others.
revoke_rows-ended :
    (username : String) (now : ℕ) (rows : Dict Token) (k : String) (r : Token)
    → get k rows ≡ some r
    → r.username ≡ username
    → (r' : Token) × (get k (revoke_rows username now rows) ≡ some r') × (r'.revoked_at ≢ none)
unfolding revoked_for
revoke_rows-ended username now rows k r e same = (
  revoke now r,
  get-revoke_rows k username now rows ∙ rw (e, same, eq_refl username) refl,
  revoke-spent now r,
)

revoke_rows-others :
    (username : String) (now : ℕ) (rows : Dict Token) (k : String) (r : Token)
    → get k rows ≡ some r
    → r.username ≢ username
    → get k (revoke_rows username now rows) ≡ some r
unfolding revoked_for
revoke_rows-others username now rows k r e n =
    get-revoke_rows k username now rows ∙ elim (Bool-cases (r.username == username)) [
      | inl t ↦ absurd (n ((eq_iff r.username username).0 t))
      | inr t ↦ rw (e, t) refl
    ]

-- A key that is absent after an update was absent, and was not the updated one.
apart : (h j : String) (row : Token) (d : Dict Token) → get j (put h row d) ≡ none → get j d ≡ none
apart h j row d e = ground (arith, get-put h j row d)

get-put-same : (h : String) (row : Token) (d : Dict Token) → get h (put h row d) ≡ some row
get-put-same h row d = ground (arith, get-put h h row d, eq_refl h)

still :
    (h j : String) (row row' : Token) (d : Dict Token)
    → get j (put h row d) ≡ none
    → get h (put j row' (put h row d)) ≡ some row
still h j row row' d e = ground (
  arith,
  get-put h j row d,
  get-put j h row' (put h row d),
  get-put h h row d,
  eq_refl h,
  eq_iff j h,
  eq_iff h j,
)

get-put-other :
    (h j k : String) (row row' : Token) (d : Dict Token)
    → k ≢ h
    → k ≢ j
    → get k (put j row' (put h row d)) ≡ get k d
get-put-other h j k row row' d n n' =
    ground (arith, get-put h k row d, get-put j k row' (put h row d), eq_iff j k, eq_iff h k)

module _ (c : Crypto) where
  abbrev pub Here : Type 0
  Here = Vault c.Entropy

  -- A rotation that succeeds.
  pub record Rotated (raw : String) (now : ℕ) (username : String) (issued : Issued)
      (before after : Here) : Type 0 where
    pub row : Token
    pub found : get (c.hash raw) before.tokens ≡ some row
    pub owner : row.username ≡ username
    pub live : row.revoked_at ≡ none
    pub unexpired : ltb row.expires_at now ≡ false
    pub unused : get (c.hash issued.raw_token) before.tokens ≡ none
    pub spent : get (c.hash raw) after.tokens ≡ some (record row { revoked_at = some now })
    pub replaced : get (c.hash issued.raw_token) after.tokens ≡ some (new_token username now)
    pub kept :
        (k : String)
        → k ≢ c.hash raw
        → k ≢ c.hash issued.raw_token
        → get k after.tokens ≡ get k before.tokens

  -- The row that a rotation spends, in the table, and the token that it draws.
  abbrev spend : String → ℕ → Token → Here → Dict Token
  spend token_hash now row before =
      put token_hash (record row { revoked_at = some now }) before.tokens

  abbrev drawn : Here → String
  drawn before = (c.generate before.entropy).0

  -- A rotation that is refused. The token has no row, or it has expired, or the hash of the new token
  -- is taken: then the tables are as they were. Or the token was revoked before: then all rows of its
  -- user are revoked, no other's, and the reuse is counted.
  pub data Refused (raw : String) (now : ℕ) (e : Raised) (before after : Here) : Type 0 where
    unknown :
        get (c.hash raw) before.tokens ≡ none
        → e ≡ audit authentication_error
        → after.tokens ≡ before.tokens
        → after.reuse_total ≡ before.reuse_total
        → Refused raw now e before after
    reused :
        (row : Token) (at : ℕ)
        → get (c.hash raw) before.tokens ≡ some row
        → row.revoked_at ≡ some at
        → e ≡ audit authentication_error
        → after.tokens ≡ revoke_rows row.username now before.tokens
        → ((k : String) (r : Token)
            → get k before.tokens ≡ some r
            → r.username ≡ row.username
            → (r' : Token) × (get k after.tokens ≡ some r') × (r'.revoked_at ≢ none))
        → ((k : String) (r : Token)
            → get k before.tokens ≡ some r
            → r.username ≢ row.username
            → get k after.tokens ≡ some r)
        → after.reuse_total ≡ suc before.reuse_total
        → Refused raw now e before after
    expired :
        (row : Token)
        → get (c.hash raw) before.tokens ≡ some row
        → row.revoked_at ≡ none
        → ltb row.expires_at now ≡ true
        → e ≡ audit authentication_error
        → after.tokens ≡ before.tokens
        → after.reuse_total ≡ before.reuse_total
        → Refused raw now e before after
    clashed :
        (row taken : Token)
        → get (c.hash raw) before.tokens ≡ some row
        → row.revoked_at ≡ none
        → ltb row.expires_at now ≡ false
        → get (c.hash (drawn before)) (spend (c.hash raw) now row before) ≡ some taken
        → e ≡ audit ingestion_error
        → after.tokens ≡ before.tokens
        → after.reuse_total ≡ before.reuse_total
        → Refused raw now e before after

  -- What a rotation does.
  abbrev pub Ends : String → ℕ → Here → Result (String × Issued) × Here → Type 0
  Ends raw now before (ok (username, issued), after) = Rotated raw now username issued before after
  Ends raw now before (raised e, after) = Refused raw now e before after

  -- What follows the first cursor's block.
  abbrev Concluded :
      ℕ → Here → Result (String × Option Issued) × Here → Result (String × Issued) × Here
  Concluded now before x = elim (rolled c before.tokens x).0 [
    | ok a ↦ conclude c now a (rolled c before.tokens x).1
    | raised e ↦ (raised e, (rolled c before.tokens x).1)
  ]

  abbrev Run : String → ℕ → Option Token → Here → Result (String × Issued) × Here
  Run raw now o before = Concluded now before (try_row c (c.hash raw) now o before)

  -- The rotation of a live row, from its INSERT on.
  abbrev Insertion : String → ℕ → Token → Option Token → Here → Result (String × Issued) × Here
  Insertion raw now row o before = Concluded now before (
      (insert_over c (c.hash (drawn before)) (new_token row.username now) o
          >>= (λ _.
              pure (record { raw_token = drawn before; expires_at = now + refresh_token_expiry }))
          >>= λ issued. pure (row.username, some issued))
        (record before {
          tokens = spend (c.hash raw) now row before;
          entropy = (c.generate before.entropy).1;
        }))

  Insertion-Ends :
      (raw : String) (now : ℕ) (before : Here) (row : Token) (o : Option Token)
      → get (c.hash raw) before.tokens ≡ some row
      → row.revoked_at ≡ none
      → ltb row.expires_at now ≡ false
      → get (c.hash (drawn before)) (spend (c.hash raw) now row before) ≡ o
      → Ends raw now before (Insertion raw now row o before)
  unfolding insert_over conclude
  Insertion-Ends raw now before row none found live unexpired free = record {
    row = row;
    found = found;
    owner = refl;
    live = live;
    unexpired = unexpired;
    unused = apart (c.hash raw) (c.hash (drawn before)) _ before.tokens free;
    spent = still (c.hash raw) (c.hash (drawn before)) _ _ before.tokens free;
    replaced = get-put-same (c.hash (drawn before)) _ _;
    kept = λ k n n'. get-put-other (c.hash raw) (c.hash (drawn before)) k _ _ before.tokens n n';
  }
  Insertion-Ends raw now before row (some x) found live unexpired free =
      clashed row x found live unexpired free refl refl refl

  row-Ends :
      (raw : String) (now : ℕ) (before : Here) (o : Option Token)
      → get (c.hash raw) before.tokens ≡ o
      → Ends raw now before (Run raw now o before)
  unfolding try_row replace_row insert generate_refresh_token conclude revoke_all_for_user
  row-Ends raw now before none found = unknown found refl refl refl
  row-Ends raw now before (some row) found = elim (Option-cases row.revoked_at) [
    | inr (at, was) ↦ rw was (
        reused row at found was refl refl (revoke_rows-ended row.username now before.tokens)
          (revoke_rows-others row.username now before.tokens) refl)
    | inl live ↦ elim (Bool-cases (ltb row.expires_at now)) [
      | inl late ↦ rw (live, late) (expired row found live late refl refl refl)
      | inr due ↦ rw (live, due) (Insertion-Ends raw now before row _ found live due refl)
    ]
  ]

  -- A rotation that returns has spent a live, unexpired token and replaced it, and kept every other
  -- row. One that raises has kept the tables, where the token has no row, where it is unspent and has
  -- expired, or where the hash of the new token is taken; or, where the token was revoked before, it has
  -- revoked all rows of the token's user and no other's, and counted the reuse. A taken hash is an
  -- `IngestionError`, the rest an `AuthenticationError`.
  pub rotate_refresh_token-Ends :
      (raw : String) (now : ℕ) (before : Here)
      → Ends raw now before (rotate_refresh_token c raw now before)
  unfolding rotate_refresh_token
  rotate_refresh_token-Ends raw now before = row-Ends raw now before _ refl

  row-reused :
      (raw : String) (now at : ℕ) (v : Here) (row : Token)
      → row.revoked_at ≡ some at
      → Run raw now (some row) v ≡ (
        raised (audit authentication_error),
        record v {
          tokens = revoke_rows row.username now v.tokens;
          reuse_total = suc v.reuse_total;
        },
      )
  unfolding try_row conclude revoke_all_for_user
  row-reused raw now at v row was = rw was refl

  -- A token that is revoked is refused, the rows of its user are revoked, and the reuse is counted.
  pub rotate_refresh_token-reused :
      (raw : String) (now at : ℕ) (v : Here) (row : Token)
      → get (c.hash raw) v.tokens ≡ some row
      → row.revoked_at ≡ some at
      → rotate_refresh_token c raw now v ≡ (
        raised (audit authentication_error),
        record v {
          tokens = revoke_rows row.username now v.tokens;
          reuse_total = suc v.reuse_total;
        },
      )
  unfolding rotate_refresh_token
  rotate_refresh_token-reused raw now at v row found was =
      ap (λ o. Run raw now o v) found ∙ row-reused raw now at v row was
