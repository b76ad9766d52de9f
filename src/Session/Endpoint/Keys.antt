-- ===== src/Session/Endpoint/Keys.antt =====
-- The keys of Redis that a request uses: the session, its lock and the recent turns of a user
-- (src/auditflow/orchestration/session_store.py and src/main.py).
use Prim.Native.String.append
use Prim.Native.Char.{Char, code}
use audit_flow_ai.Base.{
  String, ◌<>◌, ◌≡◌, ◌≢◌, sym, ap, ◌∙◌, false, ◌==◌, eq_iff, arith, inl, inr, Bool-cases,
}
use audit_flow_ai.Session.Store.{key}

abbrev pub lock_key : String → String
lock_key username = "session-lock:" <> username

abbrev pub recent_key : String → String
recent_key username = "recent:" <> username

abbrev head_or : Char → String → Char
head_or c String.[] = c
head_or c (String.◌∷◌ d s) = d

abbrev tail : String → String
tail String.[] = ""
tail (String.◌∷◌ d s) = s

tails :
    (c d : Char) (s t x y : String) → String.◌∷◌ c s <> x ≡ String.◌∷◌ d t <> y → s <> x ≡ t <> y
tails c d s t x y e = sym (ap tail (append.cons c s x)) ∙ ap tail e ∙ ap tail (append.cons d t y)

heads :
    (c d : Char) (s t x y : String) → String.◌∷◌ c s <> x ≡ String.◌∷◌ d t <> y → code c ≡ code d
heads c d s t x y e =
    sym (ap (λ z. code (head_or c z)) (append.cons c s x))
    ∙ ap (λ z. code (head_or c z)) e
    ∙ ap (λ z. code (head_or c z)) (append.cons d t y)

-- "session:" and "session-lock:" part at their eighth character.
session_lock_differ : (u v : String) → key u ≢ lock_key v
session_lock_differ u v e =
    let e1 = tails _ _ "ession:" "ession-lock:" u v e in
    let e2 = tails _ _ "ssion:" "ssion-lock:" u v e1 in
    let e3 = tails _ _ "sion:" "sion-lock:" u v e2 in
    let e4 = tails _ _ "ion:" "ion-lock:" u v e3 in
    let e5 = tails _ _ "on:" "on-lock:" u v e4 in
    let e6 = tails _ _ "n:" "n-lock:" u v e5 in
    let e7 = tails _ _ ":" "-lock:" u v e6 in
    let h : b':' ≡ b'-' = heads _ _ "" "lock:" u v e7 in absurd (ground (arith, h))

session_recent_differ : (u v : String) → key u ≢ recent_key v
session_recent_differ u v e =
    let h : b's' ≡ b'r' = heads _ _ "ession:" "ecent:" u v e in absurd (ground (arith, h))

apart : (a b : String) → a ≢ b → (b == a) ≡ false
apart a b n = elim (Bool-cases (b == a)) [ inl e ↦ absurd (n (sym ((eq_iff b a).0 e))) | inr e ↦ e ]

pub lock-key : (u v : String) → (lock_key u == key v) ≡ false
lock-key u v = apart (key v) (lock_key u) (session_lock_differ v u)

pub recent-key : (u v : String) → (recent_key u == key v) ≡ false
recent-key u v = apart (key v) (recent_key u) (session_recent_differ v u)
