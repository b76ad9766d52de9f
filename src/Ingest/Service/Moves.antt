-- ===== src/Ingest/Service/Moves.antt =====
-- Which calls of the service leave the registry alone, and which write it in one transaction.
use audit_flow_ai.Base.{String, ◌≡◌, refl, sym, ap, ◌∙◌, List, [], ◌∷◌}
use audit_flow_ai.Exec.{Result, ok, raised, ◌>>=◌, ◌>>◌, modify, After}
use audit_flow_ai.Schemas.Errors.{Raised}
use audit_flow_ai.Schemas.Retrieval.{ChunkRecord}
use audit_flow_ai.Ingest.Store.{Registry, insert_chunks, delete_chunks}
use audit_flow_ai.Ingest.Service.{
  Engine, Library, Ingest, on_registry, unless_empty, rewrite_corpus,
}

pub insert_none : (r : Registry) → insert_chunks [] r ≡ r
unfolding insert_chunks
insert_none r = refl

pub delete_none : (r : Registry) → delete_chunks [] r ≡ r
unfolding delete_chunks
delete_none r = refl

module _ (g : Engine) where
  abbrev pub Here : Type 0
  Here = Library g.World

  -- A call that leaves the registry alone, and then another.
  pub quiet-bind :
      {A B : Type 0} (P : Result B × Here → Type 0) (r : Registry) (m : Ingest g A)
      (next : A → Ingest g B) (s : Here)
      → (m s).1.registry ≡ r
      → ((e : Raised) (u : Here) → u.registry ≡ r → P (raised e, u))
      → ((a : A) (u : Here) → u.registry ≡ r → P (next a u))
      → P ((m >>= next) s)
  quiet-bind {A = A} {B = B} P r m next s same fails goes = go (m s) same
    where
      go : (x : Result A × Here) → x.1.registry ≡ r → P (((λ _. x) >>= next) s)
      go (ok a, u) same = goes a u same
      go (raised e, u) same = fails e u same

  -- A call that takes the registry to its image under `h`, or raises and leaves it alone.
  abbrev pub Moves : (Registry → Registry) → Ingest g Unit → Type 0
  Moves h m =
      (s : Here) → After (λ u. u.registry ≡ s.registry) (λ _ u. u.registry ≡ h s.registry) (m s)

  pub on_registry-Moves : (h : Registry → Registry) → Moves h (on_registry g h)
  on_registry-Moves h s = go (g.transact s.engine)
    where
      go :
          (x : Result Unit × g.World)
          → After
              (λ u. u.registry ≡ s.registry)
              (λ _ u. u.registry ≡ h s.registry)
              (((λ _. (x.0, record s { engine = x.1 })) >>= λ _.
                  modify (λ u. record u { registry = h u.registry }))
                s)
      go (ok a, w) = refl
      go (raised e, w) = refl

  pub unless_empty-Moves :
      {A : Type 0} (h : List A → Registry → Registry)
      → ((r : Registry) → h [] r ≡ r)
      → (xs : List A) → Moves (h xs) (unless_empty g xs (on_registry g (h xs)))
  unless_empty-Moves h id [] s = sym (id s.registry)
  unless_empty-Moves h id (x ∷ xs) s = on_registry-Moves (h (x ∷ xs)) s

  -- Such a call, and then another; and such a call as the last one.
  pub move-bind :
      {B : Type 0} (P : Result B × Here → Type 0) (r : Registry) (h : Registry → Registry)
      (m : Ingest g Unit) (next : Ingest g B) (s : Here)
      → Moves h m
      → s.registry ≡ r
      → ((e : Raised) (u : Here) → u.registry ≡ r → P (raised e, u))
      → ((u : Here) → u.registry ≡ h r → P (next u))
      → P ((m >> next) s)
  move-bind P r h m next s moves same fails goes = go (m s) (moves s)
    where
      go :
          (x : Result Unit × Here)
          → After (λ u. u.registry ≡ s.registry) (λ _ u. u.registry ≡ h s.registry) x
          → P (((λ _. x) >> next) s)
      go (ok a, u) q = goes u (q ∙ ap h same)
      go (raised e, u) q = fails e u (q ∙ same)

  pub move-last :
      (P : Result Unit × Here → Type 0) (r : Registry) (h : Registry → Registry) (m : Ingest g Unit)
      (s : Here)
      → Moves h m
      → s.registry ≡ r
      → ((e : Raised) (u : Here) → u.registry ≡ r → P (raised e, u))
      → ((a : Unit) (u : Here) → u.registry ≡ h r → P (ok a, u))
      → P (m s)
  move-last P r h m s moves same fails goes = go (m s) (moves s)
    where
      go :
          (x : Result Unit × Here)
          → After (λ u. u.registry ≡ s.registry) (λ _ u. u.registry ≡ h s.registry) x
          → P x
      go (ok a, u) q = goes a u (q ∙ ap h same)
      go (raised e, u) q = fails e u (q ∙ same)

  pub rewrite_corpus-quiet :
      (ids : List String) (chunks : List ChunkRecord) (s : Here)
      → (rewrite_corpus g ids chunks s).1.registry ≡ s.registry
  unfolding rewrite_corpus
  rewrite_corpus-quiet ids chunks s = refl
