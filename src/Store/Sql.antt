-- ===== src/Store/Sql.antt =====
-- How the package talks to its database through database/sql: statements, queries, row counts,
-- the clock and transactions (store.go, and the transactions of operator.go and setuptoken.go).
-- An action is given the engine and the world, and a failed one still returns the world: what a
-- statement wrote before a later step failed stays written, unless a transaction is rolled back.
use dokkup.Common.{ℕ, ◌+◌, ◌*◌, ◌/◌, Bool, ltb, if◌then◌else◌}
use dokkup.Store.Schema.{Db, Error, no_rows, failed, not_found, Result, ok, err, Engine}

pub record World : Type 0 where
  pub db : Db
  -- how many statements, row counts, commits and clock readings there have been
  pub tick : ℕ

abbrev pub M : Type 0 → Type 0
M A = Engine → World → Result A × World

unfoldable pub pure : {A : Type 0} → A → M A
pure a e w = (ok a, w)

unfoldable pub raise : {A : Type 0} → Error → M A
raise x e w = (err x, w)

-- what follows an action that has been run
abbrev pub resume : {A B : Type 0} → Result A × World → (A → M B) → Engine → Result B × World
resume (ok a, w) f e = f a e w
resume (err x, w) f e = (err x, w)

infixl 5 ◌>>=◌ ◌>>◌
unfoldable pub ◌>>=◌ : {A B : Type 0} → M A → (A → M B) → M B
◌>>=◌ m f e w = resume (m e w) f e

unfoldable pub ◌>>◌ : {A B : Type 0} → M A → M B → M B
unfolding ◌>>=◌
m >> k = m >>= λ _. k

unfoldable pub refuse_if : Bool → Error → M (Unit {0})
refuse_if b x e w = (if b then err x else ok tt, w)

abbrev pub mapped : {A : Type 0} → (Error → Error) → Result A × World → Result A × World
mapped f (ok a, w) = (ok a, w)
mapped f (err x, w) = (err (f x), w)

-- `fmt.Errorf("...: %w", ...)` and the functions that name an error after the row it is about
unfoldable pub map_error : {A : Type 0} → (Error → Error) → M A → M A
map_error f m e w = mapped f (m e w)

abbrev pub advance : World → World
advance w = record w { tick = w.tick + 1 }

abbrev pub written : Result (ℕ × Db) → World → Result ℕ × World
written (ok (n, d)) w = (ok n, record w { db = d })
written (err x) w = (err x, w)

-- ExecContext: a statement that fails has changed nothing.
unfoldable pub exec : (Engine → Db → Result (ℕ × Db)) → M ℕ
exec statement e w =
    if e.fault w.tick then (err failed, advance w) else written (statement e w.db) (advance w)

-- QueryRowContext or QueryContext, with the scan of what it found
unfoldable pub query : {A : Type 0} → (Db → Result A) → M A
query statement e w = (if e.fault w.tick then err failed else statement w.db, advance w)

-- RowsAffected or LastInsertId, of a statement that was executed
unfoldable pub reported : ℕ → M ℕ
reported n e w = (if e.driver_fault w.tick then err failed else ok n, advance w)

-- func millis: Unix milliseconds of a time, which is here in nanoseconds
abbrev pub millis : ℕ → ℕ
millis t = t / 1000000

-- func now: the clock, cut to the milliseconds that the tables hold
unfoldable pub now : M ℕ
now e w = (ok (millis (e.clock w.tick)), advance w)

-- `expiresAt.After(created)`, of a time in nanoseconds and one in milliseconds
abbrev pub is_after : ℕ → ℕ → Bool
is_after expires_at created = ltb (created * 1000000) expires_at

abbrev pub committed : {A : Type 0} → A → Db → Engine → World → Result A × World
committed a before e w =
    if e.fault w.tick
    then (err failed, record w { db = before; tick = w.tick + 1 })
    else (ok a, advance w)

abbrev pub ended : {A : Type 0} → Result A × World → Db → Engine → Result A × World
ended (ok a, w) before e = committed a before e w
ended (err x, w) before e = (err x, record w { db = before })

-- BeginTx, the deferred Rollback and Commit
unfoldable pub transaction : {A : Type 0} → M A → M A
transaction m e w =
    if e.fault w.tick then (err failed, advance w) else ended (m e (advance w)) w.db e

-- func notFound
abbrev pub not_found_error : Error → Error
not_found_error no_rows = not_found
not_found_error x = x

-- To compute with actions, a proof unfolds this one name.
unfoldable pub actions : Unit {0}
unfolding pure raise ◌>>=◌ ◌>>◌ refuse_if map_error exec query reported now transaction
actions = tt
