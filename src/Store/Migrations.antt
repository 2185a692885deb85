-- ===== src/Store/Migrations.antt =====
-- internal/store/migrate.go: bringing a database up to the schema that this program knows. A schema is
-- the sequence of the statements that made it; which statements fail is a parameter.
pub mod Resumption
pub mod Start
use dokkup.Common.{
  ℕ, ◌+◌, Bool, true, false, ◌||◌, Option, none, some, List, [], ◌∷◌, ◌++◌, ltb, leb, if◌then◌else◌,
  contains, Text, number_key, text_key,
}
use dokkup.Release.{before}

pub record Migration : Type 0 where
  pub version : ℕ
  pub statements : List Text

-- `versions` is the column of schema_migrations, if there is that table
pub record Schema : Type 0 where
  pub versions : Option (List ℕ)
  pub made_by : List Text

pub record Migrating : Type 0 where
  pub schema : Schema
  pub tick : ℕ

abbrev pub Faults : Type 0
Faults = ℕ → Bool

abbrev pub onward : Migrating → Migrating
onward s = record s { tick = s.tick + 1 }

-- the statements of one step, inside its transaction
abbrev pub execute : Faults → List Text → Migrating → Bool × Migrating
execute f [] s = (true, s)
execute f (t ∷ ts) s =
    let rest =
      execute f ts
        (record (onward s) { schema = record s.schema { made_by = s.schema.made_by ++ t ∷ [] } }) in
    if f s.tick then (false, onward s) else rest

abbrev pub recorded : Option (List ℕ) → List ℕ
recorded none = []
recorded (some vs) = vs

-- INSERT INTO schema_migrations, under its primary key
abbrev pub record_version : Faults → ℕ → Bool × Migrating → Bool × Migrating
record_version f v (false, s) = (false, s)
record_version f v (true, s) =
    if f s.tick || contains v (recorded s.schema.versions) then (false, onward s) else (
      true,
      record (onward s) {
        schema = record s.schema { versions = some (recorded s.schema.versions ++ v ∷ []) };
      },
    )

-- Commit, or the deferred Rollback
abbrev pub conclude : Faults → Schema → Bool × Migrating → Bool × Migrating
conclude f before (false, s) = (false, record s { schema = before })
conclude f before (true, s) =
    if f s.tick then (false, record (onward s) { schema = before }) else (true, onward s)

-- apply
unfoldable pub apply : Faults → Migration → Migrating → Bool × Migrating
apply f m s =
    if f s.tick
    then (false, onward s)
    else conclude f s.schema (record_version f m.version (execute f m.statements (onward s)))

abbrev pub highest : List ℕ → ℕ
highest [] = 0
highest (v ∷ vs) = let m = highest vs in if ltb m v then v else m

-- the loop of migrate, from the version that was read
abbrev pub apply_after : Faults → ℕ → List Migration → Migrating → Bool × Migrating
apply_after f applied [] s = (true, s)
apply_after f applied (m ∷ ms) s =
    let skipped = apply_after f applied ms s in
    let (done, s') = apply f m s in
    let rest = apply_after f applied ms s' in
    if leb m.version applied then skipped else if done then rest else (false, s')

-- CREATE TABLE IF NOT EXISTS schema_migrations
abbrev pub with_table : Schema → Schema
with_table d = record d { versions = some (recorded d.versions) }

-- migrate, with appliedVersion
unfoldable pub migrate : Faults → List Migration → Migrating → Bool × Migrating
migrate f ms s =
    if f s.tick
    then (false, onward s)
    else if f (s.tick + 1)
    then (false, record s { schema = with_table s.schema; tick = s.tick + 2 })
    else apply_after f (highest (recorded s.schema.versions)) ms
        (record s { schema = with_table s.schema; tick = s.tick + 2 })
