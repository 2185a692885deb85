-- ===== src/Examples/Starts.antt =====
-- Two starts on one database, the first of which fails half-way.
use dokkup.Common.{◌≡◌, refl, true, none, List, [], ◌∷◌, arith, ◌==◌, number_key, text_key}
use dokkup.Common.Strings.{codes}
use dokkup.Store.Migrations.{Migration, Migrating, Faults, apply, migrate}
use dokkup.Store.Migrations.Resumption.{IsIncreasing, IsAtStep}
use dokkup.Store.Migrations.Start.{IsAtEnd, migrate_resumes, migrate_completes}

abbrev steps : List Migration
steps =
    record {
      version = 1;
      statements =
          codes "CREATE TABLE operators" ∷ codes "CREATE UNIQUE INDEX operators_email" ∷ [];
    }
    ∷ record { version = 2; statements = codes "CREATE TABLE sessions" ∷ [] }
    ∷ []

abbrev breaking : Faults
breaking n = n == 8

abbrev new_file : Migrating
new_file = record { schema = record { versions = none; made_by = [] }; tick = 0 }

steps-IsIncreasing : IsIncreasing steps
steps-IsIncreasing = (omega arith, (omega arith, tt), (omega arith, tt, tt))

new_file-IsAtStep : IsAtStep steps new_file.schema
new_file-IsAtStep = record { done = []; rest = steps; steps = refl; made = refl; said = refl }

abbrev half_way : Migrating
half_way = (migrate breaking steps new_file).1

half_way-IsAtStep : IsAtStep steps half_way.schema
half_way-IsAtStep = migrate_resumes breaking steps new_file steps-IsIncreasing new_file-IsAtStep

second_start : (migrate breaking steps half_way).0 ≡ true
unfolding migrate apply
second_start = refl

migrate_completes_example : IsAtEnd steps (migrate breaking steps half_way).1.schema
migrate_completes_example =
    migrate_completes breaking steps half_way steps-IsIncreasing half_way-IsAtStep second_start
