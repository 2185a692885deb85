-- ===== src/Store/Migrations/Start.antt =====
-- Starting the program on a database, whatever the starts before it did.
use mathlib.Core.List.{append-nil, append_assoc}
use mathlib.Core.Path.{subst}
use dokkup.Common.{◌+◌, ◌≡◌, refl, sym, ap, ◌∙◌, inl, inr, true, List, [], ◌++◌, arith, Bool-cases}
use dokkup.Store.Migrations.{
  Migration, Schema, Migrating, Faults, recorded, highest, apply_after, with_table, migrate,
}
use dokkup.Store.Migrations.Resumption.{
  statements_of, versions_of, after, IsIncreasing, IsAtStep, GotTo, rest_above, done_below,
  skip_done, loop_lem, versions_of-append, statements_of-append,
}

abbrev opened : Migrating → Migrating
opened s = record { schema = with_table s.schema; tick = s.tick + 2 }

table_stable : (d : Schema) → with_table d ≡ after (with_table d) []
table_stable d = rw (append-nil (recorded d.versions), append-nil d.made_by) refl

progress :
    (f : Faults) (done rest : List Migration) (s : Migrating)
    → IsIncreasing (done ++ rest)
    → recorded s.schema.versions ≡ versions_of done
    → GotTo rest
        (with_table s.schema)
        (apply_after f (highest (recorded s.schema.versions)) (done ++ rest) (opened s))
progress f done rest s inc said =
    let k = highest (versions_of done) in
    subst
      (λ vs.
        GotTo rest (with_table s.schema) (apply_after f (highest vs) (done ++ rest) (opened s)))
      (sym said)
      (subst (GotTo rest (with_table s.schema))
        (sym (skip_done f k done rest (opened s) (done_below k done (omega arith))))
        (loop_lem f k rest (opened s) (rest_above done rest inc) (table_stable s.schema)))

extended :
    (d : Schema) (done now left rest : List Migration)
    → d.made_by ≡ statements_of done
    → recorded d.versions ≡ versions_of done
    → rest ≡ now ++ left
    → IsAtStep (done ++ rest) (after (with_table d) now)
extended d done now left rest made said split = record {
  done = done ++ now;
  rest = left;
  steps = ap (λ xs. done ++ xs) split ∙ sym (append_assoc done now left);
  made = ap (λ ts. ts ++ statements_of now) made ∙ sym (statements_of-append done now);
  said = ap (λ vs. vs ++ versions_of now) said ∙ sym (versions_of-append done now);
}

-- every step has been made, and recorded
abbrev pub IsAtEnd : List Migration → Schema → Type 0
IsAtEnd ms d = (d.made_by ≡ statements_of ms) × (recorded d.versions ≡ versions_of ms)

no_more :
    (d : Schema) (done now left rest : List Migration)
    → d.made_by ≡ statements_of done
    → recorded d.versions ≡ versions_of done
    → rest ≡ now ++ left
    → left ≡ []
    → IsAtEnd (done ++ rest) (after (with_table d) now)
no_more d done now left rest made said split e =
    let all : rest ≡ now = split ∙ (ap (λ xs. now ++ xs) e ∙ append-nil now) in
    rw all (
      ap (λ ts. ts ++ statements_of now) made ∙ sym (statements_of-append done now),
      ap (λ vs. vs ++ versions_of now) said ∙ sym (versions_of-append done now),
    )

resumes_from :
    (f : Faults) (done rest : List Migration) (s : Migrating)
    → IsIncreasing (done ++ rest)
    → s.schema.made_by ≡ statements_of done
    → recorded s.schema.versions ≡ versions_of done
    → let r = migrate f (done ++ rest) s in
      IsAtStep (done ++ rest) r.1.schema × (r.0 ≡ true → IsAtEnd (done ++ rest) r.1.schema)
unfolding migrate
resumes_from f done rest s inc made said = elim (Bool-cases (f s.tick)) [
  | inl b ↦ (
    rw b (record { done = done; rest = rest; steps = refl; made = made; said = said }),
    λ q. absurd (ground arith),
  )
  | inr fine ↦ elim (Bool-cases (f (s.tick + 1))) [
    | inl b ↦ (
      rw (fine, b) (record { done = done; rest = rest; steps = refl; made = made; said = said }),
      λ q. absurd (ground arith),
    )
    | inr fine' ↦
        let got = progress f done rest s inc said in
        (
          rw (fine, fine', got.led)
              (extended s.schema done got.now got.left rest made said got.split),
          λ q.
              rw (fine, fine', got.led)
                (no_more s.schema done got.now got.left rest made said got.split
                  (got.all_done (ground arith))),
        )
  ]
]

-- Where the versions of the steps grow from 1, a start on a database that is at the end of a step,
-- and has the steps it has been through recorded, leaves it so, whichever of its statements fail; a
-- later start can go on from there.
pub migrate_resumes :
    (f : Faults) (ms : List Migration) (s : Migrating)
    → IsIncreasing ms
    → IsAtStep ms s.schema
    → IsAtStep ms (migrate f ms s).1.schema
migrate_resumes f ms s inc a =
    subst (λ xs. IsAtStep xs (migrate f xs s).1.schema) (sym a.steps)
      (resumes_from f a.done a.rest s (subst IsIncreasing a.steps inc) a.made a.said).0

-- Where the versions of the steps grow from 1, a start that succeeds has brought a database from
-- the end of any step to the whole schema: every statement has been executed, in order and once,
-- and every version recorded.
pub migrate_completes :
    (f : Faults) (ms : List Migration) (s : Migrating)
    → IsIncreasing ms
    → IsAtStep ms s.schema
    → (migrate f ms s).0 ≡ true
    → IsAtEnd ms (migrate f ms s).1.schema
migrate_completes f ms s inc a q =
    subst (λ xs. IsAtEnd xs (migrate f xs s).1.schema) (sym a.steps)
      ((resumes_from f a.done a.rest s (subst IsIncreasing a.steps inc) a.made a.said).1
        (subst (λ xs. (migrate f xs s).0 ≡ true) a.steps q))
