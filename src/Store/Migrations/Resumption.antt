-- ===== src/Store/Migrations/Resumption.antt =====
-- How far the loop of migrate (internal/store/migrate.go) gets.
use mathlib.Core.List.{append-nil, append_assoc}
use dokkup.Common.{
  ℕ, ◌≡◌, true, false, some, List, [], ◌∷◌, ◌++◌, map, Text, sym, ap, ◌∙◌, inl, inr, arith,
  Bool-cases, ◌≤◌, ◌<◌, refl, Bool, ltb, if◌then◌else◌, All,
}
use dokkup.Store.Migrations.{
  Migration, Schema, Migrating, Faults, execute, apply, onward, recorded, highest, apply_after,
}

abbrev pub statements_of : List Migration → List Text
statements_of [] = []
statements_of (m ∷ ms) = m.statements ++ statements_of ms

abbrev pub versions_of : List Migration → List ℕ
versions_of = map (λ m. m.version)

-- the schema that some steps lead to, from another
abbrev pub after : Schema → List Migration → Schema
after d ms = record {
  versions = some (recorded d.versions ++ versions_of ms);
  made_by = d.made_by ++ statements_of ms;
}

execute_lem :
    (f : Faults) (ts : List Text) (s : Migrating)
    → (execute f ts s).0 ≡ true
    → (execute f ts s).1.schema ≡ record s.schema { made_by = s.schema.made_by ++ ts }
execute_lem f [] s h =
    ap (λ (ts : List Text). record s.schema { made_by = ts }) (sym (append-nil s.schema.made_by))
execute_lem f (t ∷ ts) s h = elim (Bool-cases (f s.tick)) [
  | inl broken ↦ absurd (ground arith)
  | inr fine ↦ rw fine (
      execute_lem f ts
        (record (onward s) { schema = record s.schema { made_by = s.schema.made_by ++ t ∷ [] } })
        (ground arith)
      ∙ ap (λ (us : List Text). record s.schema { made_by = us })
          (append_assoc s.schema.made_by (t ∷ []) ts))
]

apply_done :
    (f : Faults) (m : Migration) (s : Migrating)
    → (apply f m s).0 ≡ true
    → (apply f m s).1.schema ≡ after s.schema (m ∷ [])
unfolding apply
apply_done f m s h = elim (Bool-cases (execute f m.statements (onward s)).0) [
  | inr broken ↦ absurd (ground arith)
  | inl fine ↦ ground (arith, execute_lem f m.statements (onward s) fine, append-nil m.statements)
]

apply_undone :
    (f : Faults) (m : Migration) (s : Migrating)
    → (apply f m s).0 ≡ false
    → (apply f m s).1.schema ≡ s.schema
unfolding apply
apply_undone f m s h = ground arith

-- versions only ever grow, from 1
abbrev pub IsIncreasing : List Migration → Type 0
IsIncreasing [] = Unit
IsIncreasing (m ∷ ms) = (0 < m.version) × All (λ n. m.version < n.version) ms × IsIncreasing ms

-- the schema is what some first steps have made, and it says so
pub record IsAtStep (ms : List Migration) (d : Schema) : Type 0 where
  pub done : List Migration
  pub rest : List Migration
  pub steps : ms ≡ done ++ rest
  pub made : d.made_by ≡ statements_of done
  pub said : recorded d.versions ≡ versions_of done

above_both :
    (a b : ℕ) (ms : List Migration)
    → All (λ n. a < n.version) ms
    → All (λ n. b < n.version) ms
    → All (λ n. (if ltb b a then a else b) < n.version) ms
above_both a b [] h g = tt
above_both a b (m ∷ ms) h g = (ground arith, above_both a b ms h.1 g.1)

above_rest :
    (a : ℕ) (done rest : List Migration)
    → All (λ n. a < n.version) (done ++ rest)
    → All (λ n. a < n.version) rest
above_rest a [] rest h = h
above_rest a (m ∷ done) rest h = above_rest a done rest h.1

positive : (ms : List Migration) → IsIncreasing ms → All (λ n. 0 < n.version) ms
positive [] h = tt
positive (m ∷ ms) (p, _, h) = (p, positive ms h)

pub rest_above :
    (done rest : List Migration)
    → IsIncreasing (done ++ rest)
    → All (λ n. highest (versions_of done) < n.version) rest
rest_above [] rest h = positive rest h
rest_above (m ∷ done) rest (p, lower, h) =
    above_both m.version (highest (versions_of done)) rest (above_rest m.version done rest lower)
      (rest_above done rest h)

pub done_below :
    (k : ℕ) (done : List Migration) → highest (versions_of done) ≤ k → All (λ m. m.version ≤ k) done
done_below k [] h = tt
done_below k (m ∷ done) h = (ground arith, done_below k done (ground arith))

pub skip_done :
    (f : Faults) (k : ℕ) (done rest : List Migration) (s : Migrating)
    → All (λ m. m.version ≤ k) done
    → apply_after f k (done ++ rest) s ≡ apply_after f k rest s
skip_done f k [] rest s h = refl
skip_done f k (m ∷ done) rest s (h, hs) = ground (arith, skip_done f k done rest s hs)

after-after :
    (d : Schema) (m : Migration) (ms : List Migration)
    → after (after d (m ∷ [])) ms ≡ after d (m ∷ ms)
after-after d m ms =
    rw
      (
        append_assoc (recorded d.versions) (m.version ∷ []) (versions_of ms),
        append-nil m.statements,
        append_assoc d.made_by m.statements (statements_of ms),
      )
      refl

-- how far a run of the loop got
pub record GotTo (ms : List Migration) (d : Schema) (r : Bool × Migrating) : Type 0 where
  pub now : List Migration
  pub left : List Migration
  pub split : ms ≡ now ++ left
  pub led : r.1.schema ≡ after d now
  pub all_done : r.0 ≡ true → left ≡ []

goes_on :
    (f : Faults) (k : ℕ) (m : Migration) (ms : List Migration) (s : Migrating)
    → k < m.version
    → (apply f m s).0 ≡ true
    → apply_after f k (m ∷ ms) s ≡ apply_after f k ms (apply f m s).1
goes_on f k m ms s h e = ground arith

stops :
    (f : Faults) (k : ℕ) (m : Migration) (ms : List Migration) (s : Migrating)
    → k < m.version
    → (apply f m s).0 ≡ false
    → apply_after f k (m ∷ ms) s ≡ (false, (apply f m s).1)
stops f k m ms s h e = ground arith

pub loop_lem :
    (f : Faults) (k : ℕ) (ms : List Migration) (s : Migrating)
    → All (λ n. k < n.version) ms
    → s.schema ≡ after s.schema []
    → GotTo ms s.schema (apply_after f k ms s)
loop_lem f k [] s h g = record { now = []; left = []; split = refl; led = g; all_done = λ e. refl }
loop_lem f k (m ∷ ms) s (h, hs) g = elim (Bool-cases (apply f m s).0) [
  | inl fine ↦
      let e = apply_done f m s fine in
      let further =
        loop_lem f k ms (apply f m s).1 hs
          (e ∙ (sym (after-after s.schema m []) ∙ ap (λ d. after d []) (sym e))) in
      record {
        now = m ∷ further.now;
        left = further.left;
        split = ap (λ xs. m ∷ xs) further.split;
        led =
            rw (goes_on f k m ms s h fine) (
              further.led ∙ (ap (λ d. after d further.now) e ∙ after-after s.schema m further.now));
        all_done = λ q. further.all_done (sym (ap (λ r. r.0) (goes_on f k m ms s h fine)) ∙ q);
      }
  | inr broken ↦ record {
    now = [];
    left = m ∷ ms;
    split = refl;
    led = rw (stops f k m ms s h broken) (apply_undone f m s broken ∙ g);
    all_done = λ q. absurd (ground (arith, stops f k m ms s h broken));
  }
]

pub versions_of-append :
    (ms ns : List Migration) → versions_of (ms ++ ns) ≡ versions_of ms ++ versions_of ns
versions_of-append [] ns = refl
versions_of-append (m ∷ ms) ns = ap (λ vs. m.version ∷ vs) (versions_of-append ms ns)

pub statements_of-append :
    (ms ns : List Migration) → statements_of (ms ++ ns) ≡ statements_of ms ++ statements_of ns
statements_of-append [] ns = refl
statements_of-append (m ∷ ms) ns =
    ap (λ ts. m.statements ++ ts) (statements_of-append ms ns)
    ∙ sym (append_assoc m.statements (statements_of ms) (statements_of ns))
