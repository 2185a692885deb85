-- ===== src/System/Sudoers.antt =====
-- internal/host/tools.go: WriteSudoers, with the temporary file that it writes, checks and renames.
use dokkup.Common.{
  ℕ, ◌≡◌, Bool, true, false, ◌||◌, Option, none, some, if◌then◌else◌, Text, refl, ◌⊎◌, inl, inr,
  sym, ap, ◌∙◌, not,
}
use dokkup.Places.{Place, same_place_iff}
use dokkup.System.{System, Tools, write_sudoers}

-- a file: its text, its mode and whether root owns it
pub record Entry : Type 0 where
  pub text : Text
  pub mode : ℕ
  pub rooted : Bool

-- what is at the path of the rule and at the path of the temporary file beside it
pub record Sudoers : Type 0 where
  pub rule : Option Entry
  pub staging : Option Entry

-- The calls: whether os.WriteFile succeeds, what it leaves at the temporary path where it does not, and
-- the mode and the owner of what it wrote; what visudo says of a file; and which of the others fail.
pub record Staging : Type 0 where
  pub write_fails : Bool
  pub torn : Text → Option Entry → Option Entry
  pub mode_of : Option Entry → ℕ
  pub rooted_of : Option Entry → Bool
  pub chmod_fails : Bool
  pub is_root : Bool
  pub chown_fails : Bool
  pub visudo : Entry → Bool
  pub rename_fails : Bool
  pub remove_fails : Bool

-- 0440
abbrev pub rule_mode : ℕ
rule_mode = 288

-- os.Remove of the temporary file, whose error is ignored, and the error
abbrev pub withdrawn : Staging → Sudoers → Bool × Sudoers
withdrawn f s = (false, if f.remove_fails then s else record s { staging = none })

abbrev pub rename_rule : Staging → Entry → Sudoers → Bool × Sudoers
rename_rule f e s =
    if f.rename_fails then withdrawn f s else (true, record { rule = some e; staging = none })

abbrev pub check_rule : Staging → Entry → Sudoers → Bool × Sudoers
check_rule f e s = if f.visudo e then rename_rule f e s else withdrawn f s

abbrev pub chowned : Staging → Entry → Sudoers → Bool × Sudoers
chowned f e s =
    if f.chown_fails then withdrawn f s else check_rule f e (record s { staging = some e })

abbrev pub give_to_root : Staging → Entry → Sudoers → Bool × Sudoers
give_to_root f e s =
    if f.is_root then chowned f (record e { rooted = true }) s else check_rule f e s

abbrev pub set_mode : Staging → Entry → Sudoers → Bool × Sudoers
set_mode f e s =
    if f.chmod_fails
    then withdrawn f s
    else let e' : Entry = record e { mode = rule_mode } in
      give_to_root f e' (record s { staging = some e' })

-- what os.WriteFile wrote
abbrev pub fresh_entry : Staging → Text → Sudoers → Entry
fresh_entry f text s = record {
  text = text;
  mode = f.mode_of s.staging;
  rooted = f.rooted_of s.staging;
}

-- WriteSudoers
unfoldable pub stage_sudoers : Staging → Text → Sudoers → Bool × Sudoers
stage_sudoers f text s =
    if f.write_fails
    then (false, record s { staging = f.torn text s.staging })
    else let e = fresh_entry f text s in set_mode f e (record s { staging = some e })

-- the rule as it is installed
abbrev pub installed_rule : Staging → Text → Sudoers → Entry
installed_rule f text s = record {
  text = text;
  mode = rule_mode;
  rooted = f.is_root || f.rooted_of s.staging;
}

-- what is there afterwards: the rule, checked, or what was there before
abbrev pub Staged : Staging → Text → Sudoers → Bool × Sudoers → Type 0
Staged f text s (true, t) =
    (f.visudo (installed_rule f text s) ≡ true)
    × (t.rule ≡ some (installed_rule f text s))
    × (t.staging ≡ none)
Staged f text s (false, t) =
    (t.rule ≡ s.rule) × ((t.staging ≡ none) ⊎ (f.remove_fails ≡ true) ⊎ (f.write_fails ≡ true))

abbrev pub text_of : Option Entry → Option Text
text_of none = none
text_of (some e) = some e.text

if_either :
    {A : Type 0} (P : A → Type 0) (b : Bool) (x y : A)
    → (b ≡ true → P x)
    → (b ≡ false → P y)
    → P (if b then x else y)
if_either P true x y h k = h refl
if_either P false x y h k = k refl

module _ (f : Staging) (text : Text) (s : Sudoers) where
  withdrawn-Staged : (u : Sudoers) → u.rule ≡ s.rule → Staged f text s (withdrawn f u)
  withdrawn-Staged u h =
      if_either (λ t. Staged f text s (false, t)) f.remove_fails u (record u { staging = none })
        (λ r. (h, inr (inl r))) (λ r. (h, inl refl))

  check_rule-Staged :
      (e : Entry) (u : Sudoers)
      → u.rule ≡ s.rule
      → e ≡ installed_rule f text s
      → Staged f text s (check_rule f e u)
  check_rule-Staged e u h k =
      if_either (Staged f text s) (f.visudo e) (rename_rule f e u) (withdrawn f u)
        (λ v.
          if_either (Staged f text s) f.rename_fails (withdrawn f u)
            (true, record { rule = some e; staging = none }) (λ r. withdrawn-Staged u h)
            (λ r. (ap f.visudo (sym k) ∙ v, ap some k, refl)))
        (λ v. withdrawn-Staged u h)

  set_mode-Staged :
      (u : Sudoers) → u.rule ≡ s.rule → Staged f text s (set_mode f (fresh_entry f text s) u)
  set_mode-Staged u h =
      let e : Entry = record (fresh_entry f text s) { mode = rule_mode } in
      let moded : Sudoers = record u { staging = some e } in
      let owned : Entry = record e { rooted = true } in
      if_either (Staged f text s) f.chmod_fails (withdrawn f u) (give_to_root f e moded)
        (λ r. withdrawn-Staged u h)
        (λ r.
          if_either (Staged f text s) f.is_root (chowned f owned moded) (check_rule f e moded)
            (λ root.
              if_either (Staged f text s) f.chown_fails (withdrawn f moded)
                (check_rule f owned (record moded { staging = some owned }))
                (λ c. withdrawn-Staged moded h)
                (λ c.
                  check_rule-Staged owned _ h
                    (ap (λ b. record e { rooted = b || f.rooted_of s.staging }) (sym root))))
            (λ root.
              check_rule-Staged e moded h
                (ap (λ b. record e { rooted = b || f.rooted_of s.staging }) (sym root))))

  stage_sudoers-Staged : Staged f text s (stage_sudoers f text s)
  unfolding stage_sudoers
  stage_sudoers-Staged =
      if_either (Staged f text s) f.write_fails _ _ (λ w. (refl, inr (inr w)))
        (λ w. set_mode-Staged _ refl)

-- the text at the place of the rule, by the answer
answered :
    (f : Staging) (text : Text) (s : Sudoers) (r : Bool × Sudoers)
    → Staged f text s r
    → text_of r.1.rule ≡ (if r.0 then some text else text_of s.rule)
answered f text s (true, t) h = rw (h.1) refl
answered f text s (false, t) h = rw (h.0) refl

in_one_step :
    (g : Tools) (p : Place) (text : Text) (h : System) (b : Bool)
    → g.fails h.tick ≡ not b
    → ((write_sudoers g p text h).0 ≡ b)
      × ((write_sudoers g p text h).1.files p ≡ (if b then some text else h.files p))
in_one_step g p text h true k = rw (k, (same_place_iff p p).1 refl) (refl, refl)
in_one_step g p text h false k = rw k (refl, refl)

-- Whichever calls fail on the way, WriteSudoers does what the host is taken to do in one step: where it
-- answers no error, the rule is at its path, with the mode 0440 and, as root, owned by root, visudo has
-- accepted just that file, and nothing is left beside it; otherwise what was at the path still is, and a
-- file is left beside it only where the write or the removal of that file failed.
pub stage_sudoers_refines :
    (f : Staging) (g : Tools) (p : Place) (text : Text) (s : Sudoers) (h : System)
    → g.fails h.tick ≡ not (stage_sudoers f text s).0
    → h.files p ≡ text_of s.rule
    → let r = stage_sudoers f text s in
      let one = write_sudoers g p text h in
      Staged f text s r × (one.0 ≡ r.0) × (one.1.files p ≡ text_of r.1.rule)
stage_sudoers_refines f g p text s h k same =
    let staged = stage_sudoers-Staged f text s in
    let (a, b) = in_one_step g p text h (stage_sudoers f text s).0 k in
    (staged, a, b ∙ (rw same (sym (answered f text s (stage_sudoers f text s) staged))))
