-- ===== src/Updater/Outcomes.antt =====
-- internal/cli/update.go: the outcomes of an update, and the files after each.
use mathlib.Core.Path.{subst}
use dokkup.Common.{
  ◌≡◌, refl, sym, ◌∙◌, ◌⊎◌, inl, inr, Bool, true, false, Option, none, some, arith, Option-cases,
  Text,
}
use dokkup.Release.{newer, same_version}
use dokkup.Release.Fetch.{fetch}
use dokkup.Release.Order.{newer_or_same}
use dokkup.Server.SignIn.Refusals.{outcome}
use dokkup.Updater.{
  Host, Machine, Outcome, nothing_to_do, updated, no_target, older_refused, not_fetched,
  not_swapped, rolled_back, rollback_failed, sweep_temp, installed, refusal_of, decided, targeted,
  update,
}
use dokkup.Updater.Laws.{Went, proved_lem}

-- What each outcome says of the host before, where `b` was the binary, and after.
abbrev pub Leaves : Machine → Option Text → Bool → Host → Text → Outcome → Host → Type 0
Leaves m want allow h b no_target h' = (m.resolve want ≡ none) × (h' ≡ h)
Leaves m want allow h b nothing_to_do h' =
    (target : Text) × (m.resolve want ≡ some target)
    × (same_version target m.current ≡ true)
    × (h' ≡ h)
Leaves m want allow h b older_refused h' =
    (target : Text) × (m.resolve want ≡ some target)
    × (newer m.current target ≡ true)
    × (allow ≡ false)
    × (h' ≡ h)
Leaves m want allow h b not_fetched h' = (h'.binary ≡ some b) × (h'.previous ≡ h.previous)
Leaves m want allow h b outcome h' =
    (target : Text) × (content : Text) × (signed : Bool) × (m.resolve want ≡ some target)
    × (refusal_of m.current target allow ≡ none)
    × (fetch (m.origin target) m.goarch ≡ some (content, signed))
    × Went m target content b outcome h'

refusal_lem :
    (current target : Text) (allow : Bool)
    → (refusal_of current target allow ≡ none)
      ⊎ ((refusal_of current target allow ≡ some nothing_to_do)
          × (same_version target current ≡ true))
      ⊎ ((refusal_of current target allow ≡ some older_refused)
          × (newer current target ≡ true)
          × (allow ≡ false))
refusal_lem current target allow = ground (arith, newer_or_same target current)

pub swept-binary :
    (m : Machine) (h : Host)
    → ((sweep_temp m h).binary ≡ h.binary) × ((sweep_temp m h).previous ≡ h.previous)
unfolding sweep_temp
swept-binary m h = ground arith

Went-Leaves :
    (m : Machine) (want : Option Text) (allow : Bool) (h : Host) (b target content : Text)
    (signed : Bool)
    → m.resolve want ≡ some target
    → refusal_of m.current target allow ≡ none
    → fetch (m.origin target) m.goarch ≡ some (content, signed)
    → (o : Outcome) (h' : Host) → Went m target content b o h'
    → Leaves m want allow h b o h'
Went-Leaves m want allow h b target content signed r d f updated h' w =
    (target, content, signed, r, d, f, w)
Went-Leaves m want allow h b target content signed r d f not_swapped h' w =
    (target, content, signed, r, d, f, w)
Went-Leaves m want allow h b target content signed r d f rolled_back h' w =
    (target, content, signed, r, d, f, w)
Went-Leaves m want allow h b target content signed r d f rollback_failed h' w =
    (target, content, signed, r, d, f, w)
Went-Leaves m want allow h b target content signed r d f no_target h' w = absurd w
Went-Leaves m want allow h b target content signed r d f nothing_to_do h' w = absurd w
Went-Leaves m want allow h b target content signed r d f older_refused h' w = absurd w
Went-Leaves m want allow h b target content signed r d f not_fetched h' w = absurd w

module _ (m : Machine) (want : Option Text) (allow : Bool) (h : Host) (b target : Text) where
  installed_lem :
      h.binary ≡ some b
      → m.resolve want ≡ some target
      → refusal_of m.current target allow ≡ none
      → (f : Option (Text × Bool)) → fetch (m.origin target) m.goarch ≡ f
      → let r = installed m target f (sweep_temp m h) in Leaves m want allow h b r.0 r.1
  installed_lem g r d none e = ((swept-binary m h).0 ∙ g, (swept-binary m h).1)
  installed_lem g r d (some (content, signed)) e =
      Went-Leaves m want allow h b target content signed r d e _ _
        (proved_lem m target content b (sweep_temp m h) ((swept-binary m h).0 ∙ g))

  targeted_lem :
      h.binary ≡ some b
      → m.resolve want ≡ some target
      → let r = decided m target (refusal_of m.current target allow) h in
        Leaves m want allow h b r.0 r.1
  targeted_lem g r = elim (refusal_lem m.current target allow) [
    | inl d ↦
        subst (λ o. Leaves m want allow h b (decided m target o h).0 (decided m target o h).1)
          (sym d) (installed_lem g r d (fetch (m.origin target) m.goarch) refl)
    | inr (inl (d, alike)) ↦
        subst (λ o. Leaves m want allow h b (decided m target o h).0 (decided m target o h).1)
          (sym d) (target, r, alike, refl)
    | inr (inr (d, older, denied)) ↦
        subst (λ o. Leaves m want allow h b (decided m target o h).0 (decided m target o h).1)
          (sym d) (target, r, older, denied, refl)
  ]

-- An update of an installed host, whichever system calls, restarts and probes fail, does what its
-- outcome says. A refusal has touched nothing, and an older version is refused unless it is allowed; a
-- download that is not trusted is not installed; a success has the fetched content as the binary, the
-- old one beside it, and an endpoint that named the new version; a rollback has the old binary back and
-- an endpoint that named the old version; and only a failed rollback leaves open which of the two
-- binaries is in place.
pub update-Leaves :
    (m : Machine) (want : Option Text) (allow : Bool) (h : Host) (b : Text)
    → h.binary ≡ some b
    → let r = update m want allow h in Leaves m want allow h b r.0 r.1
unfolding update
update-Leaves m want allow h b g = elim (Option-cases (m.resolve want)) [
  | inl r ↦
      subst (λ t. Leaves m want allow h b (targeted m allow t h).0 (targeted m allow t h).1) (sym r)
        (r, refl)
  | inr (target, r) ↦
      subst (λ t. Leaves m want allow h b (targeted m allow t h).0 (targeted m allow t h).1) (sym r)
        (targeted_lem m want allow h b target g r)
]
