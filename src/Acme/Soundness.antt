-- ===== src/Acme/Soundness.antt =====
-- What Ensure of internal/acme/acme.go leaves on the disk, for each thing that it returns.
use dokkup.Acme.{
  Manager, obtain, will_do, read_will_do, needs_certificate, Ensured, kept, obtained, unreloaded,
  unobtained, reloaded, ensure,
}
use dokkup.Acme.Attempt.{
  Leaf, Exterior, Acme, advanced, Read, found, missing, unreadable, reading, read_file,
}
use dokkup.Acme.Disk.{certificate, Disk}
use dokkup.Acme.Pairs.{certificate_of, key_of, Unmoved, Paired, Renewed, renew-Renewed}
use dokkup.Common.{
  ℕ, ◌≡◌, refl, inl, inr, Bool, true, false, Option, none, some, List, [], arith, Bool-cases, All,
  ◌==◌, Text, number_key, text_key,
}

-- the disk of the certificate that is there
abbrev pub Usable : Manager → Exterior → Acme → Type 0
Usable m o s =
    (pem : Text) × (leaf : Leaf) × (certificate_of s.disk ≡ some pem)
    × (o.leaf_of pem ≡ some leaf)
    × (will_do m.domain (o.clock s.tick) leaf ≡ true)

-- What Ensure has done, from what it returns: the certificate on the disk is one that will do; or it is
-- what was obtained, with its key; or it is the one from before. `got` is what `obtain` answers.
abbrev pub Sound : Manager → Exterior → Acme → Option (Text × Text) → Ensured × Acme → Type 0
Sound m o s got (kept, t) = Usable m o s × (t.disk ≡ s.disk)
Sound m o s got (obtained, t) =
    (pair : Text × Text) × (got ≡ some pair)
    × (certificate_of t.disk ≡ some pair.0)
    × (key_of t.disk ≡ some pair.1)
Sound m o s got (unreloaded, t) =
    (pair : Text × Text) × (got ≡ some pair)
    × (certificate_of t.disk ≡ some pair.0)
    × (key_of t.disk ≡ some pair.1)
Sound m o s got (unobtained, t) = certificate_of t.disk ≡ certificate_of s.disk

-- all that a reload may have found on the way
abbrev pub Found : Option Text → Option (Text × Text) → List Disk → Type 0
Found c none ds = All (λ d. certificate_of d ≡ c) ds
Found c (some pair) ds = All (Paired c pair) ds

reloaded-Sound :
    (m : Manager) (o : Exterior) (s : Acme) (got : Option (Text × Text))
    (r : Option (Unit {0}) × Acme)
    → Renewed (certificate_of s.disk) got r
    → Sound m o s got (reloaded m o r) × Found (certificate_of s.disk) got (reloaded m o r).1.seen
unfolding Unmoved
reloaded-Sound m o s none (none, t) h = h.1
reloaded-Sound m o s none (some u, t) h = cc
reloaded-Sound m o s (some pair) (none, t) h = h
reloaded-Sound m o s (some pair) (some u, t) h = elim (Bool-cases m.reloads) [
  | inr f ↦ rw f ((pair, refl, h.0.0, h.0.1), h.1)
  | inl f ↦ elim (Bool-cases (o.reload t.tick)) [
    | inl g ↦ rw (f, g) ((pair, refl, h.0.0, h.0.1), h.1)
    | inr g ↦ rw (f, g) ((pair, refl, h.0.0, h.0.1), h.1)
  ]
]

usable_read :
    (domain : Text) (at : ℕ) (leaf_of : Text → Option Leaf) (r : Read)
    → read_will_do domain at leaf_of r ≡ true
    → (pem : Text) × (leaf : Leaf) × (r ≡ found pem)
      × (leaf_of pem ≡ some leaf)
      × (will_do domain at leaf ≡ true)
usable_read domain at leaf_of missing h = cc
usable_read domain at leaf_of unreadable h = cc
usable_read domain at leaf_of (found pem) h = read (leaf_of pem) refl h
  where
    read :
        (l : Option Leaf)
        → leaf_of pem ≡ l
        → (elim l [ none ↦ false | some leaf ↦ will_do domain at leaf ]) ≡ true
        → (p : Text) × (leaf : Leaf) × (found pem ≡ found p)
          × (leaf_of p ≡ some leaf)
          × (will_do domain at leaf ≡ true)
    read none k g = cc
    read (some leaf) k g = (pem, leaf, refl, k, g)

reading-found : (b : Bool) (c : Option Text) (pem : Text) → reading b c ≡ found pem → c ≡ some pem
reading-found true c pem h = cc
reading-found false none pem h = cc
reading-found false (some text) pem h = cc

pub Usable-of :
    (m : Manager) (o : Exterior) (s : Acme) → needs_certificate m o s ≡ false → Usable m o s
unfolding needs_certificate
Usable-of m o s h =
    let (pem, leaf, r, l, w) =
      usable_read m.domain (o.clock s.tick) o.leaf_of (read_file certificate o s) (ground arith) in
    (pem, leaf, reading-found _ _ pem r, l, w)

Found-none :
    (c : Option Text) (got : Option (Text × Text)) (ds : List Disk) → ds ≡ [] → Found c got ds
Found-none c none ds h = rw h tt
Found-none c (some pair) ds h = rw h tt

-- Whatever the authority, the disk, the clock and nginx do: where Ensure says that there was nothing to
-- do, the certificate on the disk is one that it can read, not self-signed, for the domain, and good for
-- another 30 days, and the disk is untouched; where it wrote one, reloaded or not, the certificate and
-- the key on the disk are the pair that was obtained; and otherwise the certificate is the one from
-- before. And at no moment on the way did the disk hold a new certificate without the key that was made
-- with it.
pub ensure-Sound :
    (m : Manager) (o : Exterior) (s : Acme)
    → s.seen ≡ []
    → let got = (obtain m o (advanced s)).0 in
      Sound m o s got (ensure m o s) × Found (certificate_of s.disk) got (ensure m o s).1.seen
unfolding ensure Unmoved
ensure-Sound m o s h =
    let c : Option Text = certificate_of s.disk in
    elim (Bool-cases (m.domain == [])) [
      | inl f ↦ rw f (refl, Found-none c (obtain m o (advanced s)).0 s.seen h)
      | inr f ↦ elim (Bool-cases (needs_certificate m o s)) [
        | inl g ↦
            let (a, b) =
              reloaded-Sound m o s _ _ (renew-Renewed c m o (advanced s) (refl, rw h tt)) in
            rw (f, g) (a, b)
        | inr g ↦
            rw (f, g) ((Usable-of m o s g, refl), Found-none c (obtain m o (advanced s)).0 s.seen h)
      ]
    ]
