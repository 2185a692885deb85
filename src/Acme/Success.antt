-- ===== src/Acme/Success.antt =====
-- A round of internal/acme/acme.go with an honest authority obtains a certificate, and the rounds after
-- it leave it in place.
use mathlib.Core.Path.{subst}
use dokkup.Acme.{
  chain_pem, renew_before, Manager, create_account_key, stored_key, own_key, install_pair, will_do,
  needs_certificate, kept, ensure, obtain, unobtained, reloaded, renew, rounds,
}
use dokkup.Acme.Attempt.{◌>>=◌, ◌>>◌, Leaf, Exterior, Acme, advanced, give, ask, store_file}
use dokkup.Acme.Disk.{File, Disk, certificate, private_key}
use dokkup.Acme.Honest.{IsHonest, Works, followed-Works, Works->>, obtain-Works}
use dokkup.Acme.Issued.{Issued, IssuedText, obtain-Issued}
use dokkup.Acme.Pairs.{certificate_of, Unmoved, Renewed, renew-Renewed}
use dokkup.Acme.Soundness.{Usable, Usable-of}
use dokkup.Common.{
  sym, List, ◌⊎◌, ◌≤◌, ℕ, ◌+◌, ◌≡◌, refl, true, false, none, some, [], ◌==◌, Text, number_key,
  text_key, zero, suc, inl, inr, Option, arith, Bool-cases,
}

-- There is no account key on the disk yet, or there is one that can be read.
pub data HasAccount (o : Exterior) (s : Acme) : Type 0 where
  none_yet : s.disk.account_slot.content ≡ none → HasAccount o s
  readable :
      (pem key : Text)
      → s.disk.account_slot.content ≡ some pem
      → o.parse_key pem ≡ some key
      → HasAccount o s

-- The certificate on a disk will do at every reading of the clock.
pub record IsFresh (m : Manager) (o : Exterior) (d : Disk) : Type 0 where
  pub pem : Text
  pub leaf : Leaf
  pub held : certificate_of d ≡ some pem
  pub parsed : o.leaf_of pem ≡ some leaf
  pub lasting : (n : ℕ) → will_do m.domain (o.clock n) leaf ≡ true

module _ {m : Manager} {o : Exterior} (h : IsHonest m o) where
  store_file-whole : (file : File) (text : Text) (s : Acme) → (store_file file text o s).0 ≡ some tt
  unfolding store_file
  store_file-whole file text s = rw (h.writes s.tick, h.renames s.tick) refl

  own_key-Works : (s : Acme) → HasAccount o s → (key : Text) × ((own_key o s).0 ≡ some key)
  unfolding own_key stored_key create_account_key ask give ◌>>=◌ ◌>>◌ store_file
  own_key-Works s (readable pem key k g) = (key, rw (h.reads s.tick, k, g) refl)
  own_key-Works s (none_yet k) =
      let (key, g) = h.keys (s.tick + 1) in
      let (pem, l) = h.encodes key in
      (
        key,
        rw (h.reads s.tick, k, g, l, h.writes (s.tick + 1 + 1 + 1), h.renames (s.tick + 1 + 1 + 1))
            refl,
      )

  store_file-Works : (file : File) (text : Text) → Works o (store_file file text)
  store_file-Works file text = record { at = λ s. (tt, store_file-whole file text s) }

  renew-Works : (s : Acme) → HasAccount o s → (u : Unit {0}) × ((renew m o s).0 ≡ some u)
  unfolding renew install_pair ◌>>=◌
  renew-Works s a = followed-Works (obtain m o s) _ (obtain-Works h s (own_key-Works s a)) (λ pair.
      Works->> _ _ (store_file-Works private_key pair.1) (store_file-Works certificate pair.0))

  kept_by :
      (s : Acme) → (m.domain == []) ≡ false → IsFresh m o s.disk → ensure m o s ≡ (kept, advanced s)
  unfolding ensure needs_certificate
  kept_by s d f = rw (d, h.reads s.tick, f.held, f.parsed, f.lasting s.tick) refl

  rounds-kept :
      (n : ℕ) (s : Acme)
      → (m.domain == []) ≡ false
      → IsFresh m o s.disk
      → (rounds n m o s).disk ≡ s.disk
  unfolding rounds
  rounds-kept zero s d f = refl
  rounds-kept (suc n) s d f = rw (rounds, kept_by s d f) (rounds-kept n (advanced s) d f)

HasAccount-advanced : (o : Exterior) (s : Acme) → HasAccount o s → HasAccount o (advanced s)
HasAccount-advanced o s (none_yet k) = none_yet k
HasAccount-advanced o s (readable pem key k g) = readable pem key k g

reloaded-obtained :
    (m : Manager) (o : Exterior) (r : Option (Unit {0}) × Acme)
    → (u : Unit {0}) × (r.0 ≡ some u)
    → ¬ ((reloaded m o r).0 ≡ unobtained)
reloaded-obtained m o (none, s) k = cc
reloaded-obtained m o (some u, s) k = ground arith

-- Whatever chain the authority gives out, its text is that of a certificate not self-signed, for the
-- domain, and good for another 30 days at every reading of the clock.
pub record IssuesLasting (m : Manager) (o : Exterior) : Type 0 where
  pub leaf_in :
      (chain : List Text) (pem : Text)
      → Issued o chain
      → chain_pem o.certificate_pem chain ≡ some pem
      → (leaf : Leaf) × (o.leaf_of pem ≡ some leaf)
        × (leaf.self_signed ≡ false)
        × (leaf.covers m.domain ≡ true)
        × ((n : ℕ) → o.clock n + renew_before ≤ leaf.not_after)

IssuedText-IsFresh :
    (m : Manager) (o : Exterior) (pair : Text × Text) (d : Disk)
    → IssuesLasting m o
    → IssuedText o pair
    → certificate_of d ≡ some pair.0
    → IsFresh m o d
IssuedText-IsFresh m o pair d l (chain, issued, printed) h =
    let (leaf, parsed, signed, covered, late) = l.leaf_in chain pair.0 issued printed in
    record {
      pem = pair.0;
      leaf = leaf;
      held = h;
      parsed = parsed;
      lasting = λ n. ground (arith, late n);
    }

reloaded-disk :
    (m : Manager) (o : Exterior) (u : Unit {0}) (t : Acme)
    → (reloaded m o (some u, t)).1.disk ≡ t.disk
reloaded-disk m o u t = ground arith

reloaded-IsFresh :
    (m : Manager) (o : Exterior) (c : Option Text) (got : Option (Text × Text))
    (r : Option (Unit {0}) × Acme)
    → IssuesLasting m o
    → ((pair : Text × Text) → got ≡ some pair → IssuedText o pair)
    → Renewed c got r
    → (u : Unit {0}) × (r.0 ≡ some u)
    → IsFresh m o (reloaded m o r).1.disk
reloaded-IsFresh m o c got (none, t) l i h k = cc
reloaded-IsFresh m o c none (some u, t) l i h k = cc
reloaded-IsFresh m o c (some pair) (some u, t) l i h k =
    let fresh : IsFresh m o t.disk = IssuedText-IsFresh m o pair t.disk l (i pair refl) h.0.0 in
    subst (IsFresh m o) (sym (reloaded-disk m o u t)) fresh

-- With an authority, keys and a disk on which nothing is wrong, a domain, no account key on the disk
-- or one that can be read, and an authority whose certificates can be read, are not self-signed, are
-- for the domain and are good for another 30 days at every reading of the clock, a program that has
-- recorded no change of the disk yet does not fail to obtain a certificate, whether by the answer to a
-- challenge or not, and even where the order can only be collected after finalizing it failed. Unless
-- there was a certificate that will do already, the disk then has one that will do at every reading of
-- the clock, and any number of further rounds leave the disk as it is.
pub round_settles :
    (n : ℕ) (m : Manager) (o : Exterior) (s : Acme)
    → IsHonest m o
    → (m.domain == []) ≡ false
    → HasAccount o s
    → IssuesLasting m o
    → s.seen ≡ []
    → let (ending, after) = ensure m o s in
      (¬ (ending ≡ unobtained))
      × (Usable m o s ⊎ (IsFresh m o after.disk × ((rounds n m o after).disk ≡ after.disk)))
unfolding ensure Unmoved
round_settles n m o s h d a l e = elim (Bool-cases (needs_certificate m o s)) [
  | inr g ↦ rw (d, g) ((λ z. cc), inl (Usable-of m o s g))
  | inl g ↦
      let t : Acme = advanced s in
      let works = renew-Works h t (HasAccount-advanced o s a) in
      let renewed = renew-Renewed (certificate_of s.disk) m o t (refl, rw e tt) in
      let fresh : IsFresh m o (reloaded m o (renew m o t)).1.disk =
        reloaded-IsFresh m o (certificate_of s.disk) (obtain m o t).0 (renew m o t) l
          ((obtain-Issued m).at t) renewed works in
      rw (d, g)
        (
          reloaded-obtained m o (renew m o t) works,
          inr (fresh, rounds-kept h n (reloaded m o (renew m o t)).1 d fresh),
        )
]
