-- ===== src/Acme/Pairs.antt =====
-- The certificate and its key of internal/acme/acme.go: what a round leaves, and what a reload in the
-- middle of it may find.
use dokkup.Acme.{Manager, create_account_key, stored_key, own_key, obtain, install_pair, renew}
use dokkup.Acme.Attempt.{
  ◌>>=◌, ◌>>◌, Exterior, Acme, store_file, Read, found, missing, unreadable, followed,
}
use dokkup.Acme.Disk.{
  Written, whole, unopened, torn, Slot, Disk, replace_slot, File, account_key, certificate,
  private_key,
}
use dokkup.Acme.Preserved.{
  Preserved, Timeless, Preserved-fail, Preserved->>=, Preserved-ask, preserved, Tokenless,
  presented-Preserved, obtain-Preserved,
}
use dokkup.Common.{
  ◌≡◌, refl, Bool, true, false, Option, some, if◌then◌else◌, Text, ◌⊎◌, inl, none, List, All,
  All-weaken, ◌∙◌, inr, Bool-cases,
}

abbrev pub certificate_of : Disk → Option Text
certificate_of d = d.certificate_slot.content

abbrev pub key_of : Disk → Option Text
key_of d = d.key_slot.content

replace_slot-content :
    (w : Written) (r m : Bool) (text : Text) (t : Slot)
    → (replace_slot w r m text t).1.content
      ≡ (if (replace_slot w r m text t).0 then some text else t.content)
replace_slot-content unopened r m text t = refl
replace_slot-content (torn n) r m text t = refl
replace_slot-content whole true true text t = refl
replace_slot-content whole true false text t = refl
replace_slot-content whole false m text t = refl

-- the certificate on the disk, at every moment
unfoldable pub Unmoved : Option Text → Acme → Type 0
Unmoved c s = (certificate_of s.disk ≡ c) × All (λ d. certificate_of d ≡ c) s.seen

module _ (c : Option Text) where
  Unmoved-Timeless : Timeless (Unmoved c)
  unfolding Unmoved
  Unmoved-Timeless s h = h

  Unmoved-Tokenless : Tokenless (Unmoved c)
  unfolding Unmoved
  Unmoved-Tokenless s tokens h = h

  store_file-Unmoved :
      (file : File) (text : Text)
      → ¬ (file ≡ certificate)
      → Preserved (Unmoved c) (store_file file text)
  unfolding store_file Unmoved
  store_file-Unmoved certificate text h = absurd (h refl)
  store_file-Unmoved account_key text h = record { at = λ o s k. (k.0, (k.0, k.1)) }
  store_file-Unmoved private_key text h = record { at = λ o s k. (k.0, (k.0, k.1)) }

  create_account_key-Unmoved : Preserved (Unmoved c) create_account_key
  unfolding create_account_key
  create_account_key-Unmoved =
      search (preserved, Unmoved-Timeless, store_file-Unmoved account_key _ (λ h. cc))

  stored_key-Unmoved : (r : Read) → Preserved (Unmoved c) (stored_key r)
  unfolding stored_key
  stored_key-Unmoved (found pem) = Preserved-ask Unmoved-Timeless _
  stored_key-Unmoved missing = create_account_key-Unmoved
  stored_key-Unmoved unreadable = Preserved-fail

  own_key-Unmoved : Preserved (Unmoved c) own_key
  unfolding own_key
  own_key-Unmoved = Preserved->>= _ _ (Preserved-ask Unmoved-Timeless _) stored_key-Unmoved

  obtain-Unmoved : (m : Manager) → Preserved (Unmoved c) (obtain m)
  obtain-Unmoved =
      obtain-Preserved Unmoved-Timeless own_key-Unmoved
        (presented-Preserved Unmoved-Timeless Unmoved-Tokenless)

-- A certificate other than the one before stands beside the key that was made for it.
abbrev pub Paired : Option Text → Text × Text → Disk → Type 0
Paired c pair d =
    (certificate_of d ≡ c) ⊎ ((certificate_of d ≡ some pair.0) × (key_of d ≡ some pair.1))

-- what writing a pair leaves, with the answer
abbrev pub Installed : Option Text → Text × Text → Option (Unit {0}) × Acme → Type 0
Installed c pair (none, t) = (certificate_of t.disk ≡ c) × All (Paired c pair) t.seen
Installed c pair (some u, t) =
    ((certificate_of t.disk ≡ some pair.0) × (key_of t.disk ≡ some pair.1))
    × All (Paired c pair) t.seen

Unmoved-Paired :
    (c : Option Text) (pair : Text × Text) (ds : List Disk)
    → All (λ d. certificate_of d ≡ c) ds
    → All (Paired c pair) ds
Unmoved-Paired c pair = All-weaken _ _ (λ d h. inl h)

-- the key is written first
abbrev KeyStored : Option Text → Text → Option (Unit {0}) × Acme → Type 0
KeyStored c key (none, s) = Unmoved c s
KeyStored c key (some u, s) = Unmoved c s × (key_of s.disk ≡ some key)

store_file-KeyStored :
    (c : Option Text) (key : Text) (o : Exterior) (s : Acme)
    → Unmoved c s
    → KeyStored c key (store_file private_key key o s)
unfolding store_file Unmoved
store_file-KeyStored c key o s h =
    let w : Written = o.writes s.tick in
    let r : Bool = o.rename_fails s.tick in
    let m : Bool = o.remove_fails s.tick in
    let k = replace_slot-content w r m key s.disk.key_slot in
    elim (Bool-cases (replace_slot w r m key s.disk.key_slot).0) [
      | inl f ↦ rw f ((h.0, (h.0, h.1)), k ∙ (rw f refl))
      | inr f ↦ rw f (h.0, (h.0, h.1))
    ]

store_file-Installed :
    (c : Option Text) (pair : Text × Text) (o : Exterior) (s : Acme)
    → Unmoved c s
    → key_of s.disk ≡ some pair.1
    → Installed c pair (store_file certificate pair.0 o s)
unfolding store_file Unmoved
store_file-Installed c pair o s h g =
    let w : Written = o.writes s.tick in
    let r : Bool = o.rename_fails s.tick in
    let m : Bool = o.remove_fails s.tick in
    let k = replace_slot-content w r m pair.0 s.disk.certificate_slot in
    let before = Unmoved-Paired c pair s.seen h.1 in
    elim (Bool-cases (replace_slot w r m pair.0 s.disk.certificate_slot).0) [
      | inl f ↦ let a = k ∙ (rw f refl) in rw f ((a, g), (inr (a, g), before))
      | inr f ↦ let a = k ∙ (rw f h.0) in rw f (a, (inl a, before))
    ]

followed-Installed :
    (c : Option Text) (pair : Text × Text) (o : Exterior) (r : Option (Unit {0}) × Acme)
    → KeyStored c pair.1 r
    → Installed c pair (followed r (λ _. store_file certificate pair.0) o)
unfolding Unmoved
followed-Installed c pair o (none, s) h = (h.0, Unmoved-Paired c pair s.seen h.1)
followed-Installed c pair o (some u, s) h = store_file-Installed c pair o s h.0 h.1

install_pair-Installed :
    (c : Option Text) (pair : Text × Text) (o : Exterior) (s : Acme)
    → Unmoved c s
    → Installed c pair (install_pair pair.0 pair.1 o s)
unfolding install_pair ◌>>=◌ ◌>>◌
install_pair-Installed c pair o s h =
    followed-Installed c pair o (store_file private_key pair.1 o s)
      (store_file-KeyStored c pair.1 o s h)

-- what a renewal leaves, from what `obtain` answered
abbrev pub Renewed : Option Text → Option (Text × Text) → Option (Unit {0}) × Acme → Type 0
Renewed c none (r, t) = (r ≡ none) × Unmoved c t
Renewed c (some pair) r = Installed c pair r

renewed :
    (c : Option Text) (got : Option (Text × Text) × Acme) (o : Exterior)
    → Unmoved c got.1
    → Renewed c got.0 (followed got (λ pair. install_pair pair.0 pair.1) o)
renewed c (none, s) o h = (refl, h)
renewed c (some pair, s) o h = install_pair-Installed c pair o s h

pub renew-Renewed :
    (c : Option Text) (m : Manager) (o : Exterior) (s : Acme)
    → Unmoved c s
    → Renewed c (obtain m o s).0 (renew m o s)
unfolding renew ◌>>=◌
renew-Renewed c m o s h = renewed c (obtain m o s) o ((obtain-Unmoved c m).at o s h)
