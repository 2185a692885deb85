-- ===== src/Acme/AccountKey.antt =====
-- The account of internal/acme/acme.go stays the same: its key is made once.
use dokkup.Acme.{stored_key, own_key, Manager, install_pair, renew, rounds}
use dokkup.Acme.Attempt.{◌>>=◌, Acme, ask, fail, store_file, Exterior}
use dokkup.Acme.Disk.{File, account_key, certificate, private_key}
use dokkup.Acme.Preserved.{
  Preserved, Timeless, preserved, Tokenless, presented-Preserved, obtain-Preserved,
  rounds-Preserved,
}
use dokkup.Common.{◌≡◌, refl, inl, inr, some, Bool-cases, Text, ℕ}

-- the text of the account key on the disk
pub Registered : Text → Acme → Type 0
Registered pem s = s.disk.account_slot.content ≡ some pem

module _ (pem : Text) where
  Registered-Timeless : Timeless (Registered pem)
  unfolding Registered
  Registered-Timeless s h = h

  store_file-Registered :
      (file : File) (text : Text)
      → ¬ (file ≡ account_key)
      → Preserved (Registered pem) (store_file file text)
  unfolding store_file Registered
  store_file-Registered account_key text h = absurd (h refl)
  store_file-Registered certificate text h = record { at = λ o s k. k }
  store_file-Registered private_key text h = record { at = λ o s k. k }

  own_key-Registered : Preserved (Registered pem) own_key
  unfolding own_key stored_key ask fail ◌>>=◌ Registered
  own_key-Registered = record {
    at = λ o s h. elim (Bool-cases (o.read_fails s.tick)) [
      | inl f ↦ rw (f, h) refl
      | inr f ↦ rw (f, h) refl
    ];
  }

  Registered-Tokenless : Tokenless (Registered pem)
  unfolding Registered
  Registered-Tokenless s tokens h = h

  renew-Registered : (m : Manager) → Preserved (Registered pem) (renew m)
  unfolding renew install_pair
  renew-Registered m = search (
    preserved,
    obtain-Preserved Registered-Timeless own_key-Registered
        (presented-Preserved Registered-Timeless Registered-Tokenless),
    store_file-Registered certificate _ (λ h. cc),
    store_file-Registered private_key _ (λ h. cc),
  )

-- The account key that is on the disk stays there as it is, in any number of rounds, whatever the
-- authority, the disk and the clock do: no renewal and no error registers another account over it.
pub account_key_kept :
    (n : ℕ) (m : Manager) (o : Exterior) (s : Acme) (pem : Text)
    → s.disk.account_slot.content ≡ some pem
    → (rounds n m o s).disk.account_slot.content ≡ some pem
unfolding Registered
account_key_kept n m o s pem h =
    rounds-Preserved (Registered-Timeless pem) (renew-Registered pem) n m o s h
