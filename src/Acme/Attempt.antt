-- ===== src/Acme/Attempt.antt =====
-- internal/acme/acme.go: what a Manager meets, and how its methods call it. A method that returns an
-- error answers none; the text of the error, which is only logged, is left out.
use dokkup.Acme.Disk.{File, Written, Slot, Disk, slot, put_slot, replace_slot}
use dokkup.Common.{ℕ, ◌+◌, Bool, true, false, Option, none, some, List, ◌∷◌, if◌then◌else◌, Text}

pub record AcmeChallenge : Type 0 where
  pub kind : Text
  pub token : Text

pub record Authorization : Type 0 where
  pub is_valid : Bool
  pub challenges : List AcmeChallenge

pub record Order : Type 0 where
  pub uri : Text
  pub authz_urls : List Text
  pub finalize_url : Text
  pub cert_url : Text

pub data Registration : Type 0 where
  registered account_exists unregistered : Registration

-- what x509 reads out of a certificate
pub record Leaf : Type 0 where
  pub self_signed : Bool
  pub covers : Text → Bool
  pub not_after : ℕ

-- The files, the clock, the keys, the certificate authority behind its client, and nginx. What is
-- asked is numbered by how much was asked before; `wait_authorization` is given what the program
-- answers at each path while it waits.
pub record Exterior : Type 0 where
  pub writes : ℕ → Written
  pub rename_fails : ℕ → Bool
  pub remove_fails : ℕ → Bool
  pub read_fails : ℕ → Bool
  pub clock : ℕ → ℕ
  pub new_key : ℕ → Option Text
  pub key_pem : Text → Option Text
  pub parse_key : Text → Option Text
  pub certificate_pem : Text → Option Text
  pub leaf_of : Text → Option Leaf
  pub register : ℕ → Text → Registration
  pub authorize_order : ℕ → Text → Option Order
  pub get_authorization : ℕ → Text → Option Authorization
  pub challenge_response : Text → Text → Option Text
  pub accept : ℕ → AcmeChallenge → Bool
  pub wait_authorization : ℕ → Text → (Text → Option Text) → Bool
  pub wait_order : ℕ → Text → Option Order
  pub certificate_request : ℕ → Text → Text → Option Text
  pub create_order_cert : ℕ → Text → Text → Option (List Text)
  pub fetch_cert : ℕ → Text → Option (List Text)
  pub reload : ℕ → Bool

-- the files, the tokens that the handler answers for, and how much was asked
pub record Acme : Type 0 where
  pub disk : Disk
  pub tokens : List (Text × Text)
  pub tick : ℕ
  -- the disk after each change, the latest first: what a reload in between may read
  pub seen : List Disk

abbrev pub Task : Type 0 → Type 0
Task A = Exterior → Acme → Option A × Acme

abbrev pub advanced : Acme → Acme
advanced s = record s { tick = s.tick + 1 }

unfoldable pub give : {A : Type 0} → A → Task A
give a o s = (some a, s)

-- what follows an action that has been run
abbrev pub followed : {A B : Type 0} → Option A × Acme → (A → Task B) → Exterior → Option B × Acme
followed (some a, s) f o = f a o s
followed (none, s) f o = (none, s)

infixl 5 ◌>>=◌ ◌>>◌
unfoldable pub ◌>>=◌ : {A B : Type 0} → Task A → (A → Task B) → Task B
◌>>=◌ m f o s = followed (m o s) f o

unfoldable pub ◌>>◌ : {A B : Type 0} → Task A → Task B → Task B
unfolding ◌>>=◌
m >> k = m >>= λ _. k

-- a call that answers a value or an error
unfoldable pub ask : {A : Type 0} → (Exterior → Acme → Option A) → Task A
ask f o s = (f o s, advanced s)

-- a call that answers an error or nothing
unfoldable pub succeed : (Exterior → Acme → Bool) → Task (Unit {0})
succeed f o s = (if f o s then some tt else none, advanced s)

unfoldable pub fail : {A : Type 0} → Task A
fail o s = (none, s)

-- `defer`: what is done after an action, whether it fails or not
unfoldable pub deferring : {A : Type 0} → (Acme → Acme) → Task A → Task A
deferring f m o s = let (r, t) = m o s in (r, f t)

-- another action in place of one that failed
abbrev pub instead : {A : Type 0} → Option A × Acme → Task A → Exterior → Option A × Acme
instead (some a, s) k o = (some a, s)
instead (none, s) k o = k o s

unfoldable pub or_else : {A : Type 0} → Task A → Task A → Task A
or_else m k o s = instead (m o s) k o

unfoldable pub modify : (Acme → Acme) → Task (Unit {0})
modify f o s = (some tt, f s)

abbrev pub saved : File → Bool × Slot → Acme → Option (Unit {0}) × Acme
saved file (done, t) s =
    let d = put_slot file t s.disk in
    (if done then some tt else none, record (advanced s) { disk = d; seen = d ∷ s.seen })

-- writeFile
unfoldable pub store_file : File → Text → Task (Unit {0})
store_file file text o s =
    saved file
      (replace_slot (o.writes s.tick) (o.rename_fails s.tick) (o.remove_fails s.tick) text
        (slot file s.disk))
      s

-- os.ReadFile: what is there, nothing, or an error
pub data Read : Type 0 where
  found : Text → Read
  missing unreadable : Read

abbrev pub reading : Bool → Option Text → Read
reading true c = unreadable
reading false none = missing
reading false (some text) = found text

abbrev pub read_file : File → Exterior → Acme → Read
read_file file o s = reading (o.read_fails s.tick) (slot file s.disk).content

-- To compute with actions, a proof unfolds this one name.
unfoldable pub attempting : Unit {0}
unfolding give ◌>>=◌ ◌>>◌ ask succeed fail deferring or_else modify store_file
attempting = tt
