-- ===== src/Acme/Issued.antt =====
-- The certificate that `obtain` of internal/acme/acme.go answers is one that the authority issued.
use mathlib.Core.Path.{subst}
use dokkup.Acme.{Manager, obtain, fulfil, collect, chain_pem}
use dokkup.Acme.Attempt.{
  ◌>>=◌, ◌>>◌, Exterior, Acme, Task, give, ask, followed, instead, or_else, Order,
}
use dokkup.Common.{ℕ, ◌≡◌, refl, Option, none, some, List, Text, ◌⊎◌, inl, inr}

-- whatever an action answers is of a kind
pub record Ensures {A : Type 0} (Q : A → Type 0) (o : Exterior) (m : Task A) : Type 0 where
  pub at : (s : Acme) (a : A) → (m o s).0 ≡ some a → Q a

-- a chain of certificates that the authority gave out
abbrev pub Issued : Exterior → List Text → Type 0
Issued o chain =
    ((n : ℕ) × (url csr : Text) × (o.create_order_cert n url csr ≡ some chain))
    ⊎ ((n : ℕ) × (url : Text) × (o.fetch_cert n url ≡ some chain))

-- the text of such a chain
abbrev pub IssuedText : Exterior → Text × Text → Type 0
IssuedText o pair =
    (chain : List Text) × Issued o chain × (chain_pem o.certificate_pem chain ≡ some pair.0)

module _ {o : Exterior} where
  followed-Ensures :
      {A B : Type 0} (P : A → Type 0) (Q : B → Type 0) (r : Option A × Acme) (f : A → Task B)
      → ((a : A) → r.0 ≡ some a → P a)
      → ((a : A) → P a → Ensures Q o (f a))
      → (b : B) → (followed r f o).0 ≡ some b
      → Q b
  followed-Ensures P Q (none, s) f h k b e = cc
  followed-Ensures P Q (some a, s) f h k b e = (k a (h a refl)).at s b e

  Ensures->>= :
      {A B : Type 0} (P : A → Type 0) (Q : B → Type 0) (m : Task A) (f : A → Task B)
      → Ensures P o m
      → ((a : A) → P a → Ensures Q o (f a))
      → Ensures Q o (m >>= f)
  unfolding ◌>>=◌
  Ensures->>= P Q m f h k = record { at = λ s b e. followed-Ensures P Q (m o s) f (h.at s) k b e }

  -- what an action answers may be of any kind
  Ensures-any : {A : Type 0} (m : Task A) → Ensures (λ _. Unit {0}) o m
  Ensures-any m = record { at = λ s a e. tt }

  -- the last of a sequence decides
  Ensures-last :
      {A B : Type 0} (Q : B → Type 0) (m : Task A) (f : A → Task B)
      → ((a : A) → Ensures Q o (f a))
      → Ensures Q o (m >>= f)
  Ensures-last Q m f k = Ensures->>= (λ _. Unit {0}) Q m f (Ensures-any m) (λ a _. k a)

  Ensures-then :
      {A B : Type 0} (Q : B → Type 0) (m : Task A) (k : Task B)
      → Ensures Q o k
      → Ensures Q o (m >> k)
  unfolding ◌>>◌
  Ensures-then Q m k h = Ensures-last Q m (λ _. k) (λ _. h)

  Ensures-give : {A : Type 0} (Q : A → Type 0) (a : A) → Q a → Ensures Q o (give a)
  unfolding give
  Ensures-give Q a h = record { at = λ s b e. subst Q (cc) h }

  Ensures-ask :
      {A : Type 0} (Q : A → Type 0) (f : Exterior → Acme → Option A)
      → ((s : Acme) (a : A) → f o s ≡ some a → Q a)
      → Ensures Q o (ask f)
  unfolding ask
  Ensures-ask Q f h = record { at = h }

  instead-Ensures :
      {A : Type 0} (Q : A → Type 0) (r : Option A × Acme) (k : Task A)
      → ((a : A) → r.0 ≡ some a → Q a)
      → Ensures Q o k
      → (a : A) → (instead r k o).0 ≡ some a
      → Q a
  instead-Ensures Q (some a, s) k h g b e = h b e
  instead-Ensures Q (none, s) k h g b e = g.at s b e

  Ensures-or_else :
      {A : Type 0} (Q : A → Type 0) (m k : Task A)
      → Ensures Q o m
      → Ensures Q o k
      → Ensures Q o (or_else m k)
  unfolding or_else
  Ensures-or_else Q m k h g = record { at = λ s a e. instead-Ensures Q (m o s) k (h.at s) g a e }

  collect-Issued : (uri : Text) → Ensures (Issued o) o (collect uri)
  unfolding collect
  collect-Issued uri = Ensures-then _ _ _ (
      Ensures-last _ _ _ (λ ready.
        Ensures-then _ _ _ (Ensures-ask _ _ (λ s chain e. inr (s.tick, ready.cert_url, e)))))

  fulfil-Issued :
      (m : Manager) (key : Text) (order : Order) → Ensures (IssuedText o) o (fulfil m key order)
  unfolding fulfil
  fulfil-Issued m key order = Ensures-then _ _ _ (
      Ensures-last _ _ _ (λ ready. Ensures-last _ _ _ (λ cert_key. Ensures-last _ _ _ (λ csr.
        Ensures->>= (Issued o) _ _ _
          (Ensures-or_else _ _ _
            (Ensures-ask _ _ (λ s chain e. inl (s.tick, ready.finalize_url, csr, e)))
            (collect-Issued order.uri))
          (λ chain issued.
            Ensures->>= (λ text. chain_pem o.certificate_pem chain ≡ some text) _ _ _
              (Ensures-ask _ _ (λ s text e. e))
              (λ text printed.
                Ensures-last _ _ _
                  (λ key_text. Ensures-give _ (text, key_text) (chain, issued, printed))))))))

  pub obtain-Issued : (m : Manager) → Ensures (IssuedText o) o (obtain m)
  unfolding obtain
  obtain-Issued m =
      Ensures-last _ _ _
        (λ key. Ensures-then _ _ _ (Ensures-last _ _ _ (λ order. fulfil-Issued m key order)))
