-- ===== src/Acme/Preserved.antt =====
-- Invariants of a Manager of internal/acme/acme.go under its calls: a rule for each thing that a
-- method is made of.
use dokkup.Acme.{
  Manager, satisfy, satisfy_all, own_key, collect, obtain, answer_challenge, present, checked,
  presented, needs_certificate, reloaded, renew, ensure, rounds, fulfil,
}
use dokkup.Acme.Attempt.{
  AcmeChallenge, Exterior, Acme, Task, advanced, give, ask, succeed, fail, instead, or_else, ◌>>=◌,
  ◌>>◌, followed, deferring, modify, Order,
}
use dokkup.Common.{
  Bool, true, false, Option, none, some, List, [], ◌∷◌, if◌then◌else◌, Text, ℕ, zero, suc, inl, inr,
  Bool-cases, ◌==◌, number_key, text_key,
}

-- However the outside behaves, and whether the action succeeds or fails, `P` holds after it.
pub record Preserved {A : Type 0} (P : Acme → Type 0) (m : Task A) : Type 0 where
  pub at : (o : Exterior) (s : Acme) → P s → P (m o s).1

-- an invariant that does not look at how much was asked
abbrev pub Timeless : (Acme → Type 0) → Type 0
Timeless P = (s : Acme) → P s → P (advanced s)

module _ {P : Acme → Type 0} where
  resumed :
      {A B : Type 0} (r : Option A × Acme) (f : A → Task B) (o : Exterior)
      → ((a : A) (s : Acme) → P s → P (f a o s).1)
      → P r.1
      → P (followed r f o).1
  resumed (some a, s) f o k h = k a s h
  resumed (none, s) f o k h = h

  replaced :
      {A : Type 0} (r : Option A × Acme) (k : Task A) (o : Exterior)
      → ((s : Acme) → P s → P (k o s).1)
      → P r.1
      → P (instead r k o).1
  replaced (some a, s) k o g h = h
  replaced (none, s) k o g h = g s h

  pub Preserved-give : {A : Type 0} (a : A) → Preserved P (give a)
  unfolding give
  Preserved-give a = record { at = λ o s h. h }

  pub Preserved-fail : {A : Type 0} → Preserved P (fail {A = A})
  unfolding fail
  Preserved-fail = record { at = λ o s h. h }

  pub Preserved->>= :
      {A B : Type 0} (m : Task A) (f : A → Task B)
      → Preserved P m
      → ((a : A) → Preserved P (f a))
      → Preserved P (m >>= f)
  unfolding ◌>>=◌
  Preserved->>= m f k ks = record {
    at = λ o s h. resumed (m o s) f o (λ a t g. (ks a).at o t g) (k.at o s h);
  }

  pub Preserved->> :
      {A B : Type 0} (m : Task A) (k : Task B)
      → Preserved P m
      → Preserved P k
      → Preserved P (m >> k)
  unfolding ◌>>◌
  Preserved->> m k h g = Preserved->>= m (λ _. k) h (λ _. g)

  pub Preserved-or_else :
      {A : Type 0} (m k : Task A) → Preserved P m → Preserved P k → Preserved P (or_else m k)
  unfolding or_else
  Preserved-or_else m k h g = record {
    at = λ o s p. replaced (m o s) k o (λ t q. g.at o t q) (h.at o s p);
  }

  pub Preserved-if :
      {A : Type 0} (b : Bool) (m k : Task A)
      → Preserved P m
      → Preserved P k
      → Preserved P (if b then m else k)
  Preserved-if true m k h g = h
  Preserved-if false m k h g = g

  module _ (timeless : Timeless P) where
    pub Preserved-ask : {A : Type 0} (f : Exterior → Acme → Option A) → Preserved P (ask f)
    unfolding ask
    Preserved-ask f = record { at = λ o s h. timeless s h }

    pub Preserved-succeed : (f : Exterior → Acme → Bool) → Preserved P (succeed f)
    unfolding succeed
    Preserved-succeed f = record { at = λ o s h. timeless s h }

pub ruleset preserved = (
  Preserved-give, Preserved-fail, Preserved->>=, Preserved->>, Preserved-or_else, Preserved-if,
  Preserved-ask, Preserved-succeed,
)

-- an invariant that does not look at the tokens
abbrev pub Tokenless : (Acme → Type 0) → Type 0
Tokenless P = (s : Acme) (tokens : List (Text × Text)) → P s → P (record s { tokens = tokens })

module _ {P : Acme → Type 0} (timeless : Timeless P) (tokenless : Tokenless P) where
  checked-Preserved : (url : Text) (c : AcmeChallenge) → Preserved P (checked url c)
  unfolding checked
  checked-Preserved url c = search (preserved, timeless)

  pub presented-Preserved :
      (url : Text) (c : AcmeChallenge) (response : Text) → Preserved P (presented url c response)
  unfolding presented modify deferring ◌>>=◌ ◌>>◌
  presented-Preserved url c response = record {
    at = λ o s h.
        let t : Acme = record s { tokens = present c.token response s.tokens } in
        tokenless (checked url c o t).1 _ ((checked-Preserved url c).at o t (tokenless s _ h));
  }

-- The methods, from what an invariant asks of those that change something.
module _ {P : Acme → Type 0} (timeless : Timeless P) (keyed : Preserved P own_key)
    (presenting : (url : Text) (c : AcmeChallenge) (response : Text)
      → Preserved P (presented url c response)) where
  answer_challenge-Preserved :
      (key url : Text) (c : Option AcmeChallenge) → Preserved P (answer_challenge key url c)
  unfolding answer_challenge
  answer_challenge-Preserved key url none = Preserved-fail
  answer_challenge-Preserved key url (some c) =
      Preserved->>= _ _ (Preserved-ask timeless _) (presenting url c)

  satisfy-Preserved : (key url : Text) → Preserved P (satisfy key url)
  unfolding satisfy
  satisfy-Preserved key url = search (preserved, timeless, answer_challenge-Preserved)

  satisfy_all-Preserved : (key : Text) (urls : List Text) → Preserved P (satisfy_all key urls)
  unfolding satisfy_all
  satisfy_all-Preserved key [] = Preserved-give tt
  satisfy_all-Preserved key (url ∷ urls) =
      Preserved->> _ _ (satisfy-Preserved key url) (satisfy_all-Preserved key urls)

  collect-Preserved : (url : Text) → Preserved P (collect url)
  unfolding collect
  collect-Preserved url = search (preserved, timeless)

  fulfil-Preserved : (m : Manager) (key : Text) (order : Order) → Preserved P (fulfil m key order)
  unfolding fulfil
  fulfil-Preserved m key order = Preserved->> _ _ (satisfy_all-Preserved key order.authz_urls) (
      Preserved->>= _ _ (Preserved-ask timeless _) (λ ready.
        Preserved->>= _ _ (Preserved-ask timeless _) (λ cert_key.
          Preserved->>= _ _ (Preserved-ask timeless _) (λ csr.
            Preserved->>= _ _
              (Preserved-or_else _ _ (Preserved-ask timeless _) (collect-Preserved order.uri))
              (λ chain. search (preserved, timeless))))))

  pub obtain-Preserved : (m : Manager) → Preserved P (obtain m)
  unfolding obtain
  obtain-Preserved m =
      Preserved->>= _ _ keyed (λ key. search (preserved, timeless, fulfil-Preserved))

-- The rounds, from what a renewal keeps.
module _ {P : Acme → Type 0} (timeless : Timeless P)
    (renewing : (m : Manager) → Preserved P (renew m)) where
  reloaded-Preserved :
      (m : Manager) (o : Exterior) (r : Option (Unit {0}) × Acme) → P r.1 → P (reloaded m o r).1
  reloaded-Preserved m o (none, s) h = h
  reloaded-Preserved m o (some u, s) h = elim (Bool-cases m.reloads) [
    | inl f ↦ rw f (timeless s h)
    | inr f ↦ rw f h
  ]

  ensure-Preserved : (m : Manager) (o : Exterior) (s : Acme) → P s → P (ensure m o s).1
  unfolding ensure
  ensure-Preserved m o s h = elim (Bool-cases (m.domain == [])) [
    | inl f ↦ rw f h
    | inr f ↦ elim (Bool-cases (needs_certificate m o s)) [
      | inl g ↦
          rw (f, g)
            (reloaded-Preserved m o (renew m o (advanced s))
              ((renewing m).at o (advanced s) (timeless s h)))
      | inr g ↦ rw (f, g) (timeless s h)
    ]
  ]

  pub rounds-Preserved : (n : ℕ) (m : Manager) (o : Exterior) (s : Acme) → P s → P (rounds n m o s)
  unfolding rounds
  rounds-Preserved zero m o s h = h
  rounds-Preserved (suc n) m o s h =
      rounds-Preserved n m o (ensure m o s).1 (ensure-Preserved m o s h)
