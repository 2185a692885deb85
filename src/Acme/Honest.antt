-- ===== src/Acme/Honest.antt =====
-- A certificate authority that keeps its word, and how a Manager of internal/acme/acme.go fares with it.
use mathlib.Core.Path.{subst}
use dokkup.Acme.{
  challenge_path, Manager, http01, accepted_as_account, present, handler, checked, presented,
  answer_challenge, satisfy, satisfy_all, joined_pem, collect, chain_pem, own_key, obtain, fulfil,
}
use dokkup.Acme.Attempt.{
  ◌>>=◌, ◌>>◌, Exterior, Acme, Task, give, followed, ask, succeed, instead, or_else, AcmeChallenge,
  Authorization, Order, advanced, deferring, modify,
}
use dokkup.Acme.Disk.{whole}
use dokkup.Common.{
  ◌≡◌, refl, Bool, true, Option, none, some, ℕ, false, List, [], ◌++◌, ◌==◌, Text, number_key,
  text_key, ◌+◌, inl, inr, ◌∷◌, Bool-cases, same_text_iff,
}
use dokkup.Server.SignIn.{known}

-- an action that answers a value
pub record Works {A : Type 0} (o : Exterior) (m : Task A) : Type 0 where
  pub at : (s : Acme) → (a : A) × ((m o s).0 ≡ some a)

-- an action that answers a value of a kind
pub record Yields {A : Type 0} (Q : A → Type 0) (o : Exterior) (m : Task A) : Type 0 where
  pub at : (s : Acme) → (a : A) × ((m o s).0 ≡ some a) × Q a

module _ {o : Exterior} where
  pub followed-Works :
      {A B : Type 0} (r : Option A × Acme) (f : A → Task B)
      → (a : A) × (r.0 ≡ some a)
      → ((a : A) → Works o (f a))
      → (b : B) × ((followed r f o).0 ≡ some b)
  followed-Works (none, s) f h k = cc
  followed-Works (some a, s) f h k = (k a).at s

  Works-give : {A : Type 0} (a : A) → Works o (give a)
  unfolding give
  Works-give a = record { at = λ s. (a, refl) }

  Works->>= :
      {A B : Type 0} (m : Task A) (f : A → Task B)
      → Works o m
      → ((a : A) → Works o (f a))
      → Works o (m >>= f)
  unfolding ◌>>=◌
  Works->>= m f k ks = record { at = λ s. followed-Works (m o s) f (k.at s) ks }

  followed-Yields :
      {A B : Type 0} (Q : A → Type 0) (r : Option A × Acme) (f : A → Task B)
      → (a : A) × (r.0 ≡ some a) × Q a
      → ((a : A) → Q a → Works o (f a))
      → (b : B) × ((followed r f o).0 ≡ some b)
  followed-Yields Q (none, s) f h k = cc
  followed-Yields Q (some a, s) f (a', h, q) k = (k a (subst Q (cc) q)).at s

  Yields->>= :
      {A B : Type 0} (Q : A → Type 0) (m : Task A) (f : A → Task B)
      → Yields Q o m
      → ((a : A) → Q a → Works o (f a))
      → Works o (m >>= f)
  unfolding ◌>>=◌
  Yields->>= Q m f k ks = record { at = λ s. followed-Yields Q (m o s) f (k.at s) ks }

  pub Works->> : {A B : Type 0} (m : Task A) (k : Task B) → Works o m → Works o k → Works o (m >> k)
  unfolding ◌>>◌
  Works->> m k h g = Works->>= m (λ _. k) h (λ _. g)

  Works-ask :
      {A : Type 0} (f : Exterior → Acme → Option A)
      → ((s : Acme) → (a : A) × (f o s ≡ some a))
      → Works o (ask f)
  unfolding ask
  Works-ask f k = record { at = k }

  pub Works-succeed :
      (f : Exterior → Acme → Bool) → ((s : Acme) → f o s ≡ true) → Works o (succeed f)
  unfolding succeed
  Works-succeed f k = record { at = λ s. (tt, rw (k s) refl) }

  instead-Works :
      {A : Type 0} (r : Option A × Acme) (k : Task A)
      → Works o k
      → (a : A) × ((instead r k o).0 ≡ some a)
  instead-Works (some a, s) k w = (a, refl)
  instead-Works (none, s) k w = w.at s

  Works-or_else : {A : Type 0} (m k : Task A) → Works o k → Works o (or_else m k)
  unfolding or_else
  Works-or_else m k w = record { at = λ s. instead-Works (m o s) k w }

-- What the authority, the keys and the disk do when nothing is wrong. A check of a challenge asks the
-- program for the answer at the path of its token; finalizing an order may fail, as long as the order
-- says where the certificate is.
pub record IsHonest (m : Manager) (o : Exterior) : Type 0 where
  pub writes : (n : ℕ) → o.writes n ≡ whole
  pub renames : (n : ℕ) → o.rename_fails n ≡ false
  pub reads : (n : ℕ) → o.read_fails n ≡ false
  pub keys : (n : ℕ) → (key : Text) × (o.new_key n ≡ some key)
  pub encodes : (key : Text) → (pem : Text) × (o.key_pem key ≡ some pem)
  pub registers : (n : ℕ) (key : Text) → accepted_as_account (o.register n key) ≡ true
  pub order : Order
  pub ordered : (n : ℕ) → o.authorize_order n m.domain ≡ some order
  pub waits :
      (n : ℕ) (url : Text)
      → (ready : Order) × (o.wait_order n url ≡ some ready) × ((ready.cert_url == []) ≡ false)
  pub located : (order.uri == []) ≡ false
  pub wants : Text → Authorization
  pub wanted : (n : ℕ) (url : Text) → o.get_authorization n url ≡ some (wants url)
  pub offers : (url : Text) → (c : AcmeChallenge) × (http01 (wants url).challenges ≡ some c)
  pub response : Text → Text → Text
  pub responds : (key token : Text) → o.challenge_response key token ≡ some (response key token)
  pub accepts : (n : ℕ) (c : AcmeChallenge) → o.accept n c ≡ true
  pub checks :
      (n : ℕ) (key url : Text) (served : Text → Option Text) (c : AcmeChallenge)
      → http01 (wants url).challenges ≡ some c
      → served (challenge_path ++ c.token) ≡ some (response key c.token)
      → o.wait_authorization n url served ≡ true
  pub requests :
      (n : ℕ) (key : Text) → (csr : Text) × (o.certificate_request n m.domain key ≡ some csr)
  pub issues : (n : ℕ) (url csr : Text) → ¬ (o.create_order_cert n url csr ≡ some [])
  pub fetches :
      (n : ℕ) (url : Text)
      → (der : Text) × (chain : List Text) × (o.fetch_cert n url ≡ some (der ∷ chain))
  pub prints : (der : Text) → (pem : Text) × (o.certificate_pem der ≡ some pem)

handler-present :
    (token response : Text) (tokens : List (Text × Text))
    → handler (present token response tokens) (challenge_path ++ token) ≡ some response
unfolding handler
handler-present token response tokens = rw ((same_text_iff token token).1 refl) refl

joined_pem_prints :
    (pem : Text → Option Text)
    → ((der : Text) → (p : Text) × (pem der ≡ some p))
    → (chain : List Text) → (p : Text) × (joined_pem pem chain ≡ some p)
joined_pem_prints pem k [] = ([], refl)
joined_pem_prints pem k (der ∷ chain) =
    let (p, h) = k der in let (r, g) = joined_pem_prints pem k chain in (p ++ r, rw (h, g) refl)

module _ {m : Manager} {o : Exterior} (h : IsHonest m o) where
  presented-Works :
      (key url : Text) (c : AcmeChallenge)
      → http01 (h.wants url).challenges ≡ some c
      → Works o (presented url c (h.response key c.token))
  unfolding presented checked modify deferring succeed ◌>>=◌ ◌>>◌
  presented-Works key url c k = record {
    at = λ s.
        let answer = h.response key c.token in
        let served = present c.token answer s.tokens in
        (
          tt,
          rw
              (
                h.accepts s.tick c,
                h.checks (s.tick + 1) key url (handler served) c k
                    (handler-present c.token answer s.tokens),
              )
              refl,
        );
  }

  answer_challenge-Works :
      (key url : Text) → Works o (answer_challenge key url (http01 (h.wants url).challenges))
  unfolding answer_challenge ask ◌>>=◌
  answer_challenge-Works key url = record {
    at = λ s.
        let (c, k) = h.offers url in
        rw (k, h.responds key c.token) ((presented-Works key url c k).at (advanced s));
  }

  satisfy-Works : (key url : Text) → Works o (satisfy key url)
  unfolding satisfy ask ◌>>=◌ give
  satisfy-Works key url = record {
    at = λ s. elim (Bool-cases (h.wants url).is_valid) [
      | inl g ↦ (tt, rw (h.wanted s.tick url, g) refl)
      | inr g ↦ rw (h.wanted s.tick url, g) ((answer_challenge-Works key url).at (advanced s))
    ];
  }

  satisfy_all-Works : (key : Text) (urls : List Text) → Works o (satisfy_all key urls)
  unfolding satisfy_all
  satisfy_all-Works key [] = Works-give tt
  satisfy_all-Works key (url ∷ urls) =
      Works->> _ _ (satisfy-Works key url) (satisfy_all-Works key urls)

  collect-Yields : Yields (λ chain. ¬ (chain ≡ [])) o (collect h.order.uri)
  unfolding collect ask give ◌>>=◌ ◌>>◌
  collect-Yields = record {
    at = λ s.
        let (ready, w, l) = h.waits s.tick h.order.uri in
        let (der, chain, k) = h.fetches (s.tick + 1) ready.cert_url in
        (der ∷ chain, rw (h.located, w, l, k) refl, λ z. cc);
  }

  chain_pem-Works :
      (chain : List Text)
      → ¬ (chain ≡ [])
      → Works o (ask (λ o s. chain_pem o.certificate_pem chain))
  chain_pem-Works [] k = absurd (k refl)
  chain_pem-Works (der ∷ chain) k =
      Works-ask _ (λ s. joined_pem_prints o.certificate_pem h.prints (der ∷ chain))

  chain-Yields :
      (url csr : Text)
      → Yields
          (λ chain. ¬ (chain ≡ []))
          o
          (or_else (ask (λ o s. o.create_order_cert s.tick url csr)) (collect h.order.uri))
  unfolding or_else ask
  chain-Yields url csr = record {
    at = λ s. made s (o.create_order_cert s.tick url csr) (h.issues s.tick url csr);
  }
    where
      made :
          (s : Acme) (r : Option (List Text))
          → ¬ (r ≡ some [])
          → (chain : List Text) × ((instead (r, advanced s) (collect h.order.uri) o).0 ≡ some chain)
            × (¬ (chain ≡ []))
      made s none k = collect-Yields.at (advanced s)
      made s (some chain) k = (chain, refl, λ z. k (rw z refl))

  fulfil-Works : (key : Text) → Works o (fulfil m key h.order)
  unfolding fulfil
  fulfil-Works key = Works->> _ _ (satisfy_all-Works key h.order.authz_urls) (
      Works->>= _ _ (Works-ask _ (λ s. let (r, k, l) = h.waits s.tick h.order.uri in (r, k)))
        (λ ready. Works->>= _ _ (Works-ask _ (λ s. h.keys s.tick)) (λ cert_key.
          Works->>= _ _ (Works-ask _ (λ s. h.requests s.tick cert_key)) (λ csr.
            Yields->>= _ _ _ (chain-Yields ready.finalize_url csr) (λ chain k.
              Works->>= _ _ (chain_pem-Works chain k) (λ cert_text.
                Works->>= _ _ (Works-ask _ (λ s. h.encodes cert_key))
                  (λ key_text. Works-give (cert_text, key_text))))))))

  -- all of `obtain` but the key of the account
  registered-Works :
      (key : Text)
      → Works o (
          succeed (λ o s. accepted_as_account (o.register s.tick key))
          >> (ask (λ o s. o.authorize_order s.tick m.domain) >>= fulfil m key))
  unfolding ask ◌>>=◌
  registered-Works key =
      Works->> _ _ (Works-succeed _ (λ s. h.registers s.tick key))
        (record { at = λ s. rw (h.ordered s.tick) ((fulfil-Works key).at (advanced s)) })

  pub obtain-Works :
      (s : Acme)
      → (key : Text) × ((own_key o s).0 ≡ some key)
      → (pair : Text × Text) × ((obtain m o s).0 ≡ some pair)
  unfolding obtain ◌>>=◌
  obtain-Works s known = followed-Works (own_key o s) _ known registered-Works
