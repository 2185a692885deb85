-- ===== src/Acme/Tokens.antt =====
-- No token of internal/acme/acme.go outlives the attempt that it was made for.
use dokkup.Acme.{
  forget_token, present, create_account_key, stored_key, own_key, Manager, handler, checked,
  presented, install_pair, renew, rounds,
}
use dokkup.Acme.Attempt.{
  ◌>>=◌, ◌>>◌, AcmeChallenge, Exterior, Acme, succeed, store_file, Read, found, missing, unreadable,
  deferring, modify,
}
use dokkup.Acme.Disk.{File}
use dokkup.Acme.Preserved.{
  Preserved, Timeless, Preserved-fail, Preserved->>=, Preserved-ask, preserved, obtain-Preserved,
  rounds-Preserved,
}
use dokkup.Common.{
  ◌≡◌, refl, inl, inr, none, [], Bool-cases, Text, same_text_iff, ℕ, number_key, text_key,
}

-- the handler answers for nothing
pub Silent : Acme → Type 0
Silent s = s.tokens ≡ []

Silent-Timeless : Timeless Silent
unfolding Silent
Silent-Timeless s h = h

store_file-Silent : (file : File) (text : Text) → Preserved Silent (store_file file text)
unfolding store_file Silent
store_file-Silent file text = record { at = λ o s h. h }

create_account_key-Silent : Preserved Silent create_account_key
unfolding create_account_key
create_account_key-Silent = search (preserved, Silent-Timeless, store_file-Silent)

stored_key-Silent : (r : Read) → Preserved Silent (stored_key r)
unfolding stored_key
stored_key-Silent (found pem) = Preserved-ask Silent-Timeless _
stored_key-Silent missing = create_account_key-Silent
stored_key-Silent unreadable = Preserved-fail

own_key-Silent : Preserved Silent own_key
unfolding own_key
own_key-Silent = Preserved->>= _ _ (Preserved-ask Silent-Timeless _) stored_key-Silent

-- while the answer stands, no token changes
checked-tokens :
    (url : Text) (c : AcmeChallenge) (o : Exterior) (s : Acme)
    → (checked url c o s).1.tokens ≡ s.tokens
unfolding checked succeed ◌>>=◌ ◌>>◌
checked-tokens url c o s = elim (Bool-cases (o.accept s.tick c)) [
  | inl h ↦ rw h refl
  | inr h ↦ rw h refl
]

forget_token-present : (token response : Text) → forget_token token (present token response []) ≡ []
forget_token-present token response = rw ((same_text_iff token token).1 refl) refl

presented-Silent :
    (url : Text) (c : AcmeChallenge) (response : Text) → Preserved Silent (presented url c response)
unfolding presented modify deferring ◌>>=◌ ◌>>◌ Silent
presented-Silent url c response = record {
  at = λ o s h.
      rw (checked-tokens url c o (record s { tokens = present c.token response s.tokens }), h)
        (forget_token-present c.token response);
}

renew-Silent : (m : Manager) → Preserved Silent (renew m)
unfolding renew install_pair
renew-Silent m =
    search (
      preserved,
      obtain-Preserved Silent-Timeless own_key-Silent presented-Silent,
      store_file-Silent,
    )

handler-silent : (path : Text) → handler [] path ≡ none
unfolding handler
handler-silent path = refl

-- However the authority, the disk and the clock behave, a program that starts with no challenge to
-- answer, as it does, answers at no path after any number of rounds of the loop, failed or not.
pub rounds_silent :
    (n : ℕ) (m : Manager) (o : Exterior) (s : Acme) (path : Text)
    → s.tokens ≡ []
    → handler (rounds n m o s).tokens path ≡ none
unfolding Silent
rounds_silent n m o s path h =
    rw (rounds-Preserved Silent-Timeless renew-Silent n m o s h) (handler-silent path)
