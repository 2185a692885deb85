-- ===== src/Store/Sessions/Book.antt =====
-- internal/store/session.go as what it promises: a book that says, for the hash of a token, whose
-- session it is and until when, and forgets how the table keeps it; and how the rows of a table change
-- what the book says.
use dokkup.Common.{
  ℕ, ◌≡◌, ◌⊎◌, refl, Bool, true, false, not, Option, none, some, List, [], ◌∷◌, map, arith, ltb,
  if◌then◌else◌, drop_where, find, contains, Distinct, ◌==◌, Text, number_key, text_key,
  same_text_iff,
}
use dokkup.Store.History.{
  Call, perform, start_session, revoke_session, revoke_operator_sessions, drop_expired_sessions,
}
use dokkup.Store.Schema.{Session, Db, Result, ok, err, not_found, failed, Engine, live}
use dokkup.Store.Sql.{World, millis, is_after, actions}

-- whose session it is, and the millisecond at which it ends
pub record Grant : Type 0 where
  pub holder : ℕ
  pub until : ℕ

abbrev pub Book : Type 0
Book = Text → Option Grant

abbrev pub granted : Session → Grant
granted s = record { holder = s.operator_id; until = s.expires_at }

abbrev pub entry : Option Session → Option Grant
entry none = none
entry (some s) = some (granted s)

abbrev pub rows : List Session → Book
rows ss hash = entry (find (λ s. s.token_hash == hash) ss)

-- the abstract view of a database
abbrev pub book : Db → Book
book d = rows d.sessions

pub data Action : Type 0 where
  start : ℕ → Text → ℕ → Action
  revoke : Text → Action
  revoke_all : ℕ → Action
  drop_expired : Action

abbrev pub call_of : Action → Call
call_of (start id hash expires_at) = start_session id hash expires_at
call_of (revoke hash) = revoke_session hash
call_of (revoke_all id) = revoke_operator_sessions id
call_of drop_expired = drop_expired_sessions

abbrev pub retained : (Grant → Bool) → Option Grant → Option Grant
retained p none = none
retained p (some g) = if p g then some g else none

-- when the book allows an action
abbrev pub Allowed : Action → ℕ → Book → Type 0
Allowed (start id hash expires_at) at b =
    (b hash ≡ none) × (is_after expires_at at ≡ true) × (¬ (hash ≡ []))
Allowed (revoke hash) at b = Unit
Allowed (revoke_all id) at b = Unit
Allowed drop_expired at b = Unit

-- what an action does to the book at a time
abbrev pub applied : Action → ℕ → Book → Book
applied (start id hash expires_at) at b h =
    if hash == h then some (record { holder = id; until = millis expires_at }) else b h
applied (revoke hash) at b h = if hash == h then none else b h
applied (revoke_all id) at b h = retained (λ g. not (g.holder == id)) (b h)
applied drop_expired at b h = retained (λ g. ltb at g.until) (b h)

-- two books that say the same of every hash
abbrev pub Same : Book → Book → Type 0
Same b c = (h : Text) → b h ≡ c h

abbrev pub Effect : Action → ℕ → Book → Book → Type 0
Effect a at b c = Allowed a at b × Same c (applied a at b)

-- An action that is answered without an error has had its effect; one that is answered with an error
-- has done nothing, unless it is the answer that failed.
abbrev pub Step : Action → ℕ → Result (Unit {0}) → Book → Book → Type 0
Step a at (ok tt) b c = Effect a at b c
Step a at (err x) b c = Same c b ⊎ ((x ≡ failed) × Effect a at b c)

-- the actions with the times of their calls and their answers
abbrev pub trace : List Action → Engine → World → List (Action × ℕ × Result (Unit {0}))
trace [] e w = []
trace (a ∷ actions) e w =
    let (r, v) = perform (call_of a) e w in (a, millis (e.clock w.tick), r) ∷ trace actions e v

-- where the steps of a trace lead from a book
abbrev pub Reaches : List (Action × ℕ × Result (Unit {0})) → Book → Book → Type 0
Reaches [] b c = Same b c
Reaches ((a, at, r) ∷ steps) b c = (m : Book) × Step a at r b m × Reaches steps m c

-- what a reader of the book is told at a time
abbrev pub told : Option Grant → Result Grant
told none = err not_found
told (some g) = ok g

abbrev pub grant_of : Result Session → Result Grant
grant_of (ok s) = ok (granted s)
grant_of (err x) = err x

absent :
    (h : Text) (ss : List Session)
    → contains h (map (λ s. s.token_hash) ss) ≡ false
    → find (λ s. s.token_hash == h) ss ≡ none
absent h [] k = refl
absent h (s ∷ ss) k =
    ground (arith, same_text_iff h s.token_hash, same_text_iff s.token_hash h, absent h ss)

pub rows-drop_where :
    (p : Session → Bool) (q : Grant → Bool)
    → ((s : Session) → q (granted s) ≡ not (p s))
    → (ss : List Session) → Distinct (map (λ s. s.token_hash) ss)
    → (h : Text) → rows (drop_where p ss) h ≡ retained q (rows ss h)
rows-drop_where p q k [] d h = refl
rows-drop_where p q k (s ∷ ss) d h = ground (
  arith,
  k s,
  same_text_iff s.token_hash h,
  absent s.token_hash ss d.0,
  rows-drop_where p q k ss d.1 h,
)

pub rows-revoked :
    (hash : Text) (ss : List Session) (h : Text)
    → rows (drop_where (λ s. s.token_hash == hash) ss) h ≡ (if hash == h then none else rows ss h)
rows-revoked hash [] h = ground arith
rows-revoked hash (s ∷ ss) h = ground (
  arith,
  same_text_iff s.token_hash hash,
  same_text_iff s.token_hash h,
  same_text_iff hash h,
  rows-revoked hash ss h,
)

pub free :
    (hash : Text) (ss : List Session)
    → contains hash (map (λ s. s.token_hash) ss) ≡ false
    → rows ss hash ≡ none
free hash ss m = rw (absent hash ss m) refl

pub rows-live :
    (at : ℕ) (hash : Text) (ss : List Session)
    → Distinct (map (λ s. s.token_hash) ss)
    → entry (find (live hash at) ss) ≡ retained (λ g. ltb at g.until) (rows ss hash)
rows-live at hash [] d = refl
rows-live at hash (s ∷ ss) d =
    ground
      (arith, same_text_iff s.token_hash hash, absent s.token_hash ss d.0, rows-live at hash ss d.1)
