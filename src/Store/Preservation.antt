-- ===== src/Store/Preservation.antt =====
-- Invariants of the database under an action: one rule for each thing that an action is made of.
use dokkup.Common.{ℕ, Bool, true, false, if◌then◌else◌, ◌≡◌, refl}
use dokkup.Store.Schema.{Db, Error, Result, ok, err, Engine, IsEngine, failed}
use dokkup.Store.Sql.{
  World, M, pure, raise, ◌>>=◌, ◌>>◌, refuse_if, query, reported, now, mapped, map_error, advance,
  written, exec, ended, transaction, resume,
}

-- However the engine behaves, and whether the action succeeds or fails, `P` holds after it.
pub record Preserves {A : Type 0} (P : Db → Type 0) (m : M A) : Type 0 where
  pub at : (e : Engine) → IsEngine e → (w : World) → P w.db → P (m e w).1.db

-- what a statement leaves behind
abbrev pub Leaves : (Db → Type 0) → Result (ℕ × Db) → Type 0
Leaves P (ok (n, d)) = P d
Leaves P (err x) = Unit

-- a statement that tests before it writes
pub Leaves-if :
    (P : Db → Type 0) (b : Bool) (r s : Result (ℕ × Db))
    → Leaves P r
    → (b ≡ false → Leaves P s)
    → Leaves P (if b then r else s)
Leaves-if P true r s h k = h
Leaves-if P false r s h k = k refl

pub Leaves-of :
    (P : Db → Type 0) (r : Result (ℕ × Db)) → ((n : ℕ) (d : Db) → r ≡ ok (n, d) → P d) → Leaves P r
Leaves-of P (ok (n, d)) k = k n d refl
Leaves-of P (err x) k = tt

-- The same of what an action has done.
abbrev pub After : {A : Type 0} → (Db → Type 0) → Result A × World → Type 0
After P r = P r.1.db

After-if :
    {A : Type 0} (P : Db → Type 0) (b : Bool) (r s : Result A × World)
    → After P r
    → After P s
    → After P (if b then r else s)
After-if P true r s h k = h
After-if P false r s h k = k

After-mapped :
    {A : Type 0} (P : Db → Type 0) (f : Error → Error) (r : Result A × World)
    → After P r
    → After P (mapped f r)
After-mapped P f (ok a, w) h = h
After-mapped P f (err x, w) h = h

After-written :
    (P : Db → Type 0) (r : Result (ℕ × Db)) (w : World)
    → P w.db
    → Leaves P r
    → After P (written r w)
After-written P (ok (n, d)) w h k = k
After-written P (err x) w h k = h

After-ended :
    {A : Type 0} (P : Db → Type 0) (r : Result A × World) (before : Db) (e : Engine)
    → P before
    → After P r
    → After P (ended r before e)
After-ended P (ok a, w) before e h k = After-if P (e.fault w.tick) _ _ h k
After-ended P (err x, w) before e h k = h

After-resume :
    {A B : Type 0} (P : Db → Type 0) (r : Result A × World) (f : A → M B) (e : Engine)
    → ((a : A) (w : World) → P w.db → After P (f a e w))
    → After P r
    → After P (resume r f e)
After-resume P (ok a, w) f e k h = k a w h
After-resume P (err x, w) f e k h = h

module _ {P : Db → Type 0} where
  pub Preserves-pure : {A : Type 0} (a : A) → Preserves P (pure a)
  unfolding pure
  Preserves-pure a = record { at = λ e l w h. h }

  pub Preserves-raise : {A : Type 0} (x : Error) → Preserves P (raise {A = A} x)
  unfolding raise
  Preserves-raise x = record { at = λ e l w h. h }

  pub Preserves-refuse_if : (b : Bool) (x : Error) → Preserves P (refuse_if b x)
  unfolding refuse_if
  Preserves-refuse_if b x = record { at = λ e l w h. h }

  pub Preserves-now : Preserves P now
  unfolding now
  Preserves-now = record { at = λ e l w h. h }

  pub Preserves-reported : (n : ℕ) → Preserves P (reported n)
  unfolding reported
  Preserves-reported n = record { at = λ e l w h. h }

  pub Preserves-query : {A : Type 0} (q : Db → Result A) → Preserves P (query q)
  unfolding query
  Preserves-query q = record { at = λ e l w h. h }

  pub Preserves->>= :
      {A B : Type 0} (m : M A) (f : A → M B)
      → Preserves P m
      → ((a : A) → Preserves P (f a))
      → Preserves P (m >>= f)
  unfolding ◌>>=◌
  Preserves->>= m f k ks = record {
    at = λ e l w h. After-resume P (m e w) f e (λ a v g. (ks a).at e l v g) (k.at e l w h);
  }

  pub Preserves->> :
      {A B : Type 0} (m : M A) (k : M B) → Preserves P m → Preserves P k → Preserves P (m >> k)
  unfolding ◌>>◌
  Preserves->> m k h g = Preserves->>= m (λ _. k) h (λ _. g)

  pub Preserves-if :
      {A : Type 0} (b : Bool) (m k : M A)
      → Preserves P m
      → Preserves P k
      → Preserves P (if b then m else k)
  Preserves-if true m k h g = h
  Preserves-if false m k h g = g

  pub Preserves-map_error :
      {A : Type 0} (f : Error → Error) (m : M A) → Preserves P m → Preserves P (map_error f m)
  unfolding map_error
  Preserves-map_error f m k = record { at = λ e l w h. After-mapped P f (m e w) (k.at e l w h) }

  pub Preserves-exec :
      (s : Engine → Db → Result (ℕ × Db))
      → ((e : Engine) → IsEngine e → (d : Db) → P d → Leaves P (s e d))
      → Preserves P (exec s)
  unfolding exec
  Preserves-exec s k = record {
    at = λ e l w h.
        After-if P (e.fault w.tick) (err failed, advance w) (written (s e w.db) (advance w)) h
          (After-written P (s e w.db) (advance w) h (k e l w.db h));
  }

  pub Preserves-transaction : {A : Type 0} (m : M A) → Preserves P m → Preserves P (transaction m)
  unfolding transaction
  Preserves-transaction m k = record {
    at = λ e l w h.
        After-if P (e.fault w.tick) (err failed, advance w) (ended (m e (advance w)) w.db e) h
          (After-ended P (m e (advance w)) w.db e h (k.at e l (advance w) h));
  }

pub ruleset preserving = (
  Preserves-pure, Preserves-raise, Preserves-refuse_if, Preserves-now, Preserves-reported,
  Preserves-query, Preserves->>=, Preserves->>, Preserves-if, Preserves-map_error,
  Preserves-transaction,
)
