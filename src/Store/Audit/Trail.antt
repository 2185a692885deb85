-- ===== src/Store/Audit/Trail.antt =====
-- internal/store/audit.go: how the trail grows, and its listings.
use mathlib.Core.Path.{subst}
use dokkup.Common.{
  Bool-cases, contains, ℕ, ◌≡◌, refl, ◌∙◌, inl, inr, none, List, [], ◌∷◌, ◌++◌, map, arith,
  Option-cases, keep, find, ◌==◌, number_key, text_key, suc, ◌≤◌, Bool, true, false, Option, some,
  length, count_where, Ordered, zero, ap, sort_by, sort_by-Ordered, count_where-sort_by,
  take-Ordered, length-take, ◌⊎◌,
}
use dokkup.Store.Audit.{effective_limit, audit_entries}
use dokkup.Store.History.{Call, run, run-Preserves}
use dokkup.Store.Preservation.{Leaves, Leaves-of}
use dokkup.Store.Respects.{Respects}
use dokkup.Store.Schema.{
  AuditEntry, Db, Engine, ids, audit_ids, insert_operator, update_password, update_name, forget,
  removable, delete_operator, insert_session, delete_sessions, delete_setup_tokens,
  insert_setup_token, insert_attributed, insert_unattributed, IsEngine, ok, newer_than,
  select_audit_entries, limit_to,
}
use dokkup.Store.Sql.{World, actions}

-- an entry as it was, or with its reference to an account emptied
abbrev pub Kept : AuditEntry → AuditEntry → Type 0
Kept a b = (b ≡ a) ⊎ (b ≡ record a { operator_id = none })

-- entry by entry
abbrev pub AllKept : List AuditEntry → List AuditEntry → Type 0
AllKept [] [] = Unit {0}
AllKept (a ∷ old) (b ∷ after) = Kept a b × AllKept old after
AllKept _ _ = ⊥

-- the trail ends, at its older end, with the entries of `old`
abbrev pub Extends : List AuditEntry → Db → Type 0
Extends old d = (new left : List AuditEntry) × (d.audit_entries ≡ new ++ left) × AllKept old left

AllKept-refl : (trail : List AuditEntry) → AllKept trail trail
AllKept-refl [] = tt
AllKept-refl (a ∷ trail) = (inl refl, AllKept-refl trail)

forget-Kept : (doomed : List ℕ) (a b : AuditEntry) → Kept a b → Kept a (forget doomed b)
forget-Kept doomed a b (inl h) = elim (Option-cases b.operator_id) [
  | inl g ↦ inl (ground arith)
  | inr (id, g) ↦ elim (Bool-cases (contains id doomed)) [
    | inl k ↦ inr (ground arith)
    | inr k ↦ inl (ground arith)
  ]
]
forget-Kept doomed a b (inr h) = inr (rw h refl)

forget-AllKept :
    (doomed : List ℕ) (old after : List AuditEntry)
    → AllKept old after
    → AllKept old (map (forget doomed) after)
forget-AllKept doomed [] [] h = tt
forget-AllKept doomed [] (b ∷ after) h = h
forget-AllKept doomed (a ∷ old) [] h = h
forget-AllKept doomed (a ∷ old) (b ∷ after) (h, k) =
    (forget-Kept doomed a b h, forget-AllKept doomed old after k)

forget-append :
    (doomed : List ℕ) (new left : List AuditEntry)
    → map (forget doomed) (new ++ left) ≡ map (forget doomed) new ++ map (forget doomed) left
forget-append doomed [] left = refl
forget-append doomed (a ∷ new) left = ap (λ t. forget doomed a ∷ t) (forget-append doomed new left)

insert_attributed-Extends :
    (old : List AuditEntry) (e : Engine) (id : ℕ) (a : AuditEntry) (d : Db)
    → Extends old d
    → Leaves (Extends old) (insert_attributed e id a d)
unfolding insert_attributed
insert_attributed-Extends old e id a d (new, left, h, k) =
    elim (Option-cases (find (λ o. o.id == id) d.operators)) [
      | inl g ↦ rw (g, insert_attributed) (new, left, h, k)
      | inr (o, g) ↦
          rw (g, insert_attributed)
            (
              record a {
                id = e.new_id (audit_ids d.audit_entries);
                operator_id = some o.id;
                operator_email = o.email;
              }
                  ∷ new,
              left,
              ground (arith, h),
              k,
            )
    ]

pub Extends-respected : (old : List AuditEntry) → Respects (Extends old)
unfolding insert_operator update_password update_name delete_operator insert_session delete_sessions
    delete_setup_tokens insert_setup_token insert_unattributed
Extends-respected old = record {
  on_insert_operator = λ e o d l a h.
      Leaves-of (Extends old) (insert_operator e o d)
        (λ n d' q. (h.0, h.1, ground (arith, h.2), h.3));
  on_update_password = λ hash at id d n h. h;
  on_update_name = λ name at id d h. h;
  on_delete_operator = λ id d (new, left, h, k).
      let doomed : List ℕ = ids (keep (removable id) d.operators) in
      (
        map (forget doomed) new,
        map (forget doomed) left,
        ap (map (forget doomed)) h ∙ forget-append doomed new left,
        forget-AllKept doomed old left k,
      );
  on_insert_session = λ s d i h.
      Leaves-of (Extends old) (insert_session s d) (λ n d' q. (h.0, h.1, ground (arith, h.2), h.3));
  on_delete_sessions = λ p d h. h;
  on_delete_setup_tokens = λ p d h. h;
  on_insert_setup_token = λ t d h.
      Leaves-of (Extends old) (insert_setup_token t d)
        (λ n d' q. (h.0, h.1, ground (arith, h.2), h.3));
  on_insert_attributed = insert_attributed-Extends old;
  on_insert_unattributed = λ e a d (new, left, h, k). (
    record a { id = e.new_id (audit_ids d.audit_entries); operator_id = none; operator_email = [] }
        ∷ new,
    left,
    ground (arith, h),
    k,
  );
}

-- With new keys that are in no row, the audit trail is append-only: whatever calls are made, and
-- whichever of them fail, the entries that were there stay, in order and each with the same id, address,
-- action, target, key and time; a reference to an account stays as it is or is emptied, and is never
-- turned to another account.
pub run-Extends :
    (calls : List Call) (e : Engine) (w : World)
    → IsEngine e
    → (new left : List AuditEntry) × ((run calls e w).db.audit_entries ≡ new ++ left)
      × AllKept w.db.audit_entries left
run-Extends calls e w l =
    run-Preserves (Extends-respected w.db.audit_entries) calls e w l
      ([], w.db.audit_entries, refl, AllKept-refl w.db.audit_entries)

newer_than-total : (a b : AuditEntry) → newer_than a b ≡ false → newer_than b a ≡ true
newer_than-total a b h = ground arith

-- what a listing under a limit is, of the table `trail`
abbrev pub IsListing : Option ℕ → List AuditEntry → List AuditEntry → Type 0
IsListing limit trail es =
    Ordered newer_than es
    × ((n : ℕ) → limit ≡ some (suc n) → length es ≤ suc n)
    × ((p : AuditEntry → Bool)
        → effective_limit limit ≡ none
        → count_where p es ≡ count_where p trail)

keep_all : (trail : List AuditEntry) → keep (λ _. true) trail ≡ trail
keep_all [] = refl
keep_all (a ∷ trail) = ap (λ t. a ∷ t) (keep_all trail)

in_order : (trail : List AuditEntry) → Ordered newer_than (sort_by newer_than trail)
in_order = sort_by-Ordered newer_than newer_than-total

IsListing-sorted :
    (limit : Option ℕ) (trail : List AuditEntry)
    → IsListing limit trail (limit_to (effective_limit limit) (sort_by newer_than trail))
IsListing-sorted none trail =
    (in_order trail, λ n h. cc, λ p h. count_where-sort_by newer_than p trail)
IsListing-sorted (some zero) trail =
    (in_order trail, λ n h. ground arith, λ p h. count_where-sort_by newer_than p trail)
IsListing-sorted (some (suc m)) trail = (
  take-Ordered newer_than (suc m) (sort_by newer_than trail) (in_order trail),
  λ n h. ground (arith, length-take (suc m) (sort_by newer_than trail)),
  λ p h. cc,
)

-- A listing of the trail is newest first, and by id among entries of one moment. It is as long as the
-- limit allows at most; with no limit, or one of 0, it holds every entry, as often as the table does.
pub audit_entries-IsListing :
    (limit : Option ℕ) (e : Engine) (w : World) (es : List AuditEntry)
    → (audit_entries limit e w).0 ≡ ok es
    → IsListing limit w.db.audit_entries es
unfolding audit_entries actions select_audit_entries
audit_entries-IsListing limit e w es h =
    subst (IsListing limit w.db.audit_entries) (ground (arith, keep_all w.db.audit_entries))
      (IsListing-sorted limit w.db.audit_entries)
