-- ===== src/Places.antt =====
-- internal/hostpaths/hostpaths.go: the paths that dokkup has to do with on a host.
use mathlib.Core.Path.{subst}
use dokkup.Common.Strings.{codes, has_prefix}
use dokkup.Common.{
  ℕ, zero, suc, ◌≡◌, refl, sym, ap, ◌∙◌, ◌↔◌, Bool, true, ◌&&◌, List, [], ◌∷◌, arith, same_number,
  same_number_iff, Keyed, ◌==◌, Text, same_text, same_text_iff, number_key, text_key,
}

pub data Place : Type 0 where
  binary previous_binary staged_binary unit sudoers vhost vhost_staging vhost_candidate : Place
  data_dir database tls_dir tls_cert tls_key : Place
  elsewhere : Text → Place

abbrev place_kind : Place → ℕ
place_kind binary = 0
place_kind previous_binary = 1
place_kind staged_binary = 2
place_kind unit = 3
place_kind sudoers = 4
place_kind vhost = 5
place_kind vhost_staging = 6
place_kind vhost_candidate = 7
place_kind data_dir = 8
place_kind database = 9
place_kind tls_dir = 10
place_kind tls_cert = 11
place_kind tls_key = 12
place_kind (elsewhere _) = 13

abbrev place_rest : Place → Text
place_rest (elsewhere path) = path
place_rest _ = []

abbrev pub same_place : Place → Place → Bool
same_place p q =
    same_number (place_kind p) (place_kind q) && same_text (place_rest p) (place_rest q)

nth_or : Place → List Place → ℕ → Place
nth_or d [] n = d
nth_or d (p ∷ ps) zero = p
nth_or d (p ∷ ps) (suc n) = nth_or d ps n

abbrev named_places : List Place
named_places =
    binary ∷ previous_binary ∷ staged_binary ∷ unit ∷ sudoers ∷ vhost ∷ vhost_staging
    ∷ vhost_candidate ∷ data_dir ∷ database ∷ tls_dir ∷ tls_cert ∷ tls_key ∷ []

abbrev place_of : ℕ → Text → Place
place_of n t = nth_or (elsewhere t) named_places n

place_of-place : (p : Place) → place_of (place_kind p) (place_rest p) ≡ p
unfolding nth_or
place_of-place binary = refl
place_of-place previous_binary = refl
place_of-place staged_binary = refl
place_of-place unit = refl
place_of-place sudoers = refl
place_of-place vhost = refl
place_of-place vhost_staging = refl
place_of-place vhost_candidate = refl
place_of-place data_dir = refl
place_of-place database = refl
place_of-place tls_dir = refl
place_of-place tls_cert = refl
place_of-place tls_key = refl
place_of-place (elsewhere t) = refl

same_place→eq : (p q : Place) → same_place p q ≡ true → p ≡ q
same_place→eq p q h =
    let same_kind = (same_number_iff (place_kind p) (place_kind q)).0 (ground arith) in
    let same_rest = (same_text_iff (place_rest p) (place_rest q)).0 (ground arith) in
    sym (place_of-place p)
    ∙ (ap (λ k. place_of k (place_rest p)) same_kind
        ∙ (ap (place_of (place_kind q)) same_rest ∙ place_of-place q))

same_place_refl : (p : Place) → same_place p p ≡ true
same_place_refl p =
    rw ((same_number_iff (place_kind p) (place_kind p)).1 refl)
      ((same_text_iff (place_rest p) (place_rest p)).1 refl)

pub same_place_iff : (p q : Place) → (same_place p q ≡ true) ↔ (p ≡ q)
same_place_iff p q =
    (same_place→eq p q, λ e. subst (λ r. same_place p r ≡ true) e (same_place_refl p))

instance abbrev pub place_key : Keyed Place
place_key = record { same = same_place; same_iff = same_place_iff }

-- whether the second path is the first or is under it
abbrev pub within : Place → Place → Bool
within data_dir vhost_candidate = true
within data_dir database = true
within data_dir tls_dir = true
within data_dir tls_cert = true
within data_dir tls_key = true
within tls_dir tls_cert = true
within tls_dir tls_key = true
within data_dir (elsewhere path) = has_prefix path (codes "/var/lib/dokkup/")
within tls_dir (elsewhere path) = has_prefix path (codes "/var/lib/dokkup/tls/")
within p q = p == q

-- Owned
abbrev pub owned_places : List Place
owned_places = unit ∷ sudoers ∷ binary ∷ data_dir ∷ []

-- Conditional
abbrev pub conditional_places : List Place
conditional_places = vhost ∷ tls_dir ∷ previous_binary ∷ []
