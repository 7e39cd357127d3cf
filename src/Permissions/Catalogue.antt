-- ===== src/Permissions/Catalogue.antt =====
-- The catalogue is a set, and the loop of pkg/contracts/permissions.go its membership.
use autostream_contracts.Common.{
  ℕ, suc, String, Bool, true, false, ◌≡◌, ◌≢◌, refl, ap, List, [], ◌∷◌, All, Distinct, arith,
  contains, loop_distinct, loop_distinct-Distinct, ◌==◌, String_eq, eq_iff, if◌then◌else◌,
  Bool-cases, inl, inr,
}
use autostream_contracts.Permissions.{permissions, is_known, permission_exists}

-- How often a name stands in a list.
unfoldable pub occurrences : String → List String → ℕ
occurrences p [] = 0
occurrences p (k ∷ ks) = if k == p then suc (occurrences p ks) else occurrences p ks

abbrev pub number_of : Bool → ℕ
number_of true = 1
number_of false = 0

abbrev same : String → String
same p = p

occurrences-All : (p : String) (ks : List String) → All (λ k. k ≢ p) ks → occurrences p ks ≡ 0
unfolding occurrences
occurrences-All p [] h = refl
occurrences-All p (k ∷ ks) (here, later) =
    ground (arith, eq_iff k p, here, occurrences-All p ks later)

occurrences-Distinct :
    (p : String) (ks : List String)
    → Distinct same ks
    → occurrences p ks ≡ number_of (is_known ks p)
unfolding occurrences is_known
occurrences-Distinct p [] h = refl
occurrences-Distinct p (k ∷ ks) (differ, distinct) = elim (Bool-cases (k == p)) [
  | inl e ↦ rw e (ap suc (occurrences-All p ks (rw (← (eq_iff k p).0 e) differ)))
  | inr e ↦ rw e (occurrences-Distinct p ks distinct)
]

permissions_tested : loop_distinct same (λ p. true) [] permissions ≡ true
unfolding loop_distinct contains permissions
permissions_tested = refl

-- Every name stands in the catalogue once if it exists as a permission, and not at all if it does
-- not.
pub permission_exists-occurrences :
    (p : String) → occurrences p permissions ≡ number_of (permission_exists p)
unfolding permission_exists
permission_exists-occurrences p =
    occurrences-Distinct p permissions
      (loop_distinct-Distinct same (λ p. true) permissions permissions_tested).1
