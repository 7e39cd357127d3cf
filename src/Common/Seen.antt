-- ===== src/Common/Seen.antt =====
-- Go's loop with a map of the keys that were seen: `if seen[k] || !test(x) { return err }`.
use Prim.Native.String.{String}
use mathlib.Core.Path.{◌≡◌}
use mathlib.Core.Logic.{◌≢◌}
use mathlib.Core.Bool.{Bool, true, false, not, ◌&&◌, ◌||◌}
use mathlib.Core.List.{List, [], ◌∷◌}
use native.Mathlib.Omega.{arith}
use text.Mathlib.TextEquality.{eq_iff}
use autostream_contracts.Common.Tests.{and_true}
use autostream_contracts.Common.Equality.{◌==◌, String_eq}
use autostream_contracts.Common.Lists.{All}

unfoldable pub contains : List String → String → Bool
contains [] k = false
contains (j ∷ js) k = j == k || contains js k

module _ {ℓ} {A : Type ℓ} (key : A → String) where
  -- No two members have the same key.
  abbrev pub Distinct : List A → Type 0
  Distinct [] = Unit {0}
  Distinct (x ∷ xs) = All (λ y. key y ≢ key x) xs × Distinct xs

  -- The loop, with the keys that were seen.
  unfoldable pub loop_distinct : (A → Bool) → List String → List A → Bool
  loop_distinct test seen [] = true
  loop_distinct test seen (x ∷ xs) =
      not (contains seen (key x)) && test x && loop_distinct test (key x ∷ seen) xs

  abbrev Unseen : List String → List A → Type 0
  Unseen seen xs = All (λ y. contains seen (key y) ≡ false) xs

  Unseen-split :
      (k : String) (seen : List String) (xs : List A)
      → Unseen (k ∷ seen) xs
      → All (λ y. key y ≢ k) xs × Unseen seen xs
  unfolding contains
  Unseen-split k seen [] h = (tt, tt)
  Unseen-split k seen (x ∷ xs) (here, later) =
      let (differ, rest) = Unseen-split k seen xs later in
      ((λ e. ground (arith, eq_iff k (key x), here, e), differ), (ground (arith, here), rest))

  loop_distinct-parts :
      (test : A → Bool) (seen : List String) (xs : List A)
      → loop_distinct test seen xs ≡ true
      → All (λ x. test x ≡ true) xs × Unseen seen xs × Distinct xs
  unfolding loop_distinct
  loop_distinct-parts test seen [] h = (tt, tt, tt)
  loop_distinct-parts test seen (x ∷ xs) h =
      let (first, later) =
        and_true (not (contains seen (key x)) && test x) (loop_distinct test (key x ∷ seen) xs) h in
      let (unseen, tested) = and_true (not (contains seen (key x))) (test x) first in
      let (tests, others, distinct) = loop_distinct-parts test (key x ∷ seen) xs later in
      let (differ, rest) = Unseen-split (key x) seen xs others in
      ((tested, tests), (ground arith, rest), (differ, distinct))

  -- The loop accepts only lists of members that pass the test, with distinct keys.
  pub loop_distinct-Distinct :
      (test : A → Bool) (xs : List A)
      → loop_distinct test [] xs ≡ true
      → All (λ x. test x ≡ true) xs × Distinct xs
  loop_distinct-Distinct test xs h =
      let (tests, unseen, distinct) = loop_distinct-parts test [] xs h in (tests, distinct)
