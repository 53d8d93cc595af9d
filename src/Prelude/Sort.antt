-- ===== src/Prelude/Sort.antt =====
-- `sort.Slice`: an insertion sort by a strict order. Go leaves the order of equal elements open;
-- this keeps it.
use mathlib.Core.Bool.{Bool}
use mathlib.Core.List.{List, [], ◌∷◌}
use Prim.Native.Nat.{suc}
use mathlib.Core.Path.{◌≡◌, refl, ap, ◌∙◌}
use mathlib.Core.Bool.{◌||◌}
use native.Mathlib.Omega.{arith}
use astro_cli.Prelude.Lists.{length, contains_by}
use astro_cli.Prelude.Tests.{if◌then◌else◌}

module _ {ℓ} {A : Type ℓ} (lt : A → A → Bool) where
  -- Behind the elements that come first or are equal to it.
  unfoldable pub insert_sorted : A → List A → List A
  insert_sorted x [] = x ∷ []
  insert_sorted x (y ∷ ys) =
      let rest = insert_sorted x ys in if lt x y then x ∷ y ∷ ys else y ∷ rest

  unfoldable pub sort_slice : List A → List A
  unfolding insert_sorted
  sort_slice [] = []
  sort_slice (x ∷ xs) = insert_sorted x (sort_slice xs)

  pub length-insert_sorted : (x : A) (ys : List A) → length (insert_sorted x ys) ≡ suc (length ys)
  unfolding insert_sorted
  length-insert_sorted x [] = refl
  length-insert_sorted x (y ∷ ys) = ground (arith, length-insert_sorted x ys)

  pub length-sort_slice : (xs : List A) → length (sort_slice xs) ≡ length xs
  unfolding sort_slice
  length-sort_slice [] = refl
  length-sort_slice (x ∷ xs) =
      length-insert_sorted x (sort_slice xs) ∙ ap suc (length-sort_slice xs)

  contains_by-insert_sorted :
      (test : A → Bool) (x : A) (ys : List A)
      → contains_by test (insert_sorted x ys) ≡ (test x || contains_by test ys)
  unfolding insert_sorted
  contains_by-insert_sorted test x [] = refl
  contains_by-insert_sorted test x (y ∷ ys) = ground (arith, contains_by-insert_sorted test x ys)

  -- Sorting finds no element and loses none.
  pub contains_by-sort_slice :
      (test : A → Bool) (xs : List A) → contains_by test (sort_slice xs) ≡ contains_by test xs
  unfolding sort_slice
  contains_by-sort_slice test [] = refl
  contains_by-sort_slice test (x ∷ xs) =
      contains_by-insert_sorted test x (sort_slice xs)
      ∙ ap (λ b. test x || b) (contains_by-sort_slice test xs)
