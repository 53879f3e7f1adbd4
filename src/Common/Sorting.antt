-- ===== src/Common/Sorting.antt =====
-- `[...new Set(xs)].sort()`: the first occurrence of each value, in ascending order.
use skillplane.Common.Booleans.{if◌then◌else◌, Bool-cases}
use skillplane.Common.Lists.{All, Any, any, length}
use Prim.Native.Nat.{suc, ◌≤◌}
use mathlib.Core.Path.{◌≡◌, refl}
use mathlib.Core.Logic.{inl, inr}
use mathlib.Core.Bool.{Bool}
use mathlib.Core.List.{List, [], ◌∷◌}
use native.Mathlib.Omega.{arith}

module _ {ℓ} {A : Type ℓ} (same lt : A → A → Bool) where
  -- `seen` holds the values that stand further left.
  distinct_from : List A → List A → List A
  distinct_from seen [] = []
  distinct_from seen (x ∷ xs) =
      let rest = distinct_from (x ∷ seen) xs in if any (same x) seen then rest else x ∷ rest

  insert : A → List A → List A
  insert x [] = x ∷ []
  insert x (y ∷ ys) = let rest = insert x ys in if lt y x then y ∷ rest else x ∷ y ∷ ys

  unfoldable pub sort : List A → List A
  unfolding insert
  sort [] = []
  sort (x ∷ xs) = insert x (sort xs)

  unfoldable pub sorted_set : List A → List A
  unfolding distinct_from insert sort
  sorted_set xs = sort (distinct_from [] xs)

  module _ (P : A → Type 0) where
    distinct_from-All : (seen xs : List A) → All P xs → All P (distinct_from seen xs)
    unfolding distinct_from
    distinct_from-All seen [] h = tt
    distinct_from-All seen (x ∷ xs) (h, hs) = elim (Bool-cases (any (same x) seen)) [
      | inl e ↦ rw e (distinct_from-All (x ∷ seen) xs hs)
      | inr e ↦ rw e (h, distinct_from-All (x ∷ seen) xs hs)
    ]

    insert-All : (x : A) (xs : List A) → P x → All P xs → All P (insert x xs)
    unfolding insert
    insert-All x [] h hs = (h, tt)
    insert-All x (y ∷ ys) h (k, ks) = elim (Bool-cases (lt y x)) [
      | inl e ↦ rw e (k, insert-All x ys h ks)
      | inr e ↦ rw e (h, (k, ks))
    ]

    pub sort-All : (xs : List A) → All P xs → All P (sort xs)
    unfolding sort
    sort-All [] h = tt
    sort-All (x ∷ xs) (h, hs) = insert-All x (sort xs) h (sort-All xs hs)

    insert-All_back : (x : A) (xs : List A) → All P (insert x xs) → P x × All P xs
    unfolding insert
    insert-All_back x [] (h, hs) = (h, tt)
    insert-All_back x (y ∷ ys) h = elim (Bool-cases (lt y x)) [
      | inl e ↦
          let (k, ks) : P y × All P (insert x ys) = rw e at h in
          let (mine, rest) = insert-All_back x ys ks in (mine, (k, rest))
      | inr e ↦ let back : P x × All P (y ∷ ys) = rw e at h in back
    ]

    pub sort-All_back : (xs : List A) → All P (sort xs) → All P xs
    unfolding sort
    sort-All_back [] h = tt
    sort-All_back (x ∷ xs) h =
        let (mine, rest) = insert-All_back x (sort xs) h in (mine, sort-All_back xs rest)

    insert-Any : (x : A) (xs : List A) → Any P (x ∷ xs) → Any P (insert x xs)
    unfolding insert
    insert-Any x [] h = h
    insert-Any x (y ∷ ys) h = elim (Bool-cases (lt y x)) [
      | inr e ↦ rw e h
      | inl e ↦ rw e (elim h [
        | inl k ↦ inr (insert-Any x ys (inl k))
        | inr more ↦ elim more [ inl k ↦ inl k | inr k ↦ inr (insert-Any x ys (inr k)) ]
      ])
    ]

    pub sort-Any : (xs : List A) → Any P xs → Any P (sort xs)
    unfolding sort
    sort-Any [] h = h
    sort-Any (x ∷ xs) (inl h) = insert-Any x (sort xs) (inl h)
    sort-Any (x ∷ xs) (inr h) = insert-Any x (sort xs) (inr (sort-Any xs h))

    pub sorted_set-All : (xs : List A) → All P xs → All P (sorted_set xs)
    unfolding sorted_set
    sorted_set-All xs h = sort-All (distinct_from [] xs) (distinct_from-All [] xs h)

  length-distinct_from : (seen xs : List A) → length (distinct_from seen xs) ≤ length xs
  unfolding distinct_from
  length-distinct_from seen [] = omega arith
  length-distinct_from seen (x ∷ xs) = ground (arith, length-distinct_from (x ∷ seen) xs)

  length-insert : (x : A) (xs : List A) → length (insert x xs) ≡ suc (length xs)
  unfolding insert
  length-insert x [] = refl
  length-insert x (y ∷ ys) = ground (arith, length-insert x ys)

  pub length-sort : (xs : List A) → length (sort xs) ≡ length xs
  unfolding sort
  length-sort [] = refl
  length-sort (x ∷ xs) = omega (arith, length-insert x (sort xs), length-sort xs)

  pub length-sorted_set : (xs : List A) → length (sorted_set xs) ≤ length xs
  unfolding sorted_set
  length-sorted_set xs =
      omega (arith, length-sort (distinct_from [] xs), length-distinct_from [] xs)
