-- ===== src/Common/Sets.antt =====
-- Lists of strings as sets: `has`, and what holds of every member.
use Prim.Native.Nat.{ℕ, zero, suc, ◌≤◌, ◌<◌}
use Prim.Native.String.{String}
use mathlib.Core.Path.{◌≡◌, refl, subst}
use mathlib.Core.Logic.{inl, inr}
use mathlib.Core.Bool.{Bool, true, false, not, ◌&&◌}
use mathlib.Core.List.{List, [], ◌∷◌}
use native.Mathlib.Omega.{arith}
use text.Mathlib.Text.{◌==◌ as str_eq}
use text.Mathlib.TextEquality.{eq_iff}
use skillplane.Common.Booleans.{Bool-cases}
use skillplane.Common.Lists.{All, any, filter, take, length}

-- `xs.includes(x)`
abbrev pub contains : List String → String → Bool
contains xs x = any (λ y. str_eq y x) xs

pub contains-All :
    (Q : String → Type 0) (xs : List String) (id : String) → All Q xs → contains xs id ≡ true → Q id
contains-All Q [] id hs e = cc
contains-All Q (x ∷ xs) id (h, hs) e = elim (Bool-cases (str_eq x id)) [
  | inl y ↦ subst Q ((eq_iff x id).0 y) h
  | inr n ↦ contains-All Q xs id hs (ground (arith, e, n))
]

pub any-false :
    (p : String → Bool) (xs : List String) (id : String)
    → any p xs ≡ false
    → contains xs id ≡ true
    → p id ≡ false
any-false p [] id h e = cc
any-false p (x ∷ xs) id h e = elim (Bool-cases (str_eq x id)) [
  | inl y ↦ subst (λ k. p k ≡ false) ((eq_iff x id).0 y) (ground (arith, h))
  | inr n ↦ any-false p xs id (ground (arith, h)) (ground (arith, e, n))
]

pub filter-All : (p : String → Bool) (xs : List String) → All (λ x. p x ≡ true) (filter p xs)
filter-All p [] = tt
filter-All p (x ∷ xs) = elim (Bool-cases (p x)) [
  | inl y ↦ rw y (y, filter-All p xs)
  | inr n ↦ rw n (filter-All p xs)
]

pub take-All : (Q : String → Type 0) (n : ℕ) (xs : List String) → All Q xs → All Q (take n xs)
take-All Q zero xs h = tt
take-All Q (suc n) [] h = tt
take-All Q (suc n) (x ∷ xs) (h, hs) = (h, take-All Q n xs hs)

pub contains-filter :
    (p : String → Bool) (xs : List String) (id : String)
    → contains xs id ≡ true
    → p id ≡ true
    → contains (filter p xs) id ≡ true
contains-filter p [] id h k = cc
contains-filter p (x ∷ xs) id h k = elim (Bool-cases (str_eq x id)) [
  | inl y ↦ let this : p x ≡ true = cc ((eq_iff x id).0 y, k) in ground (arith, this, y)
  | inr n ↦ let rest = contains-filter p xs id (ground (arith, h, n)) k in ground (arith, rest)
]

-- `new Set(xs).size === xs.length`
abbrev pub distinct : List String → Bool
distinct [] = true
distinct (x ∷ xs) = not (contains xs x) && distinct xs

length-filter : (p : String → Bool) (xs : List String) → length (filter p xs) ≤ length xs
length-filter p [] = omega arith
length-filter p (x ∷ xs) = ground (arith, length-filter p xs)

length-without :
    (x : String) (ys : List String)
    → contains ys x ≡ true
    → length (filter (λ y. not (str_eq y x)) ys) < length ys
length-without x [] h = cc
length-without x (y ∷ ys) h = elim (Bool-cases (str_eq y x)) [
  | inl e ↦ ground (arith, e, length-filter (λ z. not (str_eq z x)) ys)
  | inr n ↦ let rest = length-without x ys (ground (arith, h, n)) in ground (arith, n, rest)
]

contains-apart :
    (xs : List String) (x z : String)
    → contains xs x ≡ false
    → contains xs z ≡ true
    → str_eq z x ≡ false
contains-apart xs x z h k = elim (Bool-cases (str_eq z x)) [
  | inr n ↦ n
  | inl e ↦ cc ((eq_iff z x).0 e, h, k)
]

-- Distinct strings of a list are no more than the list has.
pub distinct-length :
    (xs ys : List String)
    → distinct xs ≡ true
    → ((z : String) → contains xs z ≡ true → contains ys z ≡ true)
    → length xs ≤ length ys
distinct-length [] ys d sub = omega arith
distinct-length (x ∷ xs) ys d sub =
    let here = sub x (ground (arith, (eq_iff x x).1 refl)) in
    let fresh : contains xs x ≡ false = ground (arith, d) in
    let rest = distinct-length xs (filter (λ y. not (str_eq y x)) ys) (ground (arith, d)) (λ z h.
      let apart = contains-apart xs x z fresh h in
      contains-filter (λ y. not (str_eq y x)) ys z (sub z (ground (arith, h)))
        (ground (arith, apart))) in
    omega (arith, rest, length-without x ys here)
