-- ===== src/Storage/Paths/Order.antt =====
-- The order of paths by their bytes, and that by their code points.
use skillplane.Common.{
  ℕ, zero, suc, ◌<◌, ◌≡◌, refl, sym, ◌∙◌, none, some, Option, List, [], ◌∷◌, ◌++◌, All, inl, inr,
  ltb, ◌==◌, false, if◌then◌else◌, arith, Bool-cases,
}
use skillplane.Common.Int.{ℤ, pos, negsuc}
use skillplane.Storage.Paths.{
  is_surrogate, utf8_scalar, utf8_of, utf8, difference, or_lengths, bytewise_path_compare,
}

-- How two lists compare.
pub data Order : Type 0 where
  before same after : Order

pub sign_of : ℤ → Order
sign_of (pos zero) = same
sign_of (pos (suc n)) = after
sign_of (negsuc n) = before

-- The lexicographic order.
unfoldable pub lexicographic : List ℕ → List ℕ → Order
lexicographic [] [] = same
lexicographic [] (y ∷ ys) = before
lexicographic (x ∷ xs) [] = after
lexicographic (x ∷ xs) (y ∷ ys) =
    let rest = lexicographic xs ys in if x == y then rest else if ltb x y then before else after

or_lengths-suc :
    (x y : ℕ) (xs ys : List ℕ) (d : Option ℤ)
    → sign_of (or_lengths (x ∷ xs) (y ∷ ys) d) ≡ sign_of (or_lengths xs ys d)
unfolding sign_of
or_lengths-suc x y xs ys none = ground arith
or_lengths-suc x y xs ys (some d) = refl

sign_of-or_lengths : (a b : List ℕ) → sign_of (or_lengths a b (difference a b)) ≡ lexicographic a b
unfolding sign_of difference lexicographic
sign_of-or_lengths [] [] = refl
sign_of-or_lengths [] (y ∷ ys) = ground arith
sign_of-or_lengths (x ∷ xs) [] = ground arith
sign_of-or_lengths (x ∷ xs) (y ∷ ys) = elim (Bool-cases (x == y)) [
  | inl e ↦ rw e (or_lengths-suc x y xs ys (difference xs ys) ∙ sign_of-or_lengths xs ys)
  | inr e ↦ rw e (ground arith)
]

-- A code point that is no surrogate.
abbrev pub IsScalar : ℕ → Type 0
IsScalar c = (c < 1114112) × (is_surrogate c ≡ false)

lexicographic-append : (p a b : List ℕ) → lexicographic (p ++ a) (p ++ b) ≡ lexicographic a b
unfolding lexicographic
lexicographic-append [] a b = refl
lexicographic-append (x ∷ p) a b = ground (arith, lexicographic-append p a b)

lexicographic-utf8_scalar :
    (x y : ℕ) (a b : List ℕ)
    → x < 1114112
    → y < 1114112
    → x < y
    → lexicographic (utf8_scalar x ++ a) (utf8_scalar y ++ b) ≡ before
unfolding lexicographic utf8_scalar
lexicographic-utf8_scalar x y a b h k l = ground arith

lexicographic-utf8_scalar-after :
    (x y : ℕ) (a b : List ℕ)
    → x < 1114112
    → y < 1114112
    → y < x
    → lexicographic (utf8_scalar x ++ a) (utf8_scalar y ++ b) ≡ after
unfolding lexicographic utf8_scalar
lexicographic-utf8_scalar-after x y a b h k l = ground arith

utf8_scalar-ne_nil : (x : ℕ) (a : List ℕ) → lexicographic [] (utf8_scalar x ++ a) ≡ before
unfolding lexicographic utf8_scalar
utf8_scalar-ne_nil x a = ground arith

utf8_scalar-ne_nil_after : (x : ℕ) (a : List ℕ) → lexicographic (utf8_scalar x ++ a) [] ≡ after
unfolding lexicographic utf8_scalar
utf8_scalar-ne_nil_after x a = ground arith

utf8_of-eq : (c : ℕ) → IsScalar c → utf8_of c ≡ utf8_scalar c
unfolding utf8_of
utf8_of-eq c (h, k) = rw k refl

lexicographic-utf8 :
    (xs ys : List ℕ)
    → All IsScalar xs
    → All IsScalar ys
    → lexicographic (utf8 xs) (utf8 ys) ≡ lexicographic xs ys
unfolding lexicographic utf8
lexicographic-utf8 [] [] h k = refl
lexicographic-utf8 [] (y ∷ ys) h k = rw (utf8_of-eq y k.0) (utf8_scalar-ne_nil y (utf8 ys))
lexicographic-utf8 (x ∷ xs) [] h k = rw (utf8_of-eq x h.0) (utf8_scalar-ne_nil_after x (utf8 xs))
lexicographic-utf8 (x ∷ xs) (y ∷ ys) (h, hs) (k, ks) =
    let rest = lexicographic-utf8 xs ys hs ks in
    let shared = lexicographic-append (utf8_scalar x) (utf8 xs) (utf8 ys) in
    let less = lexicographic-utf8_scalar x y (utf8 xs) (utf8 ys) h.0 k.0 in
    let greater = lexicographic-utf8_scalar-after x y (utf8 xs) (utf8 ys) h.0 k.0 in
    rw (utf8_of-eq x h, utf8_of-eq y k) (ground (arith, rest, shared, less, greater))

lexicographic-same : (xs ys : List ℕ) → lexicographic xs ys ≡ same → xs ≡ ys
unfolding lexicographic
lexicographic-same [] [] h = refl
lexicographic-same [] (y ∷ ys) h = absurd (cc)
lexicographic-same (x ∷ xs) [] h = absurd (cc)
lexicographic-same (x ∷ xs) (y ∷ ys) h = ground (arith, lexicographic-same xs ys)

-- The sign of the comparison of two paths without unpaired surrogates, by the bytes of UTF-8, is their
-- lexicographic order by code points, and it is zero only if they are equal.
pub bytewise_path_compare-eq :
    (left right : List ℕ)
    → All IsScalar left
    → All IsScalar right
    → (sign_of (bytewise_path_compare left right) ≡ lexicographic left right)
      × (sign_of (bytewise_path_compare left right) ≡ same → left ≡ right)
unfolding bytewise_path_compare
bytewise_path_compare-eq left right h k =
    let e = sign_of-or_lengths (utf8 left) (utf8 right) ∙ lexicographic-utf8 left right h k in
    (e, λ z. lexicographic-same left right (sym e ∙ z))
