-- ===== src/Common/Text.antt =====
-- JavaScript strings: the length and the order by UTF-16 units, and `trim`.
use Prim.Native.Nat.{ℕ, ◌+◌, ◌-◌, ◌/◌, ◌%◌}
use Prim.Native.Char.{code}
use Prim.Native.String.{String}
use mathlib.Core.Path.{◌≡◌, refl}
use native.Mathlib.Omega.{arith}
use mathlib.Core.Bool.{Bool, true, false, ◌&&◌, ◌||◌}
use mathlib.Core.List.{List, [], ◌∷◌, ◌++◌}
use skillplane.Common.Booleans.{ltb, leb, ◌==◌, if◌then◌else◌}
use skillplane.Common.Lists.{length}

abbrev pub codes : String → List ℕ
codes String.[] = []
codes (String.◌∷◌ c s) = code c ∷ codes s

-- The UTF-16 units of a code point.
units_of : ℕ → List ℕ
units_of c =
    if ltb c 65536 then c ∷ [] else (55296 + (c - 65536) / 1024) ∷ (56320 + (c - 65536) % 1024) ∷ []

units : String → List ℕ
unfolding units_of
units String.[] = []
units (String.◌∷◌ c s) = units_of (code c) ++ units s

-- `s.length`
unfoldable pub js_length : String → ℕ
unfolding units
js_length s = length (units s)

-- The white space and line terminators of ECMAScript.
unfoldable pub is_space : ℕ → Bool
is_space c =
    (leb 9 c && leb c 13)
    || c == 32
    || c == 160
    || c == 5760
    || (leb 8192 c && leb c 8202)
    || c == 8232
    || c == 8233
    || c == 8239
    || c == 8287
    || c == 12288
    || c == 65279

trim_start : String → String
unfolding is_space
trim_start String.[] = String.[]
trim_start (String.◌∷◌ c s) =
    let rest = trim_start s in if is_space (code c) then rest else String.◌∷◌ c s

-- `trimEnd`: a character stays when it or one after it is no white space.
trim_end : String → String
unfolding is_space
trim_end String.[] = String.[]
trim_end (String.◌∷◌ c s) =
    let rest = trim_end s in
    elim rest [
      | String.[] ↦ if is_space (code c) then String.[] else String.◌∷◌ c String.[]
      | String.◌∷◌ d t ↦ String.◌∷◌ c (String.◌∷◌ d t)
    ]

-- `s.trim()`
unfoldable pub trim : String → String
unfolding trim_start trim_end
trim s = trim_end (trim_start s)

-- The order of `Array.prototype.sort` on strings: by UTF-16 units.
lt_units : List ℕ → List ℕ → Bool
lt_units [] [] = false
lt_units [] (_ ∷ _) = true
lt_units (_ ∷ _) [] = false
lt_units (a ∷ as') (b ∷ bs) =
    let rest = lt_units as' bs in if ltb a b then true else if ltb b a then false else rest

-- `a < b` on strings
unfoldable pub str_lt : String → String → Bool
unfolding lt_units units
str_lt a b = lt_units (units a) (units b)

-- `a === b` on texts as units
abbrev pub equal_units : List ℕ → List ℕ → Bool
equal_units [] [] = true
equal_units (a ∷ xs) (b ∷ ys) = a == b && equal_units xs ys
equal_units _ _ = false

-- `text.split(separator)` at one unit
unfoldable pub split_on : ℕ → List ℕ → List (List ℕ)
split_on separator [] = [] ∷ []
split_on separator (c ∷ cs) =
    let rest = split_on separator cs in
    if c == separator
    then [] ∷ rest
    else elim rest [ [] ↦ (c ∷ []) ∷ [] | part ∷ parts ↦ (c ∷ part) ∷ parts ]

pub equal_units_refl : (xs : List ℕ) → equal_units xs xs ≡ true
equal_units_refl [] = refl
equal_units_refl (x ∷ xs) = ground (arith, equal_units_refl xs)

pub equal_units→eq : (xs ys : List ℕ) → equal_units xs ys ≡ true → xs ≡ ys
equal_units→eq [] [] h = refl
equal_units→eq [] (y ∷ ys) h = cc
equal_units→eq (x ∷ xs) [] h = cc
equal_units→eq (x ∷ xs) (y ∷ ys) h = ground (arith, equal_units→eq xs ys)
