-- ===== src/Common/Json.antt =====
-- Values of type `unknown`: what `JSON.parse` and a caller may hand to the code.
use Prim.Native.Nat.{ℕ, ◌+◌, ◌-◌, ◌^◌}
use Prim.Native.String.{String}
use mathlib.Core.Bool.{Bool, false}
use mathlib.Core.List.{List, [], ◌∷◌}
use text.Mathlib.Text.{◌==◌ as str_eq}
use skillplane.Common.Int.{ℤ, pos, negsuc}
use skillplane.Common.Booleans.{leb, if◌then◌else◌}

-- A double: an integer, or any other value (a fraction, an infinity, NaN).
pub data Number : Type 0 where
  whole : ℤ → Number
  fractional : Number

mutual
  pub data Json : Type 0 where
    undefined null : Json
    bool : Bool → Json
    num : Number → Json
    str : String → Json
    arr : Items → Json
    obj : Fields → Json

  pub data Items : Type 0 where
    nil : Items
    cons : Json → Items → Items

  pub data Fields : Type 0 where
    end : Fields
    prop : String → Json → Fields → Fields

abbrev pub elements : Items → List Json
elements nil = []
elements (cons v vs) = v ∷ elements vs

-- `Object.keys(o)`
abbrev pub keys : Fields → List String
keys end = []
keys (prop k v fs) = k ∷ keys fs

-- `o.key`
abbrev pub property : String → Fields → Json
property key end = undefined
property key (prop k v fs) = if str_eq k key then v else property key fs

abbrev pub max_safe_integer : ℕ
max_safe_integer = 2 ^ 53 - 1

-- `Number.isSafeInteger(v)`
abbrev pub is_safe_integer : Json → Bool
is_safe_integer (num (whole (pos n))) = leb n max_safe_integer
is_safe_integer (num (whole (negsuc n))) = leb (n + 1) max_safe_integer
is_safe_integer _ = false
