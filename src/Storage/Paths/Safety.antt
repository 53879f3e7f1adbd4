-- ===== src/Storage/Paths/Safety.antt =====
-- What a bundle path that is let through must be.
use skillplane.Common.{
  ℕ, ◌≤◌, ◌≡◌, refl, Bool, true, false, ◌||◌, ◌⊎◌, List, [], ◌∷◌, length, any, inl, inr,
  if◌then◌else◌, arith, Bool-cases, ok,
}
use skillplane.Common.Text.{codes, equal_units, split_on}
use skillplane.Storage.Paths.{
  normalize_bundle_path, check_path, is_misplaced, is_bad_segment, utf8, drop_slash, member,
  root_files, optional_roots, root_of, instructions_entrypoint, is_empty,
}

-- Where a path leads from a directory, given as the list of the names above it, the innermost first.
abbrev pub parent : List (List ℕ) → List (List ℕ)
parent [] = []
parent (name ∷ names) = names

unfoldable pub walk : List (List ℕ) → List (List ℕ) → List (List ℕ)
walk here [] = here
walk here (segment ∷ segments) =
    let up = walk (parent here) segments in
    let stay = walk here segments in
    let down = walk (segment ∷ here) segments in
    if equal_units segment (codes "..")
    then up
    else if is_empty segment || equal_units segment (codes ".")
    then stay
    else down

abbrev pub reverse_onto : List (List ℕ) → List (List ℕ) → List (List ℕ)
reverse_onto [] here = here
reverse_onto (segment ∷ segments) here = reverse_onto segments (segment ∷ here)

walk-reverse_onto :
    (here segments : List (List ℕ))
    → any is_bad_segment segments ≡ false
    → walk here segments ≡ reverse_onto segments here
unfolding walk
walk-reverse_onto here [] h = refl
walk-reverse_onto here (segment ∷ segments) h =
    ground (arith, walk-reverse_onto (segment ∷ here) segments)

-- What a path that is let through is.
pub record IsBundlePath (directory allow_instructions : Bool) (path : List ℕ) : Type 0 where
  pub inside :
      (here : List (List ℕ))
      → walk here (split_on b'/' path) ≡ reverse_onto (split_on b'/' path) here
  pub short : length (utf8 path) ≤ 240
  pub placed :
      (member optional_roots (root_of (split_on b'/' path)) ≡ true)
      ⊎ ((directory ≡ false)
          × ((member root_files path ≡ true)
              ⊎ ((allow_instructions ≡ true) × (equal_units path instructions_entrypoint ≡ true))))

split_on-ne_nil : (c : ℕ) (xs : List ℕ) → 1 ≤ length (split_on c xs)
unfolding split_on
split_on-ne_nil c [] = omega arith
split_on-ne_nil c (x ∷ xs) = ground (arith, split_on-ne_nil c xs)

placed_lem :
    (directory allow_instructions : Bool) (path : List ℕ) (segments : List (List ℕ))
    → 1 ≤ length segments
    → is_misplaced directory allow_instructions path segments ≡ false
    → (member optional_roots (root_of segments) ≡ true)
      ⊎ ((directory ≡ false)
          × ((member root_files path ≡ true)
              ⊎ ((allow_instructions ≡ true) × (equal_units path instructions_entrypoint ≡ true))))
unfolding is_misplaced
placed_lem directory allow path segments n h =
    elim (Bool-cases (member optional_roots (root_of segments))) [
      | inl e ↦ inl e
      | inr e ↦ elim (Bool-cases (member root_files path)) [
        | inl f ↦ inr (ground arith, inl f)
        | inr f ↦ inr (ground arith, inr (ground arith, ground arith))
      ]
    ]

check_path-IsBundlePath :
    (directory allow_instructions : Bool) (path p : List ℕ)
    → check_path directory allow_instructions path ≡ ok p
    → (p ≡ path) × IsBundlePath directory allow_instructions path
unfolding check_path
check_path-IsBundlePath directory allow_instructions path p h = (
  ground arith,
  record {
    inside = λ here. walk-reverse_onto here (split_on b'/' path) (ground arith);
    short = ground arith;
    placed =
        placed_lem directory allow_instructions path (split_on b'/' path)
          (split_on-ne_nil b'/' path) (ground arith);
  },
)

-- A path that is let through leads, from every directory, straight down through its own segments; it
-- has at most 240 bytes, and begins with an optional root or is a root file of a bundle or, where that
-- is allowed, the document of an instructions artifact.
pub normalize_bundle_path-IsBundlePath :
    (nfc : List ℕ → List ℕ) (input : List ℕ) (directory allow_instructions : Bool) (p : List ℕ)
    → normalize_bundle_path nfc input directory allow_instructions ≡ ok p
    → IsBundlePath directory allow_instructions p
unfolding normalize_bundle_path
normalize_bundle_path-IsBundlePath nfc input directory allow_instructions p h =
    let path = if directory then drop_slash (nfc input) else nfc input in
    let e : check_path directory allow_instructions path ≡ ok p = ground arith in
    let (same, bundle) = check_path-IsBundlePath directory allow_instructions path p e in
    rw same bundle
