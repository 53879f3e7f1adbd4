-- ===== src/Storage/Paths.antt =====
-- packages/storage/src/paths.ts. A text is the list of its code points,
-- an unpaired surrogate being one; `normalize("NFC")` is an
-- argument.
pub mod Order
pub mod Safety
mod Tests
use skillplane.Common.{
  ℕ, ◌+◌, ◌-◌, ◌/◌, ◌%◌, Option, none, some, Bool, true, false, not, ◌&&◌, ◌||◌, List, [], ◌∷◌,
  ◌++◌, length, any, leb, ltb, ◌==◌, if◌then◌else◌, Result, ok, err, ◌>>◌, require,
}
use skillplane.Common.Int.{ℤ, sub_ℕ}
use skillplane.Common.Text.{codes, equal_units, split_on}

-- The bytes of a code point that is no surrogate.
unfoldable pub utf8_scalar : ℕ → List ℕ
utf8_scalar c =
    if ltb c 128
    then c ∷ []
    else if ltb c 2048
    then (192 + c / 64) ∷ (128 + c % 64) ∷ []
    else if ltb c 65536
    then (224 + c / 4096) ∷ (128 + c / 64 % 64) ∷ (128 + c % 64) ∷ []
    else (240 + c / 262144) ∷ (128 + c / 4096 % 64) ∷ (128 + c / 64 % 64) ∷ (128 + c % 64) ∷ []

abbrev pub is_surrogate : ℕ → Bool
is_surrogate c = leb 55296 c && leb c 57343

-- `encoder.encode` of one code point. The encoder replaces an unpaired surrogate by U+FFFD.
unfoldable pub utf8_of : ℕ → List ℕ
utf8_of c = if is_surrogate c then 239 ∷ 191 ∷ 189 ∷ [] else utf8_scalar c

-- `encoder.encode(text)`
unfoldable pub utf8 : List ℕ → List ℕ
utf8 [] = []
utf8 (c ∷ cs) = utf8_of c ++ utf8 cs

unfoldable pub member : List (List ℕ) → List ℕ → Bool
member set text = any (equal_units text) set

-- `ROOT_FILES`
abbrev pub root_files : List (List ℕ)
root_files =
    codes "SKILL.md"
    ∷ codes "skill.json"
    ∷ codes "skill.lock.json"
    ∷ codes "LICENSE"
    ∷ codes "LICENSE.txt"
    ∷ codes "README.md"
    ∷ []

-- `OPTIONAL_ROOTS`
abbrev pub optional_roots : List (List ℕ)
optional_roots =
    codes "assets"
    ∷ codes "references"
    ∷ codes "scripts"
    ∷ codes "verification"
    ∷ codes "templates"
    ∷ codes "agents"
    ∷ []

abbrev pub instructions_entrypoint : List ℕ
instructions_entrypoint = codes "AGENTS.md"

-- A `BundlePathError`, with the messages that the code tells apart.
pub data BundlePathError : Type 0 where
  is_invalid is_absolute is_traversing is_too_long is_unsupported is_no_directory : BundlePathError

abbrev pub starts_with_slash : List ℕ → Bool
starts_with_slash [] = false
starts_with_slash (c ∷ cs) = c == b'/'

-- `/^[A-Za-z]:/`
abbrev pub has_drive : List ℕ → Bool
has_drive (c ∷ d ∷ cs) = ((leb 65 c && leb c 90) || (leb 97 c && leb c 122)) && d == b':'
has_drive _ = false

abbrev pub is_empty : List ℕ → Bool
is_empty [] = true
is_empty (c ∷ cs) = false

-- Without one `/` at the end.
unfoldable pub drop_slash : List ℕ → List ℕ
drop_slash [] = []
drop_slash (c ∷ []) = if c == b'/' then [] else c ∷ []
drop_slash (c ∷ d ∷ cs) = c ∷ drop_slash (d ∷ cs)

abbrev pub is_bad_segment : List ℕ → Bool
is_bad_segment segment =
    is_empty segment
    || equal_units segment (codes ".")
    || equal_units segment (codes "..")
    || equal_units segment (codes "~")

abbrev pub root_of : List (List ℕ) → List ℕ
root_of [] = []
root_of (segment ∷ segments) = segment

-- The test of the top-level entry.
unfoldable pub is_misplaced : Bool → Bool → List ℕ → List (List ℕ) → Bool
is_misplaced directory allow_instructions path segments =
    (not directory
      && length segments == 1
      && not (member root_files path)
      && not (allow_instructions && equal_units path instructions_entrypoint))
    || (ltb 1 (length segments) && not (member optional_roots (root_of segments)))
    || (directory && not (member optional_roots (root_of segments)))

-- The tests of a path without its directory suffix.
unfoldable pub check_path : Bool → Bool → List ℕ → Result BundlePathError (List ℕ)
check_path directory allow_instructions path = do
  require (not (any is_bad_segment (split_on b'/' path))) is_traversing
  require (leb (length (utf8 path)) 240) is_too_long
  require (not (is_misplaced directory allow_instructions path (split_on b'/' path))) is_unsupported
  require (not (not directory && member optional_roots path)) is_no_directory
  ok path

-- `normalizeBundlePath(input, directory, { allowInstructionsEntrypoint })`
unfoldable pub normalize_bundle_path :
    (List ℕ → List ℕ) → List ℕ → Bool → Bool → Result BundlePathError (List ℕ)
normalize_bundle_path nfc input directory allow_instructions = do
  require (not (is_empty input || any (λ c. c == 0) input || any (λ c. c == 92) input)) is_invalid
  require (not (starts_with_slash (nfc input) || has_drive (nfc input))) is_absolute
  check_path directory allow_instructions (if directory then drop_slash (nfc input) else nfc input)

-- The first difference of two lists of bytes, as far as both go.
unfoldable pub difference : List ℕ → List ℕ → Option ℤ
difference (x ∷ xs) (y ∷ ys) =
    let rest = difference xs ys in if x == y then rest else some (sub_ℕ x y)
difference _ _ = none

abbrev pub or_lengths : List ℕ → List ℕ → Option ℤ → ℤ
or_lengths a b none = sub_ℕ (length a) (length b)
or_lengths a b (some d) = d

unfoldable pub bytewise_path_compare : List ℕ → List ℕ → ℤ
bytewise_path_compare left right =
    or_lengths (utf8 left) (utf8 right) (difference (utf8 left) (utf8 right))
