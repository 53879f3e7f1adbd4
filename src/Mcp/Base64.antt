-- ===== src/Mcp/Base64.antt =====
-- `encodeBase64Url` and `decodeBase64Url` of mcp/src/pagination.ts, with the `btoa` and `atob` of the
-- language. Bytes and texts are lists of numbers: a text is the list of its UTF-16 units.
pub mod Digits
pub mod Padding
pub mod Laws
mod Tests
use skillplane.Common.Text.{equal_units}
use skillplane.Common.{
  ℕ, zero, suc, ◌+◌, ◌-◌, ◌*◌, ◌/◌, ◌%◌, Option, none, some, Bool, true, false, not, ◌&&◌, ◌||◌,
  List, [], ◌∷◌, ◌++◌, map, length, all, leb, ltb, ◌==◌, if◌then◌else◌, Result, ok, err,
}

-- The character of six bits: `A-Z`, `a-z`, `0-9`, `+` and `/`.
unfoldable pub char_of : ℕ → ℕ
char_of n =
    if ltb n 26
    then 65 + n
    else if ltb n 52
    then 71 + n
    else if ltb n 62
    then n - 4
    else if n == 62
    then b'+'
    else b'/'

unfoldable pub value_of : ℕ → Option ℕ
value_of c =
    if leb 65 c && leb c 90
    then some (c - 65)
    else if leb 97 c && leb c 122
    then some (c - 71)
    else if leb 48 c && leb c 57
    then some (c + 4)
    else if c == b'+'
    then some 62
    else if c == b'/'
    then some 63
    else none

-- `btoa`: three bytes become four characters, and `=` fills the last four.
unfoldable pub btoa : List ℕ → List ℕ
btoa [] = []
btoa (a ∷ []) = char_of (a / 4) ∷ char_of (a % 4 * 16) ∷ b'=' ∷ b'=' ∷ []
btoa (a ∷ b ∷ []) =
    char_of (a / 4) ∷ char_of (a % 4 * 16 + b / 16) ∷ char_of (b % 16 * 4) ∷ b'=' ∷ []
btoa (a ∷ b ∷ c ∷ rest) =
    char_of (a / 4)
    ∷ char_of (a % 4 * 16 + b / 16)
    ∷ char_of (b % 16 * 4 + c / 64)
    ∷ char_of (c % 64)
    ∷ btoa rest

-- Without one or two `=` at the end.
unfoldable pub drop_padding : List ℕ → List ℕ
drop_padding [] = []
drop_padding (a ∷ []) = if a == b'=' then [] else a ∷ []
drop_padding (a ∷ b ∷ []) = if b == b'=' then if a == b'=' then [] else a ∷ [] else a ∷ b ∷ []
drop_padding (a ∷ b ∷ c ∷ rest) = a ∷ drop_padding (b ∷ c ∷ rest)

unfoldable pub values_of : List ℕ → Option (List ℕ)
values_of [] = some []
values_of (c ∷ cs) = elim (value_of c) [
  | none ↦ none
  | some v ↦ elim (values_of cs) [ none ↦ none | some vs ↦ some (v ∷ vs) ]
]

-- The bytes of groups of six bits; what is left of the last group is discarded.
unfoldable pub bytes_of : List ℕ → List ℕ
bytes_of (a ∷ b ∷ c ∷ d ∷ rest) =
    (a * 4 + b / 16) ∷ (b % 16 * 16 + c / 4) ∷ (c % 4 * 64 + d) ∷ bytes_of rest
bytes_of (a ∷ b ∷ c ∷ []) = (a * 4 + b / 16) ∷ (b % 16 * 16 + c / 4) ∷ []
bytes_of (a ∷ b ∷ []) = (a * 4 + b / 16) ∷ []
bytes_of (a ∷ []) = []
bytes_of [] = []

-- `atob` of a text without white space, or `none` where it throws.
unfoldable pub atob : List ℕ → Option (List ℕ)
atob text =
    let characters = if length text % 4 == 0 then drop_padding text else text in
    if length characters % 4 == 1
    then none
    else elim (values_of characters) [ none ↦ none | some values ↦ some (bytes_of values) ]

-- `.replaceAll("+", "-").replaceAll("/", "_")`
abbrev pub to_url : ℕ → ℕ
to_url c = if c == b'+' then b'-' else if c == b'/' then b'_' else c

-- `.replaceAll("-", "+").replaceAll("_", "/")`
abbrev pub from_url : ℕ → ℕ
from_url c = if c == b'-' then b'+' else if c == b'_' then b'/' else c

-- `.replace(/=+$/u, "")`
unfoldable pub strip_padding : List ℕ → List ℕ
strip_padding [] = []
strip_padding (c ∷ cs) =
    let rest = strip_padding cs in
    elim rest [ [] ↦ if c == b'=' then [] else c ∷ [] | d ∷ ds ↦ c ∷ d ∷ ds ]

unfoldable pub encode_base64_url : List ℕ → List ℕ
encode_base64_url bytes = strip_padding (map to_url (btoa bytes))

-- `[A-Za-z0-9_-]`
abbrev pub is_url_unit : ℕ → Bool
is_url_unit c =
    (leb 65 c && leb c 90)
    || (leb 97 c && leb c 122)
    || (leb 48 c && leb c 57)
    || c == b'_'
    || c == b'-'

-- `/^[A-Za-z0-9_-]+$/u`
abbrev pub is_url_text : List ℕ → Bool
is_url_text [] = false
is_url_text (c ∷ cs) = is_url_unit c && all is_url_unit cs

unfoldable pub fill : ℕ → List ℕ
fill zero = []
fill (suc n) = b'=' ∷ fill n

-- `base64.padEnd(Math.ceil(base64.length / 4) * 4, "=")`
unfoldable pub pad_end : List ℕ → List ℕ
pad_end text = text ++ fill ((length text + 3) / 4 * 4 - length text)

-- The bytes, unless they have another text than the one that they came from.
abbrev pub canonical : {E : Type 0} → E → List ℕ → Option (List ℕ) → Result E (List ℕ)
canonical thrown value none = err thrown
canonical thrown value (some bytes) =
    if equal_units (encode_base64_url bytes) value then ok bytes else err thrown

-- `decodeBase64Url`, and `decode` of mcp/src/downloads.ts, which throws another error.
unfoldable pub decode_base64_url : {E : Type 0} → E → List ℕ → Result E (List ℕ)
decode_base64_url thrown value =
    if is_url_text value
    then canonical thrown value (atob (pad_end (map from_url value)))
    else err thrown
