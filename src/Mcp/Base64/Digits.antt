-- ===== src/Mcp/Base64/Digits.antt =====
-- Characters and groups of six bits.
use skillplane.Common.{
  ℕ, ◌+◌, ◌*◌, ◌/◌, ◌%◌, ◌<◌, ◌≡◌, ◌≢◌, refl, subst, sym, inl, inr, Option-cases, some, true, false,
  List, [], ◌∷◌, map, length, All, all, ◌==◌, arith,
}
use skillplane.Mcp.Base64.{char_of, value_of, values_of, bytes_of, to_url, from_url, is_url_unit}

abbrev pub IsByte : ℕ → Type 0
IsByte b = b < 256

abbrev pub IsSextet : ℕ → Type 0
IsSextet n = n < 64

-- The character of six bits in the alphabet for addresses.
abbrev pub url_char : ℕ → ℕ
url_char n = to_url (char_of n)

pub value_of-char_of : (n : ℕ) → n < 64 → value_of (char_of n) ≡ some n
unfolding value_of char_of
value_of-char_of n h = ground arith

pub from_url-url_char : (n : ℕ) → n < 64 → from_url (url_char n) ≡ char_of n
unfolding char_of
from_url-url_char n h = ground arith

pub is_url_unit-url_char : (n : ℕ) → n < 64 → is_url_unit (url_char n) ≡ true
unfolding char_of
is_url_unit-url_char n h = ground arith

pub char_of-ne : (n : ℕ) → n < 64 → (char_of n == b'=') ≡ false
unfolding char_of
char_of-ne n h = ground arith

pub url_char-ne : (n : ℕ) → n < 64 → (url_char n == b'=') ≡ false
unfolding char_of
url_char-ne n h = ground arith

-- The six-bit groups that `btoa` writes as characters.
unfoldable pub sextets : List ℕ → List ℕ
sextets [] = []
sextets (a ∷ []) = (a / 4) ∷ (a % 4 * 16) ∷ []
sextets (a ∷ b ∷ []) = (a / 4) ∷ (a % 4 * 16 + b / 16) ∷ (b % 16 * 4) ∷ []
sextets (a ∷ b ∷ c ∷ rest) =
    (a / 4) ∷ (a % 4 * 16 + b / 16) ∷ (b % 16 * 4 + c / 64) ∷ (c % 64) ∷ sextets rest

pub sextets-IsSextet : (bs : List ℕ) → All IsByte bs → All IsSextet (sextets bs)
unfolding sextets
sextets-IsSextet [] h = tt
sextets-IsSextet (a ∷ []) (h, _) = omega arith
sextets-IsSextet (a ∷ b ∷ []) (h, (k, _)) = omega arith
sextets-IsSextet (a ∷ b ∷ c ∷ rest) (h, (k, (l, hs))) =
    (omega arith, (omega arith, (omega arith, (omega arith, sextets-IsSextet rest hs))))

pub length-sextets : (bs : List ℕ) → length (sextets bs) % 4 ≢ 1
unfolding sextets
length-sextets [] h = omega arith
length-sextets (a ∷ []) h = omega arith
length-sextets (a ∷ b ∷ []) h = omega arith
length-sextets (a ∷ b ∷ c ∷ rest) h = length-sextets rest (omega arith)

pub bytes_of-sextets : (bs : List ℕ) → All IsByte bs → bytes_of (sextets bs) ≡ bs
unfolding bytes_of sextets
bytes_of-sextets [] h = refl
bytes_of-sextets (a ∷ []) (h, _) = ground arith
bytes_of-sextets (a ∷ b ∷ []) (h, (k, _)) = ground arith
bytes_of-sextets (a ∷ b ∷ c ∷ rest) (h, (k, (l, hs))) = ground (arith, bytes_of-sextets rest hs)

pub bytes_of-IsByte : (vs : List ℕ) → All IsSextet vs → All IsByte (bytes_of vs)
unfolding bytes_of
bytes_of-IsByte [] h = tt
bytes_of-IsByte (a ∷ []) h = tt
bytes_of-IsByte (a ∷ b ∷ []) (h, (k, _)) = omega arith
bytes_of-IsByte (a ∷ b ∷ c ∷ []) (h, (k, (l, _))) = omega arith
bytes_of-IsByte (a ∷ b ∷ c ∷ d ∷ rest) (h, (k, (l, (m, hs)))) =
    (omega arith, (omega arith, (omega arith, bytes_of-IsByte rest hs)))

pub values_of-map : (vs : List ℕ) → All IsSextet vs → values_of (map char_of vs) ≡ some vs
unfolding values_of
values_of-map [] h = refl
values_of-map (v ∷ vs) (h, hs) = ground (arith, value_of-char_of v h, values_of-map vs hs)

value_of-IsSextet : (c v : ℕ) → value_of c ≡ some v → v < 64
unfolding value_of
value_of-IsSextet c v h = ground arith

pub values_of-IsSextet : (cs vs : List ℕ) → values_of cs ≡ some vs → All IsSextet vs
unfolding values_of
values_of-IsSextet [] vs h = let e : vs ≡ [] = cc in subst (All IsSextet) (sym e) tt
values_of-IsSextet (c ∷ cs) vs h = elim (Option-cases (value_of c)) [
  | inl e ↦ absurd (ground arith)
  | inr (v, e) ↦ elim (Option-cases (values_of cs)) [
    | inl f ↦ absurd (ground arith)
    | inr (ws, f) ↦
        let same : vs ≡ v ∷ ws = ground arith in
        subst (All IsSextet) (sym same) (value_of-IsSextet c v e, values_of-IsSextet cs ws f)
  ]
]

pub map-from_url : (vs : List ℕ) → All IsSextet vs → map from_url (map url_char vs) ≡ map char_of vs
map-from_url [] h = refl
map-from_url (v ∷ vs) (h, hs) = cc (from_url-url_char v h, map-from_url vs hs)

pub all-is_url_unit : (vs : List ℕ) → All IsSextet vs → all is_url_unit (map url_char vs) ≡ true
all-is_url_unit [] h = refl
all-is_url_unit (v ∷ vs) (h, hs) = rw (is_url_unit-url_char v h, all-is_url_unit vs hs)
