-- ===== src/Mcp/Cursors/Tests.antt =====
-- Cursors on a platform that reads one envelope and signs with one byte.
use Prim.Native.String.{String}
use skillplane.Common.Text.{split_on}
use skillplane.Common.{
  ℕ, ◌%◌, ◌≡◌, refl, Option, none, some, true, false, List, [], ◌∷◌, map, ok, err, All, arith,
  if◌then◌else◌, ◌||◌, str_eq, eq_iff, subst, Bool-cases, inl, inr,
}
use skillplane.Common.Sorting.{sort}
use skillplane.Common.Text.{codes, equal_units, str_lt}
use skillplane.Common.Json.{Json, Fields, null, obj, str, prop, end, property}
use skillplane.Mcp.Errors.{expired_cursor}
use skillplane.Mcp.Base64.{
  encode_base64_url, decode_base64_url, atob, btoa, pad_end, fill, drop_padding, values_of,
  value_of, bytes_of, char_of, strip_padding,
}
use skillplane.Mcp.Base64.Digits.{IsByte}
use skillplane.Mcp.Tokens.{
  Platform, stable_json, entry_texts, token_of, open_token, open_parts, present,
}
use skillplane.Mcp.Cursors.{encode, decode, accept, is_past, envelope, envelope_fields, hash}
use skillplane.Mcp.Cursors.Laws.{IsPlatform, IsSame, equal, objects, Reads, answer, decode-encode}
use skillplane.Mcp.Cursors.Signed.{IsSigned, decode-IsSigned, decode-trailing}

abbrev given : Fields
given = prop "updatedAt" (str "t5") (prop "id" (str "s9") end)

-- As `stableJson` sorts it.
abbrev boundary : Fields
boundary = prop "id" (str "s9") (prop "updatedAt" (str "t5") end)

abbrev written_text : String
written_text =
    "{boundary:{id:s9,updatedAt:t5},expiresAt:1,filterHash:h,purpose:skills_list,version:1}"

abbrev to_bytes : List ℕ → List ℕ
to_bytes = map (λ c. c % 256)

to_bytes-IsByte : (cs : List ℕ) → All IsByte (to_bytes cs)
to_bytes-IsByte [] = tt
to_bytes-IsByte (c ∷ cs) = (omega arith, to_bytes-IsByte cs)

abbrev written : Fields
written = envelope_fields (envelope 1000 "skills_list" "h" boundary)

-- The text above and a text of one byte are the envelope; another text is no JSON.
abbrev read_one : List ℕ → Option Json
read_one text =
    if equal_units text (to_bytes (codes written_text)) || equal_units text (1 ∷ [])
    then some (obj written)
    else none

abbrev platform : Platform
platform = record {
  quote = λ s. s;
  number_text = λ n. "1";
  precedes = str_lt;
  text_of = λ units. "h";
  utf8 = λ s. to_bytes (codes s);
  parse = read_one;
  sha256 = λ bytes. bytes;
  sign = λ secret body. 7 ∷ [];
  verify = λ secret signature body. equal_units signature (7 ∷ []);
  fraction_is_past = λ now. true;
}

platform-IsPlatform : IsPlatform platform
platform-IsPlatform = record {
  utf8_bytes = λ s. to_bytes-IsByte (codes s);
  parse_nil = refl;
  sign_bytes = λ secret body. (omega arith, tt);
  sign_ne = λ secret body e. cc;
  sign_verifies = λ secret body. refl;
}

property-IsSame : (key : String) → IsSame (property key boundary) (property key given)
property-IsSame key = elim (Bool-cases (str_eq "id" key)) [
  | inr n ↦ rw (property, n) (equal _)
  | inl y ↦
      let same : "id" ≡ key = (eq_iff "id" key).0 y in
      subst (λ k. IsSame (property k boundary) (property k given)) same (equal (str "s9"))
]

reads : Reads platform (envelope 1000 "skills_list" "h" given) written_text boundary
unfolding stable_json entry_texts sort str_lt
reads = record {
  read = written;
  printed = refl;
  parsed = refl;
  version = refl;
  purpose = refl;
  filter_hash = refl;
  expires_at = refl;
  boundary = refl;
  same = objects property-IsSame;
}

hash_test : hash platform null ≡ ok "h"
unfolding hash stable_json
hash_test = refl

hash_other_test : hash platform (str "q") ≡ ok "h"
unfolding hash stable_json
hash_other_test = refl

decode-encode_example :
    (encode platform "k" 1000 "skills_list" null given
      ≡ ok (token_of platform "k" (platform.utf8 written_text)))
    × (decode platform "k" 2000
          (token_of platform "k" (platform.utf8 written_text))
          "skills_list"
          null
        ≡ answer true false true boundary)
    × IsSame (obj boundary) (obj given)
decode-encode_example =
    decode-encode platform platform-IsPlatform "k" 1000 2000 "skills_list" "skills_list" "h" "h"
      written_text null null given boundary hash_test hash_test reads

-- "AQ.Bw"
abbrev cursor : List ℕ
cursor = b'A' ∷ b'Q' ∷ b'.' ∷ b'B' ∷ b'w' ∷ []

decode_test : decode platform "k" 2000 cursor "skills_list" null ≡ ok boundary
unfolding decode accept hash is_past stable_json open_token open_parts present split_on
    decode_base64_url atob pad_end fill drop_padding values_of value_of bytes_of encode_base64_url
    btoa strip_padding char_of
decode_test = refl

expired_test : decode platform "k" 901000 cursor "skills_list" null ≡ err expired_cursor
unfolding decode accept hash is_past stable_json open_token open_parts present split_on
    decode_base64_url atob pad_end fill drop_padding values_of value_of bytes_of encode_base64_url
    btoa strip_padding char_of
expired_test = refl

decode-IsSigned_example : IsSigned platform "k" 2000 cursor "skills_list" null boundary
decode-IsSigned_example =
    decode-IsSigned platform "k" 2000 cursor "skills_list" null boundary decode_test

decode-trailing_example :
    decode platform "k" 2000
      (b'A' ∷ b'Q' ∷ b'.' ∷ b'B' ∷ b'w' ∷ b'.' ∷ b'.' ∷ b'x' ∷ [])
      "skills_list"
      null
    ≡ decode platform "k" 2000 cursor "skills_list" null
decode-trailing_example =
    decode-trailing platform "k" 2000 (b'A' ∷ b'Q' ∷ []) (b'B' ∷ b'w' ∷ []) (b'x' ∷ [])
      "skills_list" null refl refl
