-- ===== src/Mcp/Base64/Tests.antt =====
-- The encoding at bytes that were worked out by hand.
use skillplane.Common.{◌↔◌, ◌≢◌, All, List, ℕ, ◌≡◌, refl, [], ◌∷◌, ok, err}
use skillplane.Mcp.Base64.Digits.{IsByte}
use skillplane.Mcp.Base64.Laws.{decode_base64_url_iff}
use skillplane.Mcp.Errors.{invalid_cursor}
use skillplane.Mcp.Base64.{
  encode_base64_url, decode_base64_url, atob, btoa, pad_end, fill, drop_padding, values_of,
  value_of, bytes_of, char_of, strip_padding,
}

encode_test :
    encode_base64_url (251 ∷ 255 ∷ 77 ∷ 97 ∷ []) ≡ b'-' ∷ b'_' ∷ b'9' ∷ b'N' ∷ b'Y' ∷ b'Q' ∷ []
unfolding encode_base64_url btoa strip_padding char_of
encode_test = refl

decode_test :
    decode_base64_url invalid_cursor (b'-' ∷ b'_' ∷ b'9' ∷ b'N' ∷ b'Y' ∷ b'Q' ∷ [])
    ≡ ok (251 ∷ 255 ∷ 77 ∷ 97 ∷ [])
unfolding decode_base64_url atob pad_end fill drop_padding values_of value_of bytes_of
    encode_base64_url btoa strip_padding char_of
decode_test = refl

-- The last character holds bits that no byte takes.
loose_test : decode_base64_url invalid_cursor (b'Y' ∷ b'R' ∷ []) ≡ err invalid_cursor
unfolding decode_base64_url atob pad_end fill drop_padding values_of value_of bytes_of
    encode_base64_url btoa strip_padding char_of
loose_test = refl

decode_base64_url_iff_example :
    (decode_base64_url invalid_cursor (b'Y' ∷ b'R' ∷ []) ≡ ok (97 ∷ [])) ↔ (
      (◌≢◌ {A = List ℕ} (97 ∷ []) [])
      × All IsByte (97 ∷ [])
      × (encode_base64_url (97 ∷ []) ≡ b'Y' ∷ b'R' ∷ []))
decode_base64_url_iff_example = decode_base64_url_iff invalid_cursor (b'Y' ∷ b'R' ∷ []) (97 ∷ [])
