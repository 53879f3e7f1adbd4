-- ===== src/Mcp/Tokens/Laws.antt =====
-- What a token is opened to.
use skillplane.Common.Text.{split_on}
use skillplane.Common.{
  ℕ, ◌<◌, String, ◌≡◌, ◌≢◌, refl, sym, ap, ◌∙◌, inl, inr, Option, none, some, Bool, true, false,
  not, List, [], ◌∷◌, ◌++◌, map, All, all, get_elem?, ◌==◌, arith, ok, Result-cases,
}
use skillplane.Mcp.Base64.{char_of, encode_base64_url, decode_base64_url}
use skillplane.Mcp.Base64.Digits.{IsByte, IsSextet, url_char, sextets, sextets-IsSextet}
use skillplane.Mcp.Base64.Padding.{encode-eq-map}
use skillplane.Mcp.Base64.Laws.{decode-encode, decode_base64_url_iff}
use skillplane.Mcp.Tokens.{Platform, split_dots, present, token_of, open_parts, open_token}

abbrev pub is_dotless : List ℕ → Bool
is_dotless = all (λ c. not (c == b'.'))

pub split_dots-dotless : (xs : List ℕ) → is_dotless xs ≡ true → split_dots xs ≡ xs ∷ []
unfolding split_on
split_dots-dotless [] h = refl
split_dots-dotless (c ∷ cs) h = ground (arith, split_dots-dotless cs)

pub split_dots-append :
    (xs rest : List ℕ)
    → is_dotless xs ≡ true
    → split_dots (xs ++ (b'.' ∷ rest)) ≡ xs ∷ split_dots rest
unfolding split_on
split_dots-append [] rest h = refl
split_dots-append (c ∷ cs) rest h = ground (arith, split_dots-append cs rest)

split_dots-pair :
    (xs ys : List ℕ)
    → is_dotless xs ≡ true
    → is_dotless ys ≡ true
    → split_dots (xs ++ (b'.' ∷ ys)) ≡ xs ∷ ys ∷ []
split_dots-pair xs ys h k = split_dots-append xs ys h ∙ ap (◌∷◌ xs) (split_dots-dotless ys k)

split_dots-trailing :
    (xs ys tail : List ℕ)
    → is_dotless xs ≡ true
    → is_dotless ys ≡ true
    → split_dots (xs ++ (b'.' ∷ ys ++ (b'.' ∷ b'.' ∷ tail))) ≡ xs ∷ ys ∷ [] ∷ split_dots tail
unfolding split_on
split_dots-trailing xs ys tail h k =
    split_dots-append xs (ys ++ (b'.' ∷ b'.' ∷ tail)) h
    ∙ ap (◌∷◌ xs) (split_dots-append ys (b'.' ∷ tail) k)

url_char-ne_dot : (n : ℕ) → n < 64 → (url_char n == b'.') ≡ false
unfolding char_of
url_char-ne_dot n h = ground arith

map-is_dotless : (vs : List ℕ) → All IsSextet vs → is_dotless (map url_char vs) ≡ true
map-is_dotless [] h = refl
map-is_dotless (v ∷ vs) (h, hs) = rw (url_char-ne_dot v h, map-is_dotless vs hs)

pub encode-is_dotless : (bs : List ℕ) → All IsByte bs → is_dotless (encode_base64_url bs) ≡ true
encode-is_dotless bs h =
    rw (encode-eq-map bs h) (map-is_dotless (sextets bs) (sextets-IsSextet bs h))

present-encode :
    (bs : List ℕ) → All IsByte bs → bs ≢ [] → present (some (encode_base64_url bs)) ≡ true
unfolding present sextets
present-encode [] hs h = absurd (h refl)
present-encode (a ∷ []) hs h = rw (encode-eq-map (a ∷ []) hs)
present-encode (a ∷ b ∷ []) hs h = rw (encode-eq-map (a ∷ b ∷ []) hs)
present-encode (a ∷ b ∷ c ∷ rest) hs h = rw (encode-eq-map (a ∷ b ∷ c ∷ rest) hs)

module _ {E : Type 0} (p : Platform) (secret : String) (thrown : E) where
  open_token-eq :
      (token : List ℕ) (parts : List (List ℕ))
      → split_dots token ≡ parts
      → open_token p secret thrown token
        ≡ open_parts p secret thrown (get_elem? parts 0) (get_elem? parts 1) (get_elem? parts 2)
  unfolding open_token
  open_token-eq token parts e = rw e

  open_parts-ok :
      (body signature first second : List ℕ)
      → present (some first) ≡ true
      → present (some second) ≡ true
      → decode_base64_url thrown first ≡ ok body
      → decode_base64_url thrown second ≡ ok signature
      → p.verify secret signature body ≡ true
      → open_parts p secret thrown (some first) (some second) none ≡ ok body
  unfolding open_parts present
  open_parts-ok body signature first second a b c d e = ground arith

  -- What the parts of a token that is opened are.
  open_parts-IsSigned :
      (first second extra : Option (List ℕ)) (body : List ℕ)
      → open_parts p secret thrown first second extra ≡ ok body
      → (signature : List ℕ) × (first ≡ some (encode_base64_url body))
        × (second ≡ some (encode_base64_url signature))
        × (present extra ≡ false)
        × (p.verify secret signature body ≡ true)
  unfolding open_parts present
  open_parts-IsSigned none second extra body h = absurd (cc)
  open_parts-IsSigned (some first) none extra body h = absurd (ground arith)
  open_parts-IsSigned (some first) (some second) extra body h =
      elim (Result-cases (decode_base64_url thrown first)) [
        | inr (x, e) ↦ absurd (ground arith)
        | inl (b, e) ↦ elim (Result-cases (decode_base64_url thrown second)) [
          | inr (x, f) ↦ absurd (ground arith)
          | inl (signature, f) ↦
              let same : b ≡ body = ground arith in
              let bytes = ((decode_base64_url_iff thrown first b).0 e).2 in
              (
                signature,
                ap some (sym bytes ∙ ap encode_base64_url same),
                ap some (sym ((decode_base64_url_iff thrown second signature).0 f).2),
                ground arith,
                ground arith,
              )
        ]
      ]

  -- A token whose signature verifies is opened to what was signed.
  pub open_token-token_of :
      (body : List ℕ)
      → All IsByte body
      → body ≢ []
      → All IsByte (p.sign secret body)
      → p.sign secret body ≢ []
      → p.verify secret (p.sign secret body) body ≡ true
      → open_token p secret thrown (token_of p secret body) ≡ ok body
  unfolding token_of
  open_token-token_of body hs h ks k verified =
      let signature = p.sign secret body in
      open_token-eq (token_of p secret body)
        (encode_base64_url body ∷ encode_base64_url signature ∷ [])
        (split_dots-pair (encode_base64_url body) (encode_base64_url signature)
          (encode-is_dotless body hs) (encode-is_dotless signature ks))
      ∙ open_parts-ok body signature (encode_base64_url body) (encode_base64_url signature)
          (present-encode body hs h) (present-encode signature ks k)
          (decode-encode thrown body hs h) (decode-encode thrown signature ks k) verified

  -- The parts of a token that is opened are the texts of its bytes and of a signature of theirs.
  pub open_token-IsSigned :
      (token body : List ℕ)
      → open_token p secret thrown token ≡ ok body
      → (signature : List ℕ) × (get_elem? (split_dots token) 0 ≡ some (encode_base64_url body))
        × (get_elem? (split_dots token) 1 ≡ some (encode_base64_url signature))
        × (present (get_elem? (split_dots token) 2) ≡ false)
        × (p.verify secret signature body ≡ true)
  unfolding open_token
  open_token-IsSigned token body h =
      open_parts-IsSigned (get_elem? (split_dots token) 0) (get_elem? (split_dots token) 1)
        (get_elem? (split_dots token) 2) body h

  -- A part behind an empty third part is not read.
  pub open_token-trailing :
      (first second tail : List ℕ)
      → is_dotless first ≡ true
      → is_dotless second ≡ true
      → open_token p secret thrown (first ++ (b'.' ∷ second ++ (b'.' ∷ b'.' ∷ tail)))
        ≡ open_token p secret thrown (first ++ (b'.' ∷ second))
  unfolding open_parts present
  open_token-trailing first second tail h k =
      open_token-eq (first ++ (b'.' ∷ second ++ (b'.' ∷ b'.' ∷ tail)))
        (first ∷ second ∷ [] ∷ split_dots tail) (split_dots-trailing first second tail h k)
      ∙ sym (
          open_token-eq (first ++ (b'.' ∷ second)) (first ∷ second ∷ [])
            (split_dots-pair first second h k))
