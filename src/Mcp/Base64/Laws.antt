-- ===== src/Mcp/Base64/Laws.antt =====
-- What the encoding and its decoding are to one another.
use skillplane.Common.Text.{equal_units, equal_units_refl, equal_units→eq}
use skillplane.Common.{
  ℕ, ◌%◌, ◌≡◌, ◌≢◌, ◌↔◌, refl, subst, sym, ap, ◌∙◌, inl, inr, some, Option-cases, Bool-cases, true,
  List, [], ◌∷◌, map, length, All, ◌==◌, arith, ok, if◌then◌else◌,
}
use skillplane.Mcp.Base64.{
  btoa, atob, drop_padding, strip_padding, pad_end, from_url, is_url_text, equal_units,
  encode_base64_url, decode_base64_url, values_of, bytes_of,
}
use skillplane.Mcp.Base64.Digits.{
  IsByte, IsSextet, url_char, sextets, sextets-IsSextet, length-sextets, bytes_of-sextets,
  bytes_of-IsByte, values_of-IsSextet, map-from_url, all-is_url_unit,
}
use skillplane.Mcp.Base64.Padding.{encode-eq-map, atob-pad_end}

is_url_text-map : (vs : List ℕ) → All IsSextet vs → vs ≢ [] → is_url_text (map url_char vs) ≡ true
is_url_text-map [] hs h = absurd (h refl)
is_url_text-map (v ∷ vs) hs h = all-is_url_unit (v ∷ vs) hs

sextets-ne-nil : (bs : List ℕ) → bs ≢ [] → sextets bs ≢ []
unfolding sextets
sextets-ne-nil [] h e = h e
sextets-ne-nil (a ∷ []) h e = cc
sextets-ne-nil (a ∷ b ∷ []) h e = cc
sextets-ne-nil (a ∷ b ∷ c ∷ rest) h e = cc

decode-eq :
    {E : Type 0} (thrown : E) (value bs : List ℕ)
    → is_url_text value ≡ true
    → atob (pad_end (map from_url value)) ≡ some bs
    → encode_base64_url bs ≡ value
    → decode_base64_url thrown value ≡ ok bs
unfolding decode_base64_url
decode-eq thrown value bs allowed read same = rw (allowed, read, same, equal_units_refl value) refl

pub decode-encode :
    {E : Type 0} (thrown : E) (bs : List ℕ)
    → All IsByte bs
    → bs ≢ []
    → decode_base64_url thrown (encode_base64_url bs) ≡ ok bs
decode-encode thrown bs hs h =
    let ss = sextets-IsSextet bs hs in
    rw (encode-eq-map bs hs) (
      decode-eq thrown (map url_char (sextets bs)) bs
        (is_url_text-map (sextets bs) ss (sextets-ne-nil bs h))
        (rw (map-from_url (sextets bs) ss)
          (atob-pad_end (sextets bs) ss (length-sextets bs) ∙ ap some (bytes_of-sextets bs hs)))
        (encode-eq-map bs hs))

atob-IsByte : (text bs : List ℕ) → atob text ≡ some bs → All IsByte bs
unfolding atob
atob-IsByte text bs h =
    let cs = if length text % 4 == 0 then drop_padding text else text in
    elim (Bool-cases (length cs % 4 == 1)) [
      | inl odd ↦ absurd (ground arith)
      | inr even ↦ elim (Option-cases (values_of cs)) [
        | inl e ↦ absurd (ground arith)
        | inr (vs, e) ↦
            let same : bs ≡ bytes_of vs = ground arith in
            subst (All IsByte) (sym same) (bytes_of-IsByte vs (values_of-IsSextet cs vs e))
      ]
    ]

-- What a text that is decoded must be.
decode-Decodes :
    {E : Type 0} (thrown : E) (value bs : List ℕ)
    → decode_base64_url thrown value ≡ ok bs
    → (is_url_text value ≡ true)
      × (atob (pad_end (map from_url value)) ≡ some bs)
      × (equal_units (encode_base64_url bs) value ≡ true)
unfolding decode_base64_url
decode-Decodes thrown value bs h = elim (Bool-cases (is_url_text value)) [
  | inr e ↦ absurd (ground arith)
  | inl e ↦ elim (Option-cases (atob (pad_end (map from_url value)))) [
    | inl f ↦ absurd (ground arith)
    | inr (cs, f) ↦ ground arith
  ]
]

encode-ne_nil :
    (value bs : List ℕ) → is_url_text value ≡ true → encode_base64_url bs ≡ value → bs ≢ []
unfolding encode_base64_url btoa strip_padding
encode-ne_nil value bs allowed e empty =
    let same : value ≡ [] = sym e ∙ ap encode_base64_url empty in
    let refused : is_url_text [] ≡ true = subst (λ v. is_url_text v ≡ true) same allowed in cc

-- A text is decoded into some bytes exactly if there is one at least and the text is their
-- encoding.
pub decode_base64_url_iff :
    {E : Type 0} (thrown : E) (value bs : List ℕ)
    → (decode_base64_url thrown value ≡ ok bs)
      ↔ ((bs ≢ []) × All IsByte bs × (encode_base64_url bs ≡ value))
decode_base64_url_iff thrown value bs = (
  λ h.
      let (allowed, read, same) = decode-Decodes thrown value bs h in
      let e = equal_units→eq (encode_base64_url bs) value same in
      (encode-ne_nil value bs allowed e, atob-IsByte _ bs read, e),
  λ (h, hs, e). subst (λ v. decode_base64_url thrown v ≡ ok bs) e (decode-encode thrown bs hs h),
)
