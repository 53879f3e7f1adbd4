-- ===== src/Mcp/Base64/Padding.antt =====
-- Texts that are padded and stripped: what `atob` reads of a text that `btoa` has written.
use skillplane.Common.{
  ℕ, zero, suc, ◌+◌, ◌-◌, ◌*◌, ◌/◌, ◌%◌, ◌≤◌, ◌≡◌, ◌≢◌, refl, ap, ◌∙◌, some, false, List, [], ◌∷◌,
  ◌++◌, map, length, length-append, All, ◌==◌, arith,
}
use skillplane.Mcp.Base64.{
  btoa, atob, drop_padding, strip_padding, fill, pad_end, char_of, to_url, encode_base64_url,
  values_of, bytes_of,
}
use skillplane.Mcp.Base64.Digits.{
  IsByte, IsSextet, url_char, sextets, sextets-IsSextet, values_of-map, char_of-ne, url_char-ne,
}

strip_padding-cons :
    (c : ℕ) (cs : List ℕ) → (c == b'=') ≡ false → strip_padding (c ∷ cs) ≡ c ∷ strip_padding cs
unfolding strip_padding
strip_padding-cons c cs h = ground arith

length-fill : (n : ℕ) → length (fill n) ≡ n
unfolding fill
length-fill zero = refl
length-fill (suc n) = omega (arith, length-fill n)

strip_padding-fill : (n : ℕ) → strip_padding (fill n) ≡ []
unfolding strip_padding fill
strip_padding-fill zero = refl
strip_padding-fill (suc n) = rw (strip_padding-fill n, strip_padding) refl

strip_padding-append :
    (vs : List ℕ) (n : ℕ)
    → All IsSextet vs
    → strip_padding (map url_char vs ++ fill n) ≡ map url_char vs
strip_padding-append [] n h = strip_padding-fill n
strip_padding-append (v ∷ vs) n (h, hs) =
    strip_padding-cons (url_char v) (map url_char vs ++ fill n) (url_char-ne v h)
    ∙ ap (◌∷◌ (url_char v)) (strip_padding-append vs n hs)

btoa-sextets :
    (bs : List ℕ) → (n : ℕ) × (map to_url (btoa bs) ≡ map url_char (sextets bs) ++ fill n)
unfolding btoa sextets fill
btoa-sextets [] = (0, refl)
btoa-sextets (a ∷ []) = (2, refl)
btoa-sextets (a ∷ b ∷ []) = (1, refl)
btoa-sextets (a ∷ b ∷ c ∷ rest) = let (n, e) = btoa-sextets rest in (n, cc)

-- The text holds one character for each group of six bits.
pub encode-eq-map : (bs : List ℕ) → All IsByte bs → encode_base64_url bs ≡ map url_char (sextets bs)
unfolding encode_base64_url
encode-eq-map bs h =
    let (n, e) = btoa-sextets bs in
    ap strip_padding e ∙ strip_padding-append (sextets bs) n (sextets-IsSextet bs h)

drop_padding-fill :
    (n : ℕ) (vs : List ℕ)
    → n ≤ 2
    → All IsSextet vs
    → drop_padding (map char_of vs ++ fill n) ≡ map char_of vs
unfolding drop_padding fill
drop_padding-fill zero [] h hs = refl
drop_padding-fill (suc zero) [] h hs = refl
drop_padding-fill (suc (suc zero)) [] h hs = refl
drop_padding-fill (suc (suc (suc n))) [] h hs = absurd (omega arith)
drop_padding-fill zero (v ∷ []) h (k, _) = ground (arith, char_of-ne v k)
drop_padding-fill (suc zero) (v ∷ []) h (k, _) = ground (arith, char_of-ne v k)
drop_padding-fill (suc (suc n)) (v ∷ []) h (k, hs) =
    ap (◌∷◌ (char_of v)) (drop_padding-fill (suc (suc n)) [] h hs)
drop_padding-fill zero (v ∷ w ∷ []) h (k, (l, _)) = ground (arith, char_of-ne v k, char_of-ne w l)
drop_padding-fill (suc n) (v ∷ w ∷ []) h (k, hs) =
    ap (◌∷◌ (char_of v)) (drop_padding-fill (suc n) (w ∷ []) h hs)
drop_padding-fill n (v ∷ w ∷ x ∷ rest) h (k, hs) =
    ap (◌∷◌ (char_of v)) (drop_padding-fill n (w ∷ x ∷ rest) h hs)

length-chars : (vs : List ℕ) → length (map char_of vs) ≡ length vs
length-chars [] = refl
length-chars (v ∷ vs) = omega (arith, length-chars vs)

pad_end-fill :
    (vs : List ℕ)
    → length vs % 4 ≢ 1
    → (n : ℕ) × (pad_end (map char_of vs) ≡ map char_of vs ++ fill n)
      × (n ≤ 2)
      × ((length vs + n) % 4 ≡ 0)
unfolding pad_end
pad_end-fill vs h =
    ((length vs + 3) / 4 * 4 - length vs, rw (length-chars vs), omega arith, omega arith)

atob-eq :
    (text cs vs : List ℕ)
    → length text % 4 ≡ 0
    → drop_padding text ≡ cs
    → length cs % 4 ≢ 1
    → values_of cs ≡ some vs
    → atob text ≡ some (bytes_of vs)
unfolding atob
atob-eq text cs vs whole dropped even read = ground arith

pub atob-pad_end :
    (vs : List ℕ)
    → All IsSextet vs
    → length vs % 4 ≢ 1
    → atob (pad_end (map char_of vs)) ≡ some (bytes_of vs)
atob-pad_end vs hs h =
    let (n, e, small, whole) = pad_end-fill vs h in
    rw e (
      atob-eq (map char_of vs ++ fill n) (map char_of vs) vs
        (omega (arith, length-append (map char_of vs) (fill n), length-chars vs, length-fill n))
        (drop_padding-fill n vs small hs) (λ f. h (omega (arith, length-chars vs)))
        (values_of-map vs hs))
