-- ===== src/Mcp/Cursors/Signed.antt =====
-- What a cursor that is decoded must be.
use skillplane.Common.{
  ℕ, String, str_eq, eq_iff, ◌≡◌, refl, sym, ap, ◌∙◌, inl, inr, some, Option-cases, true, false,
  List, ◌∷◌, ◌++◌, arith, get_elem?, ok, Result-cases, Date,
}
use skillplane.Common.Json.{Json, obj, str, num, Number, Fields, property}
use skillplane.Mcp.Errors.{invalid_cursor}
use skillplane.Mcp.Base64.{encode_base64_url}
use skillplane.Mcp.Tokens.{Platform, open_token, split_dots}
use skillplane.Mcp.Tokens.Laws.{open_token-IsSigned, is_dotless, open_token-trailing}
use skillplane.Mcp.Cursors.{accept, hash, is_past, decode, is_text_of, text, number, object}

text-eq-some : (v : Json) (s : String) → text v ≡ some s → v ≡ str s
text-eq-some (str t) s h = cc
text-eq-some _ s h = absurd (cc)

number-eq-some : (v : Json) (n : Number) → number v ≡ some n → v ≡ num n
number-eq-some (num m) n h = cc
number-eq-some _ n h = absurd (cc)

object-eq-some : (v : Json) (fields : Fields) → object v ≡ some fields → v ≡ obj fields
object-eq-some (obj f) fields h = cc
object-eq-some _ fields h = absurd (cc)

is_text_of-eq : (s : String) (v : Json) → is_text_of s v ≡ true → v ≡ str s
is_text_of-eq s (str t) h = ap str ((eq_iff t s).0 h)
is_text_of-eq s _ h = absurd (cc)

-- What the object of a body that is accepted holds.
pub record IsAccepted (p : Platform) (now : Date) (purpose : String) (filters : Json)
    (boundary fields : Fields) : Type 0 where
  pub expires_at : Number
  pub purpose_eq : property "purpose" fields ≡ str purpose
  pub boundary_eq : property "boundary" fields ≡ obj boundary
  pub expires_at_eq : property "expiresAt" fields ≡ num expires_at
  pub is_fresh : is_past p now expires_at ≡ false
  pub filter_hash : String
  pub filter_hash_eq : property "filterHash" fields ≡ str filter_hash
  pub hashed : hash p filters ≡ ok filter_hash

-- What a cursor that is decoded to `boundary` holds.
pub record IsSigned (p : Platform) (secret : String) (now : Date) (cursor : List ℕ)
    (purpose : String) (filters : Json) (boundary : Fields) : Type 0 where
  pub body : List ℕ
  pub signature : List ℕ
  pub fields : Fields
  pub first_part : get_elem? (split_dots cursor) 0 ≡ some (encode_base64_url body)
  pub second_part : get_elem? (split_dots cursor) 1 ≡ some (encode_base64_url signature)
  pub verified : p.verify secret signature body ≡ true
  pub parsed : p.parse body ≡ some (obj fields)
  pub accepted : IsAccepted p now purpose filters boundary fields

accept-IsAccepted :
    (p : Platform) (now : Date) (purpose : String) (filters : Json) (boundary fields : Fields)
    → accept p now purpose filters fields ≡ ok boundary
    → IsAccepted p now purpose filters boundary fields
unfolding accept
accept-IsAccepted p now purpose filters boundary fields h =
    elim (Option-cases (text (property "filterHash" fields))) [
      | inl e ↦ absurd (ground arith)
      | inr (filter_hash, e) ↦ elim (Option-cases (number (property "expiresAt" fields))) [
        | inl f ↦ absurd (ground arith)
        | inr (expires_at, f) ↦ elim (Option-cases (object (property "boundary" fields))) [
          | inl g ↦ absurd (ground arith)
          | inr (found, g) ↦ elim (Result-cases (hash p filters)) [
            | inr (x, k) ↦ absurd (ground arith)
            | inl (expected, k) ↦
                let same : found ≡ boundary = ground arith in
                let hashes : str_eq filter_hash expected ≡ true = ground arith in
                record {
                  expires_at = expires_at;
                  purpose_eq = is_text_of-eq purpose (property "purpose" fields) (ground arith);
                  boundary_eq = object-eq-some (property "boundary" fields) found g ∙ ap obj same;
                  expires_at_eq = number-eq-some (property "expiresAt" fields) expires_at f;
                  is_fresh = ground arith;
                  filter_hash = filter_hash;
                  filter_hash_eq = text-eq-some (property "filterHash" fields) filter_hash e;
                  hashed = k ∙ ap ok (sym ((eq_iff filter_hash expected).0 hashes));
                }
          ]
        ]
      ]
    ]

-- A cursor that is decoded carries the text of some bytes and of a signature of them that verifies,
-- and the bytes are read as an envelope of this purpose and of the hash of these filters that has not
-- expired, with the boundary that is returned.
pub decode-IsSigned :
    (p : Platform) (secret : String) (now : Date) (cursor : List ℕ) (purpose : String)
    (filters : Json) (boundary : Fields)
    → decode p secret now cursor purpose filters ≡ ok boundary
    → IsSigned p secret now cursor purpose filters boundary
unfolding decode
decode-IsSigned p secret now cursor purpose filters boundary h =
    elim (Result-cases (open_token p secret invalid_cursor cursor)) [
      | inr (x, e) ↦ absurd (ground arith)
      | inl (body, e) ↦ elim (Option-cases (p.parse body)) [
        | inl f ↦ absurd (ground arith)
        | inr (parsed, f) ↦ elim (Option-cases (object parsed)) [
          | inl g ↦ absurd (ground arith)
          | inr (fields, g) ↦
              let (signature, first, second, _, verified) =
                open_token-IsSigned p secret invalid_cursor cursor body e in
              record {
                body = body;
                signature = signature;
                fields = fields;
                first_part = first;
                second_part = second;
                verified = verified;
                parsed = f ∙ ap some (object-eq-some parsed fields g);
                accepted = accept-IsAccepted p now purpose filters boundary fields (ground arith);
              }
        ]
      ]
    ]

-- A cursor keeps its meaning when a dot, another dot and any text are put behind it.
pub decode-trailing :
    (p : Platform) (secret : String) (now : Date) (first second tail : List ℕ) (purpose : String)
    (filters : Json)
    → is_dotless first ≡ true
    → is_dotless second ≡ true
    → decode p secret now (first ++ (b'.' ∷ second ++ (b'.' ∷ b'.' ∷ tail))) purpose filters
      ≡ decode p secret now (first ++ (b'.' ∷ second)) purpose filters
unfolding decode
decode-trailing p secret now first second tail purpose filters h k =
    rw (open_token-trailing p secret invalid_cursor first second tail h k) refl
