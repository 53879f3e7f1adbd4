-- ===== src/Mcp/Cursors/Laws.antt =====
-- What a cursor is decoded to.
use skillplane.Common.{
  ℕ, ◌+◌, String, str_eq, leb, ◌≡◌, ◌≢◌, refl, ap, ◌∙◌, none, some, Bool, true, not, List, [], All,
  arith, ok, err, Result, if◌then◌else◌, Date,
}
use skillplane.Common.Int.{pos}
use skillplane.Common.Json.{Json, num, whole, str, obj, arr, Items, nil, cons, Fields, property}
use skillplane.Mcp.Errors.{Thrown, invalid_cursor, expired_cursor, filter_mismatch}
use skillplane.Mcp.Base64.Digits.{IsByte}
use skillplane.Mcp.Tokens.{Platform, stable_json, open_token, token_of}
use skillplane.Mcp.Tokens.Laws.{open_token-token_of}
use skillplane.Mcp.Cursors.{
  CursorEnvelope, envelope, envelope_fields, accept, hash, encode, is_past, decode, text,
}

-- What is documented of the text codec, `JSON.parse` and HMAC: bytes are bytes, the empty
-- text is no JSON, and a signature is not empty and verifies.
pub record IsPlatform (p : Platform) : Type 0 where
  pub utf8_bytes : (s : String) → All IsByte (p.utf8 s)
  pub parse_nil : p.parse [] ≡ none
  pub sign_bytes : (secret : String) (body : List ℕ) → All IsByte (p.sign secret body)
  pub sign_ne : (secret : String) (body : List ℕ) → p.sign secret body ≢ []
  pub sign_verifies :
      (secret : String) (body : List ℕ) → p.verify secret (p.sign secret body) body ≡ true

-- Values that are the same up to the order of the properties of their objects.
mutual
  pub data IsSame : Json → Json → Type 0 where
    equal : (v : Json) → IsSame v v
    arrays : {vs ws : Items} → AreSame vs ws → IsSame (arr vs) (arr ws)
    objects :
        {fs gs : Fields}
        → ((key : String) → IsSame (property key fs) (property key gs))
        → IsSame (obj fs) (obj gs)

  pub data AreSame : Items → Items → Type 0 where
    none_left : AreSame nil nil
    next :
        {v w : Json} {vs ws : Items} → IsSame v w → AreSame vs ws → AreSame (cons v vs) (cons w ws)

-- `stableJson` sorts the keys, so that `JSON.parse` of its text gives back the properties of an
-- envelope and, in some order, those of its boundary.
pub record Reads (p : Platform) (e : CursorEnvelope) (text : String) (restored : Fields)
    : Type 0 where
  pub read : Fields
  pub printed : stable_json p (obj (envelope_fields e)) ≡ some text
  pub parsed : p.parse (p.utf8 text) ≡ some (obj read)
  pub version : property "version" read ≡ num (whole (pos 1))
  pub purpose : property "purpose" read ≡ str e.purpose
  pub filter_hash : property "filterHash" read ≡ str e.filter_hash
  pub expires_at : property "expiresAt" read ≡ num (whole (pos e.expires_at))
  pub boundary : property "boundary" read ≡ obj restored
  pub same : IsSame (obj restored) (obj e.boundary)

decode-eq :
    (p : Platform) (secret : String) (now : Date) (cursor : List ℕ) (purpose : String)
    (filters : Json) (body : List ℕ) (fields : Fields)
    → open_token p secret invalid_cursor cursor ≡ ok body
    → p.parse body ≡ some (obj fields)
    → decode p secret now cursor purpose filters ≡ accept p now purpose filters fields
unfolding decode
decode-eq p secret now cursor purpose filters body fields opened parsed = rw (opened, parsed) refl

abbrev pub answer : Bool → Bool → Bool → Fields → Result Thrown Fields
answer same_purpose expired same_filters boundary =
    if not same_purpose
    then err invalid_cursor
    else if expired
    then err expired_cursor
    else if same_filters
    then ok boundary
    else err filter_mismatch

accept-envelope :
    (p : Platform) (now : Date) (purpose : String) (filters : Json) (e : CursorEnvelope)
    (restored : Fields) (text expected : String) (reads : Reads p e text restored)
    → hash p filters ≡ ok expected
    → accept p now purpose filters reads.read
      ≡ answer
          (str_eq e.purpose purpose)
          (leb e.expires_at now)
          (str_eq e.filter_hash expected)
          restored
unfolding is_past accept
accept-envelope p now purpose filters e restored text expected reads hashed =
    ground
      (arith, reads.version, reads.purpose, reads.filter_hash, reads.expires_at, reads.boundary)

module _ (p : Platform) (documented : IsPlatform p) (secret : String) where
  -- A cursor that `encode` returns is decoded, at any time and for any purpose and filters: if the
  -- purpose is that of the cursor, fifteen minutes have not passed and the filters have the same
  -- hash, to the properties of its boundary in the order in which the text has them, and otherwise to
  -- the error of the first of these that fails. The platform is taken to be as documented, and
  -- `JSON.parse` to read the envelope's text back up to the order of properties.
  pub decode-encode :
      (now later : Date) (purpose other_purpose filter_hash other_hash text : String)
      (filters other_filters : Json) (boundary restored : Fields)
      → hash p filters ≡ ok filter_hash
      → hash p other_filters ≡ ok other_hash
      → Reads p (envelope now purpose filter_hash boundary) text restored
      → (encode p secret now purpose filters boundary ≡ ok (token_of p secret (p.utf8 text)))
        × (decode p secret later (token_of p secret (p.utf8 text)) other_purpose other_filters
            ≡ answer
                (str_eq purpose other_purpose)
                (leb (now + 900000) later)
                (str_eq filter_hash other_hash)
                restored)
        × IsSame (obj restored) (obj boundary)
  unfolding encode
  decode-encode now later purpose other_purpose filter_hash other_hash text filters other_filters
        boundary restored hashed hashed_other reads =
      let e = envelope now purpose filter_hash boundary in
      let body = p.utf8 text in
      (
        rw (hashed, reads.printed) refl,
        decode-eq p secret later (token_of p secret body) other_purpose other_filters body
              reads.read
              (open_token-token_of p secret invalid_cursor body (documented.utf8_bytes text)
                (λ empty. cc (documented.parse_nil, reads.parsed, ap p.parse empty))
                (documented.sign_bytes secret body) (documented.sign_ne secret body)
                (documented.sign_verifies secret body))
              reads.parsed
            ∙ accept-envelope p later other_purpose other_filters e restored text other_hash reads
                hashed_other,
        reads.same,
      )
