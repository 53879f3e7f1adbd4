-- ===== src/Mcp/Cursors.antt =====
-- `McpCursorCodec` of mcp/src/pagination.ts. The constructor's check of the secret is a hypothesis of
-- nothing here: a codec that exists has passed it.
pub mod Laws
pub mod Signed
mod Tests
use skillplane.Common.{
  ℕ, ◌+◌, ◌*◌, String, Option, none, some, Bool, true, false, not, ◌&&◌, List, leb, str_eq, ◌==◌,
  if◌then◌else◌, Result, ok, err, ◌>>=◌, ◌>>◌, require, Date,
}
use skillplane.Common.Int.{ℤ, pos, negsuc}
use skillplane.Common.Json.{
  Json, num, str, obj, Fields, end, prop, Number, whole, fractional, property,
}
use skillplane.Mcp.Base64.{encode_base64_url}
use skillplane.Mcp.Errors.{Thrown, type_error, invalid_cursor, expired_cursor, filter_mismatch}
use skillplane.Mcp.Tokens.{Platform, stable_json, token_of, open_token}

pub record CursorEnvelope : Type 0 where
  pub purpose : String
  pub filter_hash : String
  pub boundary : Fields
  pub expires_at : Date

-- The envelope as the object that is signed; its version is 1.
abbrev pub envelope_fields : CursorEnvelope → Fields
envelope_fields e = prop "version" (num (whole (pos 1))) (
    prop "purpose" (str e.purpose) (
      prop "filterHash" (str e.filter_hash)
        (prop "boundary" (obj e.boundary) (prop "expiresAt" (num (whole (pos e.expires_at))) end))))

-- A text, or the `TypeError` of a value that is no JSON.
abbrev pub or_type_error : Option String → Result Thrown String
or_type_error none = err type_error
or_type_error (some text) = ok text

-- `hash(value)`
unfoldable pub hash : Platform → Json → Result Thrown String
hash p value = do
  text ← or_type_error (stable_json p value)
  ok (p.text_of (encode_base64_url (p.sha256 (p.utf8 text))))

abbrev pub envelope : Date → String → String → Fields → CursorEnvelope
envelope now purpose filter_hash boundary = record {
  purpose = purpose;
  filter_hash = filter_hash;
  boundary = boundary;
  expires_at = now + 15 * 60 * 1000;
}

-- `encode(purpose, filters, boundary)` at the time `now`
unfoldable pub encode : Platform → String → Date → String → Json → Fields → Result Thrown (List ℕ)
encode p secret now purpose filters boundary = do
  filter_hash ← hash p filters
  text ←
      or_type_error
        (stable_json p (obj (envelope_fields (envelope now purpose filter_hash boundary))))
  ok (token_of p secret (p.utf8 text))

abbrev pub is_number_one : Json → Bool
is_number_one (num (whole (pos n))) = n == 1
is_number_one _ = false

abbrev pub is_text_of : String → Json → Bool
is_text_of s (str t) = str_eq t s
is_text_of s _ = false

abbrev pub text : Json → Option String
text (str s) = some s
text _ = none

abbrev pub number : Json → Option Number
number (num n) = some n
number _ = none

-- A value that is truthy, an object and no array.
abbrev pub object : Json → Option Fields
object (obj fields) = some fields
object _ = none

abbrev pub or_invalid : {A : Type 0} → Option A → Result Thrown A
or_invalid none = err invalid_cursor
or_invalid (some a) = ok a

-- `expiresAt <= now`
unfoldable pub is_past : Platform → Date → Number → Bool
is_past p now (whole (pos n)) = leb n now
is_past p now (whole (negsuc n)) = true
is_past p now fractional = p.fraction_is_past now

-- The boundary of an envelope that is one, of this purpose and these filters, and not expired.
unfoldable pub accept : Platform → Date → String → Json → Fields → Result Thrown Fields
accept p now purpose filters fields = do
  require (is_number_one (property "version" fields)) invalid_cursor
  require (is_text_of purpose (property "purpose" fields)) invalid_cursor
  filter_hash ← or_invalid (text (property "filterHash" fields))
  expires_at ← or_invalid (number (property "expiresAt" fields))
  boundary ← or_invalid (object (property "boundary" fields))
  require (not (is_past p now expires_at)) expired_cursor
  expected ← hash p filters
  require (str_eq filter_hash expected) filter_mismatch
  ok boundary

-- `decode(cursor, purpose, filters)` at the time `now`
unfoldable pub decode : Platform → String → Date → List ℕ → String → Json → Result Thrown Fields
decode p secret now cursor purpose filters = do
  body ← open_token p secret invalid_cursor cursor
  parsed ← or_invalid (p.parse body)
  fields ← or_invalid (object parsed)
  accept p now purpose filters fields
