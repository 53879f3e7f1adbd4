-- ===== src/Mcp/Tokens.antt =====
-- `stableJson` of packages/storage/src/manifest.ts, and the tokens that mcp/src/pagination.ts makes
-- of a value: its text and the signature of that text, each in base64url. Web Crypto, `JSON.parse`,
-- the text codecs and `localeCompare` are the fields of `Platform`.
pub mod Laws
use Prim.Native.String
use skillplane.Common.Text.{split_on}
use skillplane.Common.{
  ℕ, String, Option, none, some, Bool, true, false, not, ◌&&◌, ◌||◌, List, [], ◌∷◌, ◌++◌, ◌==◌,
  get_elem?, if◌then◌else◌, Result, ok, err, ◌>>=◌, ◌>>◌, require, leb, Date, map,
}
use skillplane.Common.Sorting.{sort}
use skillplane.Common.Json.{
  Json, undefined, null, bool, num, str, arr, obj, Items, nil, cons, Fields, end, prop, Number,
}
use skillplane.Mcp.Base64.{encode_base64_url, decode_base64_url}

pub record Platform : Type 0 where
  -- `JSON.stringify` of a text and of a number
  pub quote : String → String
  pub number_text : Number → String
  -- `left.localeCompare(right, "en") < 0`
  pub precedes : String → String → Bool
  -- the text of some ASCII units
  pub text_of : List ℕ → String
  -- `new TextEncoder().encode(text)`
  pub utf8 : String → List ℕ
  -- `JSON.parse` of what the fatal decoder reads, or `none` where one of them throws
  pub parse : List ℕ → Option Json
  pub sha256 : List ℕ → List ℕ
  -- HMAC with a secret
  pub sign : String → List ℕ → List ℕ
  pub verify : String → List ℕ → List ℕ → Bool
  -- whether a number that is no integer is at most a time
  pub fraction_is_past : Date → Bool

-- `texts.join(",")`
abbrev pub join : List String → String
join [] = ""
join (text ∷ []) = text
join (text ∷ next ∷ rest) = String.◌++◌ text (String.◌++◌ "," (join (next ∷ rest)))

abbrev pub wrapped : String → String → Option (List String) → Option String
wrapped opening closing none = none
wrapped opening closing (some texts) = some (String.◌++◌ opening (String.◌++◌ (join texts) closing))

abbrev pub add_text : Option String → Option (List String) → Option (List String)
add_text none texts = none
add_text (some text) none = none
add_text (some text) (some texts) = some (text ∷ texts)

abbrev pub add_entry :
    String → Option String → Option (List (String × String)) → Option (List (String × String))
add_entry key none entries = none
add_entry key (some text) none = none
add_entry key (some text) (some entries) = some ((key, text) ∷ entries)

-- The entries in the order of their keys, each with its key.
unfoldable pub entry_texts : Platform → Option (List (String × String)) → Option (List String)
entry_texts p none = none
entry_texts p (some entries) = some (
    map (λ (e : String × String). String.◌++◌ (p.quote e.0) (String.◌++◌ ":" e.1))
      (sort (λ a b. false) (λ (a b : String × String). p.precedes a.0 b.0) entries))

-- `stableJson(value)`, or `none` where it throws.
unfoldable mutual
  pub stable_json : Platform → Json → Option String
  stable_json p undefined = none
  stable_json p null = some "null"
  stable_json p (bool true) = some "true"
  stable_json p (bool false) = some "false"
  stable_json p (num n) = some (p.number_text n)
  stable_json p (str s) = some (p.quote s)
  stable_json p (arr items) = wrapped "[" "]" (stable_items p items)
  stable_json p (obj fields) = wrapped "{" "}" (entry_texts p (stable_fields p fields))

  pub stable_items : Platform → Items → Option (List String)
  stable_items p nil = some []
  stable_items p (cons v items) = add_text (stable_json p v) (stable_items p items)

  pub stable_fields : Platform → Fields → Option (List (String × String))
  stable_fields p end = some []
  stable_fields p (prop key v fields) = add_entry key (stable_json p v) (stable_fields p fields)

-- `token.split(".")`
abbrev pub split_dots : List ℕ → List (List ℕ)
split_dots = split_on b'.'

-- A part that is there and not empty.
unfoldable pub present : Option (List ℕ) → Bool
present none = false
present (some []) = false
present (some (c ∷ cs)) = true

abbrev pub part_of : Option (List ℕ) → List ℕ
part_of none = []
part_of (some part) = part

-- The signed bytes and their signature, as a token.
unfoldable pub token_of : Platform → String → List ℕ → List ℕ
token_of p secret body = encode_base64_url body ++ (b'.' ∷ encode_base64_url (p.sign secret body))

-- The bytes of a token, where its signature is theirs.
unfoldable pub open_parts :
    {E : Type 0}
    → Platform
    → String
    → E
    → Option (List ℕ)
    → Option (List ℕ)
    → Option (List ℕ)
    → Result E (List ℕ)
open_parts p secret thrown first second extra = do
  require (present first && present second && not (present extra)) thrown
  body ← decode_base64_url thrown (part_of first)
  signature ← decode_base64_url thrown (part_of second)
  require (p.verify secret signature body) thrown
  ok body

unfoldable pub open_token : {E : Type 0} → Platform → String → E → List ℕ → Result E (List ℕ)
open_token p secret thrown token =
    let parts = split_dots token in
    open_parts p secret thrown (get_elem? parts 0) (get_elem? parts 1) (get_elem? parts 2)
