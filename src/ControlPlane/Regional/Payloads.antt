-- ===== src/ControlPlane/Regional/Payloads.antt =====
-- The schemas of the payloads of regional events, in packages/control-plane/src/projection-outbox.ts.
use skillplane.Common.{
  ℕ, String, Option, none, some, Bool, true, false, ◌&&◌, List, [], ◌∷◌, all, any, find, length,
  str_eq, leb, ◌==◌, if◌then◌else◌, Date,
}
use skillplane.Common.Text.{codes, js_length}
use skillplane.Common.Int.{ℤ, pos, negsuc}
use skillplane.Common.Json.{
  Json, undefined, num, whole, str, arr, obj, Fields, elements, keys, property,
}
use skillplane.ControlPlane.Objects.{Bytes, is_hex_digest, slice_from}
use skillplane.ControlPlane.Resources.{
  ResourceType, resource_type_name, workspace, skill, skill_version, context, context_note,
}

-- A parse goes on while its steps succeed.
infixl 5 ◌>>=◌
abbrev ◌>>=◌ : {A B : Type 0} → Option A → (A → Option B) → Option B
none >>= f = none
some a >>= f = f a

-- `z.object({…}).strict()`
abbrev strict : List String → Json → Option Fields
strict allowed (obj fs) =
    if all (λ k. any (λ a. str_eq a k) allowed) (keys fs) then some fs else none
strict allowed _ = none

-- `z.string().min(lo).max(hi)`
abbrev text : ℕ → ℕ → Json → Option String
text lo hi (str s) = if leb lo (js_length s) && leb (js_length s) hi then some s else none
text lo hi _ = none

abbrev starts_with : List ℕ → List ℕ → Bool
starts_with [] cs = true
starts_with (a ∷ as') [] = false
starts_with (a ∷ as') (c ∷ cs) = a == c && starts_with as' cs

-- `z.string().regex(/^sha256:[a-f0-9]{64}$/u)`
abbrev digest_text : Json → Option String
digest_text (str s) =
    if starts_with (codes "sha256:") (codes s) && is_hex_digest (slice_from 7 s)
    then some s
    else none
digest_text _ = none

-- A payload that `publicSkill.published` carries.
pub record PublishedPayload : Type 0 where
  pub workspace_id : String
  pub skill_id : String
  pub skill_slug : String
  pub version_id : String
  pub current_version_id : String
  pub semantic_version : String
  pub source_object_key : String
  pub digest : String
  pub published_at : Option String
  pub search_text : String
  pub document : Fields

-- What the platform decides about texts: `z.iso.datetime({ offset: true })`, `Date.parse` with the
-- instant that it finds, and `JSON.stringify`.
pub record Platform : Type 0 where
  pub sha256 : Bytes → String
  pub is_datetime : String → Bool
  pub instant : String → Option Date
  pub json_text : Fields → String

-- `z.iso.datetime({ offset: true }).optional()`
abbrev datetime : Platform → Json → Option (Option String)
datetime platform undefined = some none
datetime platform (str s) = if platform.is_datetime s then some (some s) else none
datetime platform _ = none

-- `z.record(z.string(), z.unknown())`
abbrev record_of : Json → Option Fields
record_of (obj fs) = some fs
record_of _ = none

unfoldable pub published_payload : Platform → Json → Option PublishedPayload
published_payload platform value = do
  fs ←
      strict
        ("workspaceId" ∷ "skillId" ∷ "skillSlug" ∷ "versionId" ∷ "currentVersionId"
          ∷ "semanticVersion" ∷ "sourceObjectKey" ∷ "digest" ∷ "publishedAt" ∷ "searchText"
          ∷ "document" ∷ [])
        value
  ws ← text 1 200 (property "workspaceId" fs)
  skill_id ← text 1 200 (property "skillId" fs)
  slug ← text 1 120 (property "skillSlug" fs)
  version ← text 1 200 (property "versionId" fs)
  current ← text 1 200 (property "currentVersionId" fs)
  semantic ← text 1 160 (property "semanticVersion" fs)
  source ← text 1 1024 (property "sourceObjectKey" fs)
  digest ← digest_text (property "digest" fs)
  published_at ← datetime platform (property "publishedAt" fs)
  search_text ← text 0 2000000 (property "searchText" fs)
  document ← record_of (property "document" fs)
  some (record {
    workspace_id = ws;
    skill_id = skill_id;
    skill_slug = slug;
    version_id = version;
    current_version_id = current;
    semantic_version = semantic;
    source_object_key = source;
    digest = digest;
    published_at = published_at;
    search_text = search_text;
    document = document;
  })

pub record UnpublishedPayload : Type 0 where
  pub workspace_id : String
  pub skill_id : String
  pub version_id : String

unfoldable pub unpublished_payload : Json → Option UnpublishedPayload
unpublished_payload value = do
  fs ← strict ("workspaceId" ∷ "skillId" ∷ "versionId" ∷ []) value
  ws ← text 1 200 (property "workspaceId" fs)
  skill_id ← text 1 200 (property "skillId" fs)
  version ← text 1 200 (property "versionId" fs)
  some (record { workspace_id = ws; skill_id = skill_id; version_id = version })

-- `z.number().int().min(1).max(10_000)`
abbrev count_of : Json → Option ℕ
count_of (num (whole (pos n))) = if leb 1 n && leb n 10000 then some n else none
count_of _ = none

pub record StatsPayload : Type 0 where
  pub workspace_id : String
  pub count : ℕ

unfoldable pub stats_payload : Json → Option StatsPayload
stats_payload value = do
  fs ← strict ("workspaceId" ∷ "count" ∷ []) value
  ws ← text 1 200 (property "workspaceId" fs)
  count ← count_of (property "count" fs)
  some (record { workspace_id = ws; count = count })

-- `z.union([z.literal(-1), z.literal(1)])`
abbrev delta_of : Json → Option ℤ
delta_of (num (whole (pos n))) = if n == 1 then some (pos 1) else none
delta_of (num (whole (negsuc n))) = if n == 0 then some (negsuc 0) else none
delta_of _ = none

pub record SkillCountPayload : Type 0 where
  pub workspace_id : String
  pub delta : ℤ

unfoldable pub skill_count_payload : Json → Option SkillCountPayload
skill_count_payload value = do
  fs ← strict ("workspaceId" ∷ "delta" ∷ []) value
  ws ← text 1 200 (property "workspaceId" fs)
  delta ← delta_of (property "delta" fs)
  some (record { workspace_id = ws; delta = delta })

-- `routableResourceType`
abbrev resource_type : Json → Option ResourceType
resource_type (str s) =
    find (λ t. str_eq (resource_type_name t) s)
      (workspace ∷ skill ∷ skill_version ∷ context ∷ context_note ∷ [])
resource_type _ = none

pub record RouteItem : Type 0 where
  pub resource_type : ResourceType
  pub resource_id : String

abbrev route_item : Json → Option RouteItem
route_item value = do
  fs ← strict ("resourceType" ∷ "resourceId" ∷ []) value
  type ← resource_type (property "resourceType" fs)
  id ← text 1 200 (property "resourceId" fs)
  some (record { resource_type = type; resource_id = id })

abbrev each_item : List Json → Option (List RouteItem)
each_item [] = some []
each_item (v ∷ vs) = do item ← route_item v; rest ← each_item vs; some (item ∷ rest)

-- `z.array(…).min(1).max(20)`
abbrev route_items : Json → Option (List RouteItem)
route_items (arr xs) =
    if leb 1 (length (elements xs)) && leb (length (elements xs)) 20
    then each_item (elements xs)
    else none
route_items _ = none

pub record RoutePayload : Type 0 where
  pub workspace_id : String
  pub resources : List RouteItem

unfoldable pub route_payload : Json → Option RoutePayload
route_payload value = do
  fs ← strict ("workspaceId" ∷ "resources" ∷ []) value
  ws ← text 1 200 (property "workspaceId" fs)
  resources ← route_items (property "resources" fs)
  some (record { workspace_id = ws; resources = resources })

-- `document.version`, its `publishedAt`, and the instant of that
abbrev document_instant : Platform → Json → Option Date
document_instant platform (obj version) = elim (property "publishedAt" version) [
  | str s ↦ platform.instant s
  | _ ↦ none
]
document_instant platform _ = none

-- `sourcePublishedAt`, as the instant that the statement reads from the text
unfoldable pub source_published_at : Platform → PublishedPayload → Option Date
source_published_at platform p = elim p.published_at [
  | some text ↦ platform.instant text
  | none ↦ document_instant platform (property "version" p.document)
]
