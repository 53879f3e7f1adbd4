-- ===== src/ControlPlane/Publication.antt =====
-- `PostgresPublicProjectionDirectory` of packages/control-plane/src/publication.ts, over the tables
-- of the global control plane. The `updated_at` columns and the reasons are not modelled.
pub mod Laws
mod Tests
use skillplane.Common.{
  ℕ, max, String, Option, none, some, Bool, true, false, not, ◌&&◌, ◌||◌, List, ◌∷◌, any, str_eq,
  leb, get_or, is_some, Result, ok, err, if◌then◌else◌, Date,
}

pub data ProjectionState : Type 0 where
  published unpublished : ProjectionState

abbrev pub is_published : ProjectionState → Bool
is_published published = true
is_published unpublished = false

-- A row of `public_skill_projection_heads`.
pub record Head : Type 0 where
  pub current_version_id : String
  pub state : ProjectionState
  pub sequence : ℕ

-- A row of `public_skill_projections`. The document is its JSON text.
pub record Projection : Type 0 where
  pub workspace_slug : String
  pub skill_slug : String
  pub semantic_version : String
  pub digest : String
  pub object_key : String
  pub sequence : ℕ
  pub document : String
  pub search_text : String
  pub state : ProjectionState
  pub published_at : Date
  pub unpublished_at : Option Date

-- The primary key of a projection.
pub record ProjectionKey : Type 0 where
  pub workspace_id : String
  pub skill_id : String
  pub version_id : String

-- The slug of each workspace, the heads by workspace and skill, the projections by workspace, skill
-- and version with a list of their keys, and the `withdrawn_sequence` of each version in `public_skill_version_lifecycle`.
pub record Directory : Type 0 where
  pub workspaces : String → Option String
  pub heads : String → String → Option Head
  pub projections : String → String → String → Option Projection
  pub keys : List ProjectionKey
  pub withdrawn : String → Option ℕ

pub record Publish : Type 0 where
  pub workspace_id : String
  pub skill_id : String
  pub skill_slug : String
  pub version_id : String
  pub current_version_id : String
  pub semantic_version : String
  pub digest : String
  pub object_key : String
  pub sequence : ℕ
  pub published_at : Option Date
  pub document : Option String
  pub search_text : Option String

pub record Unpublish : Type 0 where
  pub workspace_id : String
  pub skill_id : String
  pub version_id : String
  pub sequence : ℕ

-- A head refers to a workspace that is there, and the projections have two unique indexes.
pub data ProjectionError : Type 0 where
  workspace_missing unique_violation : ProjectionError

-- `ON CONFLICT … DO UPDATE … WHERE projection_sequence <= EXCLUDED.projection_sequence`
unfoldable pub accepts : Option ℕ → ℕ → Bool
accepts none sequence = true
accepts (some held) sequence = leb held sequence

abbrev pub head_sequence : Option Head → Option ℕ
head_sequence none = none
head_sequence (some h) = some h.sequence

abbrev pub projection_sequence : Option Projection → Option ℕ
projection_sequence none = none
projection_sequence (some p) = some p.sequence

abbrev pub projection_of : Date → String → Publish → Projection
projection_of now slug i = record {
  workspace_slug = slug;
  skill_slug = i.skill_slug;
  semantic_version = i.semantic_version;
  digest = i.digest;
  object_key = i.object_key;
  sequence = i.sequence;
  document = get_or i.document "{}";
  search_text = get_or i.search_text "";
  state = published;
  published_at = get_or i.published_at now;
  unpublished_at = none;
}

abbrev pub write_head :
    String → String → Head → (String → String → Option Head) → String → String → Option Head
write_head ws skill h heads w s = if str_eq ws w && str_eq skill s then some h else heads w s

-- The row that is inserted, or that takes the place of one with no later sequence.
abbrev pub write_projection :
    Date
    → String
    → Publish
    → (String → String → String → Option Projection)
    → String
    → String
    → String
    → Option Projection
write_projection now slug i rows w s v =
    if str_eq i.workspace_id w
      && str_eq i.skill_id s
      && str_eq i.version_id v
      && accepts (projection_sequence (rows w s v)) i.sequence
    then some (projection_of now slug i)
    else rows w s v

-- The row has the slugs and the version, or the object, that a publication is to have.
abbrev is_alike : String → Publish → Option Projection → Bool
is_alike slug i none = false
is_alike slug i (some p) =
    (str_eq p.workspace_slug slug
      && str_eq p.skill_slug i.skill_slug
      && str_eq p.semantic_version i.semantic_version)
    || str_eq p.object_key i.object_key

abbrev is_key_of : Publish → ProjectionKey → Bool
is_key_of i k =
    str_eq k.workspace_id i.workspace_id
    && str_eq k.skill_id i.skill_id
    && str_eq k.version_id i.version_id

-- Another row is in the way of the unique indexes on the slugs with the version and on the object.
unfoldable pub is_taken : String → Publish → Directory → Bool
is_taken slug i d =
    any
      (λ k.
        not (is_key_of i k)
        && is_alike slug i (d.projections k.workspace_id k.skill_id k.version_id))
      d.keys

abbrev add_key : Publish → Directory → List ProjectionKey
add_key i d =
    if is_some (d.projections i.workspace_id i.skill_id i.version_id)
    then d.keys
    else record { workspace_id = i.workspace_id; skill_id = i.skill_id; version_id = i.version_id }
      ∷ d.keys

-- A violation rolls the head back as well.
abbrev publish_in : Date → Publish → Directory → Option String → Result ProjectionError Directory
publish_in now i d none = err workspace_missing
publish_in now i d (some slug) =
    if not (accepts (head_sequence (d.heads i.workspace_id i.skill_id)) i.sequence)
    then ok d
    else if accepts (projection_sequence (d.projections i.workspace_id i.skill_id i.version_id))
          i.sequence
        && is_taken slug i d
    then err unique_violation
    else ok (record d {
      heads =
          write_head i.workspace_id i.skill_id
            (record {
              current_version_id = i.current_version_id;
              state = published;
              sequence = i.sequence;
            })
            d.heads;
      projections = write_projection now slug i d.projections;
      keys = add_key i d;
    })

unfoldable pub publish : Date → Publish → Directory → Result ProjectionError Directory
publish now i d = publish_in now i d (d.workspaces i.workspace_id)

-- `GREATEST(withdrawn_sequence, EXCLUDED.withdrawn_sequence)`
abbrev pub later_of : Option ℕ → ℕ → ℕ
later_of none n = n
later_of (some m) n = max m n

abbrev pub withdraw_row : Date → ℕ → Option Projection → Option Projection
withdraw_row now n none = none
withdraw_row now n (some p) =
    if is_published p.state && leb p.sequence n
    then some (record p { state = unpublished; sequence = n; unpublished_at = some now })
    else some p

-- All versions of the skill are withdrawn.
abbrev pub withdraw : Date → Unpublish → Directory → Directory
withdraw now i d = record d {
  heads =
      write_head i.workspace_id i.skill_id
        (record { current_version_id = i.version_id; state = unpublished; sequence = i.sequence })
        d.heads;
  projections = λ w s v.
      if str_eq i.workspace_id w && str_eq i.skill_id s
      then withdraw_row now i.sequence (d.projections w s v)
      else d.projections w s v;
  withdrawn = λ v.
      if is_some (d.projections i.workspace_id i.skill_id v)
      then some (later_of (d.withdrawn v) i.sequence)
      else d.withdrawn v;
}

abbrev unpublish_in :
    Date → Unpublish → Directory → Option String → Result ProjectionError Directory
unpublish_in now i d none = err workspace_missing
unpublish_in now i d (some slug) =
    if accepts (head_sequence (d.heads i.workspace_id i.skill_id)) i.sequence
    then ok (withdraw now i d)
    else ok d

unfoldable pub unpublish : Date → Unpublish → Directory → Result ProjectionError Directory
unpublish now i d = unpublish_in now i d (d.workspaces i.workspace_id)
