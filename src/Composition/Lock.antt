-- ===== src/Composition/Lock.antt =====
-- The locks of packages/domain/src/composition.ts, and the checks of their shape, with
-- `dependencySchema` of packages/storage/src/composition.ts. A lock is a value of its declared type, so
-- that of the checks of its shape those remain that its types leave open.
use skillplane.Common.{
  ℕ, String, Option, Bool, true, false, not, ◌&&◌, ◌||◌, List, [], ◌∷◌, ◌==◌, leb, get_or,
  if◌then◌else◌,
}
use skillplane.Common.Text.{codes, js_length, trim}
use skillplane.Common.Json.{max_safe_integer}
use skillplane.ControlPlane.Objects.{is_hex_digest, slice_from}

pub data Scope : Type 0 where
  execution verification both : Scope

pub data Mode : Type 0 where
  include invoke : Mode

pub record SkillDependency : Type 0 where
  pub alias : String
  pub workspace : String
  pub skill : String
  pub version : String
  pub scope : Scope
  pub mode : Mode
  pub order : Option ℕ
  pub required : Bool

pub record DependencyNode : Type 0 where
  pub version_id : String
  pub workspace_id : String
  pub skill_id : String
  pub workspace : String
  pub skill : String
  pub semantic_version : String
  pub digest : String
  pub closure_digest : String
  pub expanded_bytes : ℕ

-- The dependency that an edge extends is a field.
pub record DependencyEdge : Type 0 where
  pub dependency : SkillDependency
  pub parent : String
  pub child : String
  pub ordinal : ℕ

pub record DependencyLock : Type 0 where
  pub format_version : ℕ
  pub nodes : List DependencyNode
  pub edges : List DependencyEdge

pub record Limits : Type 0 where
  pub depth : ℕ
  pub fan_out : ℕ
  pub nodes : ℕ
  pub expanded_bytes : ℕ
  pub attempts : ℕ

-- `COMPOSITION_LIMITS`
abbrev pub composition_limits : Limits
composition_limits = record {
  depth = 12;
  fan_out = 32;
  nodes = 128;
  expanded_bytes = 52428800;
  attempts = 4096;
}

pub record Root : Type 0 where
  pub workspace : String
  pub skill : String
  pub expanded_bytes : ℕ

-- What the code uses of the library semver.
pub record Semver : Type 0 where
  pub valid : String → Bool
  pub valid_range : String → Bool
  pub satisfies : String → String → Bool
  pub precedes : String → String → Bool

-- The conflicts, by their messages, and the end of the fuel.
pub data Conflict : Type 0 where
  lock_invalid node_limit node_duplicate cycle_at_root versions_incompatible size_invalid byte_limit
        cycle fan_out_invalid dependency_invalid depth_limit unreachable constraint_invalid
        search_limit node_conflict edge_conflict unsatisfied node_missing fuel_out :
      Conflict

-- `[a-z0-9]+(?:-[a-z0-9]+)*`, at the start of a part or within one
abbrev is_parts : Bool → List ℕ → Bool
is_parts start [] = not start
is_parts start (c ∷ cs) =
    let inside = is_parts false cs in
    let next = is_parts true cs in
    if (leb 97 c && leb c 122) || (leb 48 c && leb c 57)
    then inside
    else c == 45 && not start && next

-- `selector`
unfoldable pub is_selector : String → Bool
is_selector s = is_parts true (codes s) && leb (js_length s) 120

-- `dependencySchema.safeParse(d).success`
unfoldable pub is_dependency : SkillDependency → Bool
is_dependency d =
    is_selector d.alias
    && is_selector d.workspace
    && is_selector d.skill
    && leb 1 (js_length (trim d.version))
    && leb (js_length (trim d.version)) 200
    && leb (get_or d.order 0) 1000

-- `/^sha256:[a-f0-9]{64}$/`
abbrev is_digest : String → Bool
is_digest s = starts (codes "sha256:") (codes s) && is_hex_digest (slice_from 7 s)
  where
    starts : List ℕ → List ℕ → Bool
    starts [] cs = true
    starts (a ∷ as') [] = false
    starts (a ∷ as') (c ∷ cs) = a == c && starts as' cs

abbrev is_text : String → Bool
is_text s = leb 1 (js_length s)

unfoldable pub is_node : Semver → DependencyNode → Bool
is_node semver n =
    is_text n.version_id
    && is_text n.workspace_id
    && is_text n.skill_id
    && is_text n.workspace
    && is_text n.skill
    && semver.valid n.semantic_version
    && is_digest n.digest
    && is_digest n.closure_digest

unfoldable pub is_edge : DependencyEdge → Bool
is_edge e =
    is_text e.parent
    && is_text e.child
    && leb e.ordinal max_safe_integer
    && is_dependency e.dependency
