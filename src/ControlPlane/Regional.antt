-- ===== src/ControlPlane/Regional.antt =====
-- `applyRegionalPublicProjection` of packages/control-plane/src/projection-outbox.ts: an event of a
-- region changes the global tables, while the placement of its workspace admits it.
pub mod Payloads
pub mod Steps
pub mod Laws
pub mod Happenings
pub mod Fencing
mod Tests
use skillplane.Common.{
  ℕ, String, Option, none, some, Bool, true, false, not, ◌&&◌, ◌||◌, List, [], ◌∷◌, ◌==◌, str_eq,
  Result, ok, err, if◌then◌else◌, Date,
}
use skillplane.Common.Int.{ℤ, pos}
use skillplane.Common.Json.{Json, Fields}
use skillplane.ControlPlane.Placement.{WorkspacePlacement, Migration, PlacementError, Table, get}
use skillplane.ControlPlane.Publication.{Directory, Publish, ProjectionError, unpublish}
use skillplane.ControlPlane.Objects.{
  Failure, placement_failed, fencing_epoch_stale, payload_invalid, route_workspace_mismatch,
  route_projector_unavailable, workspace_mismatch, stats_projector_unavailable, workspace_not_found,
  statement_failed, Store, Exposed, publish_global_projection,
}
use skillplane.ControlPlane.Resources.{ResourceType, Routes, upsert}
use skillplane.ControlPlane.Stats.{
  EventType, agent_skill_used, skill_count_changed, StatsInput, StatsState, StatsError,
  apply_checkpoint,
}
use skillplane.ControlPlane.Regional.Payloads.{
  Platform, PublishedPayload, UnpublishedPayload, StatsPayload, SkillCountPayload, RouteItem,
  RoutePayload, published_payload, unpublished_payload, stats_payload, skill_count_payload,
  route_payload, source_published_at,
}

pub data RegionalEventType : Type 0 where
  skill_published skill_unpublished stats_used stats_count_changed route_upsert : RegionalEventType

pub record RegionalEvent : Type 0 where
  pub id : String
  pub region_id : String
  pub event_type : RegionalEventType
  pub workspace_id : String
  pub fencing_epoch : ℕ
  pub sequence : ℕ
  pub payload : Json

-- The tables and the store of the control plane that an event may change, and the placements.
pub record Global : Type 0 where
  pub placements : Table
  pub routes : Routes
  pub stats : StatsState
  pub exposed : Exposed

-- The optional collaborators that the caller gives, the store of the region, and the clock of the
-- database.
pub record Surroundings : Type 0 where
  pub platform : Platform
  pub has_resource_directory : Bool
  pub has_public_stats : Bool
  pub regional_store : Store
  pub now : Date

abbrev pub is_some_text : Option String → String → Bool
is_some_text none s = false
is_some_text (some t) s = str_eq t s

abbrev pub is_some_number : Option ℕ → ℕ → Bool
is_some_number none n = false
is_some_number (some m) n = m == n

-- `currentActiveSource`
unfoldable pub is_active_source : WorkspacePlacement → RegionalEvent → Bool
is_active_source p e =
    str_eq p.state "active" && str_eq p.region_id e.region_id && p.epoch == e.fencing_epoch

abbrev pub migration_of : Option Migration → RegionalEvent → Bool
migration_of none e = false
migration_of (some m) e =
    is_some_text m.source_region_id e.region_id && is_some_number m.source_epoch e.fencing_epoch

-- `quiescingSource`
unfoldable pub is_quiescing_source : WorkspacePlacement → RegionalEvent → Bool
is_quiescing_source p e = str_eq p.state "moving" && migration_of p.migration e

abbrev pub admits : Option WorkspacePlacement → RegionalEvent → Bool
admits none e = false
admits (some p) e = is_active_source p e || is_quiescing_source p e

abbrev upsert_each : String → List RouteItem → Routes → Routes
upsert_each ws [] routes = routes
upsert_each ws (item ∷ items) routes =
    upsert_each ws items (upsert item.resource_type item.resource_id ws routes)

-- What a step leaves, and the object key that it answers.
abbrev pub Applied : Type 0
Applied = Global × Result Failure (Option String)

abbrev pub apply_routes : Surroundings → RegionalEvent → Global → Option RoutePayload → Applied
apply_routes x e g none = (g, err payload_invalid)
apply_routes x e g (some p) =
    if not (str_eq p.workspace_id e.workspace_id)
    then (g, err route_workspace_mismatch)
    else if not x.has_resource_directory
    then (g, err route_projector_unavailable)
    else (record g { routes = upsert_each p.workspace_id p.resources g.routes }, ok none)

abbrev pub stats_input : RegionalEvent → String → EventType → ℕ → ℤ → StatsInput
stats_input e ws type uses total = record {
  event_id = e.id;
  workspace_id = ws;
  event_type = type;
  fencing_epoch = e.fencing_epoch;
  sequence = e.sequence;
  agent_skill_uses = uses;
  total_skills = total;
}

abbrev counted_in : Global → Result StatsError StatsState → Applied
counted_in g (ok s) = (record g { stats = s }, ok none)
counted_in g (err f) = (g, err statement_failed)

-- The checks that the two statistics events share, and their statement.
abbrev pub apply_stats : Surroundings → RegionalEvent → String → StatsInput → Global → Applied
apply_stats x e ws i g =
    if not (str_eq ws e.workspace_id)
    then (g, err workspace_mismatch)
    else if not x.has_public_stats
    then (g, err stats_projector_unavailable)
    else counted_in g (apply_checkpoint x.now i g.stats)

abbrev pub apply_used : Surroundings → RegionalEvent → Global → Option StatsPayload → Applied
apply_used x e g none = (g, err payload_invalid)
apply_used x e g (some p) =
    apply_stats x e p.workspace_id (stats_input e p.workspace_id agent_skill_used p.count (pos 0)) g

abbrev pub apply_count : Surroundings → RegionalEvent → Global → Option SkillCountPayload → Applied
apply_count x e g none = (g, err payload_invalid)
apply_count x e g (some p) =
    apply_stats x e p.workspace_id (stats_input e p.workspace_id skill_count_changed 0 p.delta) g

abbrev withdrawn_in : Global → Result ProjectionError Directory → Applied
withdrawn_in g (ok d) = (record g { exposed = record (g.exposed) { directory = d } }, ok none)
withdrawn_in g (err f) = (g, err statement_failed)

abbrev pub apply_unpublished :
    Surroundings → RegionalEvent → Global → Option UnpublishedPayload → Applied
apply_unpublished x e g none = (g, err payload_invalid)
apply_unpublished x e g (some p) =
    if not (str_eq p.workspace_id e.workspace_id)
    then (g, err workspace_mismatch)
    else withdrawn_in g (
        unpublish x.now
          (record {
            workspace_id = p.workspace_id;
            skill_id = p.skill_id;
            version_id = p.version_id;
            sequence = e.sequence;
          })
          g.exposed.directory)

abbrev pub publish_input : Surroundings → RegionalEvent → PublishedPayload → Publish
publish_input x e p = record {
  workspace_id = p.workspace_id;
  skill_id = p.skill_id;
  skill_slug = p.skill_slug;
  version_id = p.version_id;
  current_version_id = p.current_version_id;
  semantic_version = p.semantic_version;
  digest = p.digest;
  object_key = "";
  sequence = e.sequence;
  published_at = source_published_at x.platform p;
  document = some (x.platform.json_text p.document);
  search_text = some p.search_text;
}

abbrev pub answered : Global → Exposed × Result Failure String → Applied
answered g (s, ok key) = (record g { exposed = s }, ok (some key))
answered g (s, err f) = (record g { exposed = s }, err f)

-- An empty slug is none.
abbrev pub is_slug : Option String → Bool
is_slug none = false
is_slug (some slug) = not (str_eq slug "")

abbrev pub apply_published :
    Surroundings → RegionalEvent → Global → Option PublishedPayload → Applied
apply_published x e g none = (g, err payload_invalid)
apply_published x e g (some p) =
    if not (str_eq p.workspace_id e.workspace_id)
    then (g, err workspace_mismatch)
    else if not (is_slug (g.exposed.directory.workspaces p.workspace_id))
    then (g, err workspace_not_found)
    else answered g (
        publish_global_projection x.platform.sha256 x.now x.regional_store
          (record { source_key = p.source_object_key; input = publish_input x e p }) g.exposed)

abbrev pub apply_admitted : Surroundings → RegionalEvent → RegionalEventType → Global → Applied
apply_admitted x e route_upsert g = apply_routes x e g (route_payload e.payload)
apply_admitted x e stats_used g = apply_used x e g (stats_payload e.payload)
apply_admitted x e stats_count_changed g = apply_count x e g (skill_count_payload e.payload)
apply_admitted x e skill_unpublished g = apply_unpublished x e g (unpublished_payload e.payload)
apply_admitted x e skill_published g =
    apply_published x e g (published_payload x.platform e.payload)

abbrev pub apply_placed :
    Surroundings
    → RegionalEvent
    → Global
    → Result PlacementError (Option WorkspacePlacement)
    → Applied
apply_placed x e g (err f) = (g, err placement_failed)
apply_placed x e g (ok p) =
    if admits p e then apply_admitted x e e.event_type g else (g, err fencing_epoch_stale)

unfoldable pub apply_projection : Surroundings → RegionalEvent → Global → Applied
apply_projection x e g = apply_placed x e g (get g.placements e.workspace_id)
