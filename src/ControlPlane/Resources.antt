-- ===== src/ControlPlane/Resources.antt =====
-- `createPostgresResourceRoutingDirectory` of packages/control-plane/src/resource-directory.ts, over
-- the table `resource_routing_directory`. The `updated_at` column is not modelled.
pub mod Laws
mod Tests
use skillplane.Common.{String, Option, none, some, Bool, ◌&&◌, str_eq, if◌then◌else◌}

pub data ResourceType : Type 0 where
  workspace skill skill_version context context_note : ResourceType

abbrev pub resource_type_name : ResourceType → String
resource_type_name workspace = "workspace"
resource_type_name skill = "skill"
resource_type_name skill_version = "skill_version"
resource_type_name context = "context"
resource_type_name context_note = "context_note"

pub data RouteState : Type 0 where
  active tombstoned : RouteState

-- A row, by its resource.
pub record RouteRow : Type 0 where
  pub workspace_id : String
  pub state : RouteState

abbrev pub Routes : Type 0
Routes = ResourceType → String → Option RouteRow

abbrev pub same_resource : ResourceType → String → ResourceType → String → Bool
same_resource t id u other = str_eq (resource_type_name t) (resource_type_name u) && str_eq id other

abbrev pub active_workspace : Option RouteRow → Option String
active_workspace none = none
active_workspace (some r) = elim r.state [ active ↦ some r.workspace_id | tombstoned ↦ none ]

-- The workspace of the route that `resolve` returns.
unfoldable pub resolve : ResourceType → String → Routes → Option String
resolve t id routes = active_workspace (routes t id)

unfoldable pub upsert : ResourceType → String → String → Routes → Routes
upsert t id ws routes u other =
    if same_resource t id u other
    then some (record { workspace_id = ws; state = active })
    else routes u other

abbrev buried : Option RouteRow → Option RouteRow
buried none = none
buried (some r) = some (record r { state = tombstoned })

unfoldable pub tombstone : ResourceType → String → Routes → Routes
tombstone t id routes u other =
    if same_resource t id u other then buried (routes u other) else routes u other
