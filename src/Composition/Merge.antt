-- ===== src/Composition/Merge.antt =====
-- How `resolveDependencies` of packages/domain/src/composition.ts merges the lock of a choice.
use Prim.Native.String
use skillplane.Common.{
  ℕ, suc, String, Option, none, some, Bool, true, false, not, ◌&&◌, ◌||◌, List, [], ◌∷◌, ◌==◌,
  str_eq, find, ltb, Result, ok, err, ◌>>=◌, if◌then◌else◌,
}
use skillplane.Common.Text.{str_lt}
use skillplane.Common.Sorting.{sort}
use skillplane.Composition.{root_id}
use skillplane.Composition.Lock.{
  Scope, execution, verification, both, Mode, include, invoke, SkillDependency, DependencyNode,
  DependencyEdge, DependencyLock, Conflict, node_conflict, edge_conflict,
}

pub record DependencyChoice : Type 0 where
  pub node : DependencyNode
  pub lock : DependencyLock

-- `stableJson(a) === stableJson(b)` on nodes
abbrev same_node : DependencyNode → DependencyNode → Bool
same_node a b =
    str_eq a.version_id b.version_id
    && str_eq a.workspace_id b.workspace_id
    && str_eq a.skill_id b.skill_id
    && str_eq a.workspace b.workspace
    && str_eq a.skill b.skill
    && str_eq a.semantic_version b.semantic_version
    && str_eq a.digest b.digest
    && str_eq a.closure_digest b.closure_digest
    && a.expanded_bytes == b.expanded_bytes

-- `nodes.set(n.versionId, n)`
abbrev pub put_node : DependencyNode → List DependencyNode → List DependencyNode
put_node n [] = n ∷ []
put_node n (m ∷ ms) =
    let rest = put_node n ms in if str_eq m.version_id n.version_id then n ∷ ms else m ∷ rest

abbrev pub is_apart : DependencyNode → Option DependencyNode → Bool
is_apart n none = false
is_apart n (some old) = not (same_node old n)

abbrev pub merge_nodes :
    List DependencyNode → List DependencyNode → Result Conflict (List DependencyNode)
merge_nodes [] nodes = ok nodes
merge_nodes (n ∷ ns) nodes =
    let rest = merge_nodes ns (put_node n nodes) in
    if is_apart n (find (λ m. str_eq m.version_id n.version_id) nodes)
    then err node_conflict
    else rest

abbrev pub scope_rank : Scope → ℕ
scope_rank execution = 0
scope_rank verification = 1
scope_rank both = 2

abbrev pub mode_rank : Mode → ℕ
mode_rank include = 0
mode_rank invoke = 1

abbrev pub flag_rank : Bool → ℕ
flag_rank false = 0
flag_rank true = 1

abbrev pub option_rank : Option ℕ → ℕ
option_rank none = 0
option_rank (some n) = suc n

-- `stableJson(a) === stableJson(b)` on edges
abbrev pub same_edge : DependencyEdge → DependencyEdge → Bool
same_edge a b =
    let d = a.dependency in
    let e = b.dependency in
    str_eq d.alias e.alias
    && str_eq d.workspace e.workspace
    && str_eq d.skill e.skill
    && str_eq d.version e.version
    && scope_rank d.scope == scope_rank e.scope
    && mode_rank d.mode == mode_rank e.mode
    && option_rank d.order == option_rank e.order
    && flag_rank d.required == flag_rank e.required
    && str_eq a.parent b.parent
    && str_eq a.child b.child
    && a.ordinal == b.ordinal

abbrev pub edge_key : DependencyEdge → String
edge_key e = String.◌++◌ e.parent (String.◌++◌ "/" e.dependency.alias)

-- `edges.set(key, e)`: an edge that is there already keeps its place.
abbrev pub put_edge : DependencyEdge → List DependencyEdge → List DependencyEdge
put_edge e [] = e ∷ []
put_edge e (f ∷ fs) =
    let rest = put_edge e fs in if str_eq (edge_key f) (edge_key e) then e ∷ fs else f ∷ rest

abbrev pub is_apart_edge : DependencyEdge → Option DependencyEdge → Bool
is_apart_edge e none = false
is_apart_edge e (some old) = not (same_edge old e)

-- The root of a chosen lock is the chosen node.
abbrev pub grafted : String → DependencyEdge → DependencyEdge
grafted id e = if str_eq e.parent root_id then record e { parent = id } else e

abbrev pub merge_edges :
    String → List DependencyEdge → List DependencyEdge → Result Conflict (List DependencyEdge)
merge_edges id [] edges = ok edges
merge_edges id (e ∷ es) edges =
    let mapped = grafted id e in
    let rest = merge_edges id es (put_edge mapped edges) in
    if is_apart_edge mapped (find (λ f. str_eq (edge_key f) (edge_key mapped)) edges)
    then err edge_conflict
    else rest

abbrev pub edge_before : DependencyEdge → DependencyEdge → Bool
edge_before a b = str_lt a.parent b.parent || (str_eq a.parent b.parent && ltb a.ordinal b.ordinal)

-- The lock with a choice for the dependency at an index.
unfoldable pub merged :
    SkillDependency → ℕ → DependencyLock → DependencyChoice → Result Conflict DependencyLock
merged d index lock choice = do
  nodes ← merge_nodes (choice.node ∷ choice.lock.nodes) lock.nodes
  edges ← merge_edges choice.node.version_id choice.lock.edges lock.edges
  ok (record {
    format_version = 1;
    nodes =
        sort (λ a b. str_eq a.version_id b.version_id) (λ a b. str_lt a.version_id b.version_id)
          nodes;
    edges = sort same_edge edge_before (
        put_edge
          (record {
            dependency = d;
            parent = root_id;
            child = choice.node.version_id;
            ordinal = index;
          })
          edges);
  })
