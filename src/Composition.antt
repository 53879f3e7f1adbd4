-- ===== src/Composition.antt =====
-- `validateLock` of packages/domain/src/composition.ts: the validation of the locks that pin the
-- dependencies of a skill.
pub mod Lock
pub mod Merge
pub mod Resolve
pub mod Bounds
pub mod Heights
pub mod Traversal
pub mod Validity
pub mod Sound
pub mod Chosen
pub mod Declared
pub mod Covered
pub mod Order
pub mod Placed
pub mod Resolution
mod Tests
use Prim.Native.String
use skillplane.Composition.Lock.{
  Conflict, DependencyEdge, DependencyLock, DependencyNode, Limits, Mode, Root, Scope, Semver,
  SkillDependency, both, byte_limit, composition_limits, constraint_invalid, cycle, cycle_at_root,
  dependency_invalid, depth_limit, edge_conflict, execution, fan_out_invalid, fuel_out, include,
  invoke, is_dependency, is_edge, is_node, is_selector, lock_invalid, node_conflict, node_duplicate,
  node_limit, node_missing, search_limit, size_invalid, unreachable, unsatisfied, verification,
  versions_incompatible,
}
use skillplane.Common.{
  ℕ, zero, suc, ◌+◌, max, String, Option, none, some, Bool, true, false, not, ◌&&◌, ◌||◌, List, [],
  ◌∷◌, ◌==◌, str_eq, all, any, contains, distinct, filter, find, length, map, is_some, ltb, leb,
  get_or, Result, ok, err, ◌>>=◌, ◌>>◌, require, if◌then◌else◌,
}
use skillplane.Common.Text.{codes, js_length, trim}
use skillplane.Common.Json.{max_safe_integer}
use skillplane.ControlPlane.Objects.{is_hex_digest, slice_from}

-- `new Set(xs).size === xs.length`
abbrev pub distinct_ordinals : List ℕ → Bool
distinct_ordinals [] = true
distinct_ordinals (x ∷ xs) = not (any (λ y. y == x) xs) && distinct_ordinals xs

abbrev pub ids : DependencyLock → List String
ids lock = map (λ n. n.version_id) lock.nodes

abbrev pub root_id : String
root_id = "$root"

abbrev pub identity : String → String → String
identity workspace skill = String.◌++◌ workspace (String.◌++◌ "/" skill)

-- `identities`
abbrev Identities : Type 0
Identities = String → Option String

abbrev is_other : Option String → String → Bool
is_other none id = false
is_other (some old) id = not (str_eq old id)

-- The loop over the nodes, which sums their bytes.
abbrev check_nodes : Root → List DependencyNode → Identities → ℕ → Result Conflict ℕ
check_nodes root [] seen bytes = ok bytes
check_nodes root (n ∷ ns) seen bytes =
    let name = identity n.workspace n.skill in
    let rest =
      check_nodes root ns (λ k. if str_eq name k then some n.version_id else seen k)
        (bytes + n.expanded_bytes) in
    if str_eq name (identity root.workspace root.skill)
    then err cycle_at_root
    else if is_other (seen name) n.version_id
    then err versions_incompatible
    else if ltb max_safe_integer n.expanded_bytes
    then err size_invalid
    else rest

-- `memo` and `reached`
pub record Visited : Type 0 where
  pub memo : String → Option ℕ
  pub reached : List String

abbrev pub add : String → List String → List String
add x xs = if contains xs x then xs else x ∷ xs

abbrev pub reach : String → Visited → Visited
reach child v = record v { reached = add child v.reached }

abbrev pub remember : String → ℕ → Visited → Visited
remember parent h v = record v { memo = λ k. if str_eq parent k then some h else v.memo k }

abbrev pub node_of : DependencyLock → String → Option DependencyNode
node_of lock id = find (λ n. str_eq n.version_id id) lock.nodes

abbrev pub fits : Semver → DependencyEdge → Option DependencyNode → Bool
fits semver e none = false
fits semver e (some n) =
    semver.valid_range e.dependency.version
    && semver.satisfies n.semantic_version e.dependency.version
    && str_eq n.workspace e.dependency.workspace
    && str_eq n.skill e.dependency.skill

abbrev pub edges_of : DependencyLock → String → List DependencyEdge
edges_of lock parent = filter (λ e. str_eq e.parent parent) lock.edges

unfoldable pub is_fan_out : Limits → List DependencyEdge → Bool
is_fan_out limits edges =
    leb (length edges) limits.fan_out
    && distinct (map (λ e. e.dependency.alias) edges)
    && distinct_ordinals (map (λ e. e.ordinal) edges)

-- A visit of a parent gives its height and what has been visited.
abbrev pub Visit : Type 0
Visit = String → Visited → Result Conflict (ℕ × Visited)

-- The loop over the edges of a parent.
abbrev pub heights :
    Semver
    → DependencyLock
    → Visit
    → List DependencyEdge
    → ℕ
    → Visited
    → Result Conflict (ℕ × Visited)
heights semver lock visit [] result v = ok (result, v)
heights semver lock visit (e ∷ es) result v =
    if not (fits semver e (node_of lock e.child))
    then err dependency_invalid
    else (visit e.child (reach e.child v) >>= λ p.
        heights semver lock visit es (max result (1 + p.0)) p.1)

abbrev pub remembered : String → Result Conflict (ℕ × Visited) → Result Conflict (ℕ × Visited)
remembered parent (err c) = err c
remembered parent (ok (h, v)) = ok (h, remember parent h v)

-- `height`, on fuel. `active` holds the parents that the recursion is in.
unfoldable pub height :
    Semver
    → Limits
    → DependencyLock
    → ℕ
    → String
    → List String
    → Visited
    → Result Conflict (ℕ × Visited)
height semver limits lock zero parent active v = err fuel_out
height semver limits lock (suc n) parent active v =
    if contains active parent then err cycle else elim (v.memo parent) [
      | some h ↦ ok (h, v)
      | none ↦
          if not (is_fan_out limits (edges_of lock parent))
          then err fan_out_invalid
          else remembered parent (
              heights semver lock (λ child w. height semver limits lock n child (parent ∷ active) w)
                (edges_of lock parent) 0 v)
    ]

abbrev pub unvisited : Visited
unvisited = record { memo = λ k. none; reached = [] }

-- The checks behind the traversal.
abbrev pub check_closure : Limits → DependencyLock → ℕ × Visited → Result Conflict (Unit {0})
check_closure limits lock (h, v) =
    if ltb limits.depth h
    then err depth_limit
    else if not (length v.reached == length lock.nodes)
        || any (λ e. not (str_eq e.parent root_id) && not (contains (ids lock) e.parent)) lock.edges
    then err unreachable
    else ok tt

-- The traversal has one level of fuel more than `$root` and the nodes, one after the other.
unfoldable pub validate_lock : Semver → Limits → Root → DependencyLock → Result Conflict (Unit {0})
validate_lock semver limits root lock = do
  require (all (is_node semver) lock.nodes && all is_edge lock.edges) lock_invalid
  require (lock.format_version == 1 && leb (length lock.nodes) limits.nodes) node_limit
  require (distinct (ids lock) && not (contains (ids lock) root_id)) node_duplicate
  bytes ← check_nodes root lock.nodes (λ k. none) root.expanded_bytes
  require (leb bytes limits.expanded_bytes) byte_limit
  visited ← height semver limits lock (suc (suc (length lock.nodes))) root_id [] unvisited
  check_closure limits lock visited
