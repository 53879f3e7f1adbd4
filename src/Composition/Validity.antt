-- ===== src/Composition/Validity.antt =====
-- What makes a lock of dependencies sound.
use skillplane.Common.{
  ℕ, ◌+◌, ◌≤◌, ◌<◌, ◌≡◌, String, some, true, false, List, [], ◌∷◌, contains, distinct, length, map,
}
use skillplane.Composition.{ids, root_id, node_of, edges_of}
use skillplane.Composition.Lock.{
  Semver, Limits, Root, DependencyNode, DependencyEdge, DependencyLock,
}
use skillplane.Composition.Heights.{HasEdge, IsReachable}

-- The bytes of the nodes.
abbrev pub total_bytes : List DependencyNode → ℕ
total_bytes [] = 0
total_bytes (n ∷ ns) = n.expanded_bytes + total_bytes ns

-- The edge leads to a node of the lock, a version of the skill that its parent asks for.
pub record IsResolved (semver : Semver) (lock : DependencyLock) (e : DependencyEdge) : Type 0 where
  pub node : DependencyNode
  pub there : node_of lock e.child ≡ some node
  pub satisfied : semver.satisfies node.semantic_version e.dependency.version ≡ true
  pub workspace : node.workspace ≡ e.dependency.workspace
  pub skill : node.skill ≡ e.dependency.skill

-- The rank of a version decreases along every edge, so that no edges form a cycle and no path is
-- longer than the limit; every edge is resolved; the edges lead from the root to every node; no
-- node stands twice or has the id of the root; and the other limits hold.
pub record IsSound (semver : Semver) (limits : Limits) (root : Root) (lock : DependencyLock)
    : Type 0 where
  pub rank : String → ℕ
  pub depth : rank root_id ≤ limits.depth
  pub descends : (e : DependencyEdge) → HasEdge lock e → rank e.child < rank e.parent
  pub resolved : (e : DependencyEdge) → HasEdge lock e → IsResolved semver lock e
  pub reachable : (id : String) → contains (ids lock) id ≡ true → IsReachable lock id
  pub fan_out :
      (id : String)
      → contains (root_id ∷ ids lock) id ≡ true
      → (length (edges_of lock id) ≤ limits.fan_out)
        × (distinct (map (λ e. e.dependency.alias) (edges_of lock id)) ≡ true)
  pub apart : (distinct (ids lock) ≡ true) × (contains (ids lock) root_id ≡ false)
  pub nodes : length lock.nodes ≤ limits.nodes
  pub bytes : root.expanded_bytes + total_bytes lock.nodes ≤ limits.expanded_bytes
