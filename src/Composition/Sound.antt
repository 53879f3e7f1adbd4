-- ===== src/Composition/Sound.antt =====
-- The validation of a lock against what makes a lock sound.
use skillplane.Composition.Validity.{IsResolved, IsSound, total_bytes}
use skillplane.Common.{
  ℕ, suc, ◌+◌, ◌≤◌, ◌≡◌, refl, sym, subst, String, Option, none, some, Bool, true, false,
  Bool-cases, Option-cases, inl, inr, not, ◌&&◌, List, [], ◌∷◌, Any, any, str_eq, eq_iff, contains,
  distinct, distinct-length, length, map, arith, Result, ok, get_or, if◌then◌else◌, >>=-eq-ok,
  ◌>>=◌, ◌==◌, leb, require, leb→le,
}
use skillplane.Composition.{
  Visited, ids, root_id, identity, node_of, fits, edges_of, is_fan_out, height, unvisited,
  check_nodes, check_closure, validate_lock,
}
use skillplane.Composition.Lock.{
  Semver, Limits, Root, DependencyNode, DependencyEdge, DependencyLock, Conflict, lock_invalid,
  node_limit, node_duplicate, byte_limit,
}
use skillplane.Composition.Bounds.{length-ids}
use skillplane.Composition.Heights.{HasEdge, at_root, IsFinished, IsKnown, IsVisited}
use skillplane.Composition.Traversal.{height-Visits}

fits-IsResolved :
    (semver : Semver) (lock : DependencyLock) (e : DependencyEdge)
    → fits semver e (node_of lock e.child) ≡ true
    → IsResolved semver lock e
fits-IsResolved semver lock e h = elim (Option-cases (node_of lock e.child)) [
  | inl absent ↦ absurd (ground (arith, h, absent))
  | inr (n, there) ↦
      let fit : fits semver e (some n) ≡ true = cc (h, there) in
      record {
        node = n;
        there = there;
        satisfied = ground (arith, fit);
        workspace = (eq_iff n.workspace e.dependency.workspace).0 (ground (arith, fit));
        skill = (eq_iff n.skill e.dependency.skill).0 (ground (arith, fit));
      }
]

fan_out-bounds :
    (limits : Limits) (es : List DependencyEdge)
    → is_fan_out limits es ≡ true
    → (length es ≤ limits.fan_out) × (distinct (map (λ e. e.dependency.alias) es) ≡ true)
unfolding is_fan_out
fan_out-bounds limits es h = (ground (arith, h), ground (arith, h))

check_nodes-total :
    (root : Root) (ns : List DependencyNode) (seen : String → Option String) (bytes total : ℕ)
    → check_nodes root ns seen bytes ≡ ok total
    → total ≡ bytes + total_bytes ns
check_nodes-total root [] seen bytes total q = let same : bytes ≡ total = cc q in omega arith
check_nodes-total root (n ∷ ns) seen bytes total q =
    let name = identity n.workspace n.skill in
    let rest =
      check_nodes-total root ns (λ k. if str_eq name k then some n.version_id else seen k)
        (bytes + n.expanded_bytes) total (ground (arith, q)) in
    omega arith

-- A test that no edge passes.
no-edge :
    (p : DependencyEdge → Bool) (es : List DependencyEdge) (e : DependencyEdge)
    → any p es ≡ false
    → Any (λ x. x ≡ e) es
    → p e ≡ false
no-edge p [] e h at = absurd at
no-edge p (x ∷ xs) e h at = elim at [
  | inl is ↦ subst (λ y. p y ≡ false) is (ground (arith, h))
  | inr more ↦ no-edge p xs e (ground (arith, h)) more
]

-- Distinct members of a list that are as many as the list has are all of it.
contains-full :
    (xs ys : List String) (z : String)
    → distinct xs ≡ true
    → ((x : String) → contains xs x ≡ true → contains ys x ≡ true)
    → length xs ≡ length ys
    → contains ys z ≡ true
    → contains xs z ≡ true
contains-full xs ys z d sub same h = elim (Bool-cases (contains xs z)) [
  | inl y ↦ y
  | inr n ↦
      let more = distinct-length (z ∷ xs) ys (ground (arith, n, d)) (inside) in absurd (omega arith)
]
  where
    inside : (x : String) → contains (z ∷ xs) x ≡ true → contains ys x ≡ true
    inside x e = elim (Bool-cases (str_eq z x)) [
      | inl y ↦ subst (λ k. contains ys k ≡ true) ((eq_iff z x).0 y) h
      | inr n ↦ sub x (ground (arith, e, n))
    ]

pub require-true :
    {B : Type 0} (b : Bool) (c : Conflict) (f : Result Conflict B) {a : B}
    → (require b c >>= λ done. f) ≡ ok a
    → (b ≡ true) × (f ≡ ok a)
require-true true c f q = (refl, q)
require-true false c f q = cc

module _ (semver : Semver) (limits : Limits) (lock : DependencyLock) where
  unvisited-IsKnown : IsKnown semver limits lock [] unvisited
  unvisited-IsKnown = record {
    finished = λ p h e. cc;
    fanned = λ p h e. cc;
    open_memo = λ x h. refl;
    reachable = λ x h. cc;
    members = λ x h. cc;
    unique = refl;
  }

  -- After the traversal from the root, with every node reached.
  module _ (h : ℕ) (v : Visited) (left : IsVisited semver limits lock [] root_id unvisited h v)
      (full : length v.reached ≡ length lock.nodes) where
    reached-all : (id : String) → contains (ids lock) id ≡ true → contains v.reached id ≡ true
    reached-all id =
        contains-full v.reached (ids lock) id left.known.unique left.known.members
          (omega (arith, full, length-ids lock.nodes))

    memo-all :
        (id : String) → contains (root_id ∷ ids lock) id ≡ true → (k : ℕ) × (v.memo id ≡ some k)
    memo-all id e = elim (Bool-cases (str_eq root_id id)) [
      | inl y ↦ (h, subst (λ k. v.memo k ≡ some h) ((eq_iff root_id id).0 y) left.memo)
      | inr n ↦ elim (left.pending id (reached-all id (ground (arith, e, n)))) [
        | inl done ↦ done
        | inr active ↦ cc
      ]
    ]

    -- An edge starts at the root or at a node, which has been left.
    edge-IsFinished :
        any (λ e. not (str_eq e.parent root_id) && not (contains (ids lock) e.parent)) lock.edges
          ≡ false
        → (e : DependencyEdge) → HasEdge lock e
        → (k : ℕ) × (v.memo e.parent ≡ some k) × IsFinished semver limits lock v k e
    edge-IsFinished anchored e has =
        let from =
          no-edge (λ e. not (str_eq e.parent root_id) && not (contains (ids lock) e.parent))
            lock.edges e anchored has in
        let (k, done) = memo-all e.parent (start from) in
        (k, done, left.known.finished e.parent k done e has refl)
      where
        start :
            (not (str_eq e.parent root_id) && not (contains (ids lock) e.parent)) ≡ false
            → contains (root_id ∷ ids lock) e.parent ≡ true
        start from = elim (Bool-cases (str_eq e.parent root_id)) [
          | inl y ↦
              ground (arith, (eq_iff root_id e.parent).1 (sym ((eq_iff e.parent root_id).0 y)))
          | inr n ↦ ground (arith, from, n)
        ]

  closure-cases :
      (h : ℕ) (v : Visited)
      → check_closure limits lock (h, v) ≡ ok tt
      → (h ≤ limits.depth)
        × (length v.reached ≡ length lock.nodes)
        × (any (λ e. not (str_eq e.parent root_id) && not (contains (ids lock) e.parent)) lock.edges
            ≡ false)
  closure-cases h v q = (ground (arith, q), ground (arith, q), ground (arith, q))

  traversed-IsSound :
      (root : Root) (h : ℕ) (v : Visited)
      → (distinct (ids lock) ≡ true) × (contains (ids lock) root_id ≡ false)
      → length lock.nodes ≤ limits.nodes
      → root.expanded_bytes + total_bytes lock.nodes ≤ limits.expanded_bytes
      → height semver limits lock (suc (suc (length lock.nodes))) root_id [] unvisited ≡ ok (h, v)
      → check_closure limits lock (h, v) ≡ ok tt
      → IsSound semver limits root lock
  traversed-IsSound root h v apart few small q c =
      let (shallow, full, anchored) = closure-cases h v c in
      let left =
        height-Visits semver limits lock (suc (suc (length lock.nodes))) [] root_id unvisited h v
          at_root unvisited-IsKnown (λ x e. cc) q in
      record {
        rank = λ id. get_or (v.memo id) 0;
        depth = ground (arith, left.memo, shallow);
        descends = λ e has.
            let (k, done, f) = edge-IsFinished h v left full anchored e has in
            ground (arith, done, f.there, f.less);
        resolved = λ e has.
            let (k, done, f) = edge-IsFinished h v left full anchored e has in
            fits-IsResolved semver lock e f.fit;
        reachable = λ id e. left.known.reachable id (reached-all h v left full id e);
        fan_out = λ id e.
            let (k, done) = memo-all h v left full id e in
            fan_out-bounds limits (edges_of lock id) (left.known.fanned id k done);
        apart = apart;
        nodes = few;
        bytes = small;
      }

  -- A lock that the validation lets through has every edge resolved to a version that its parent
  -- asks for, every node on a path of edges from the root, no cycle, no path, fan-out, number of
  -- nodes or sum of bytes beyond its limit, and no alias twice below one parent.
  pub validate_lock-IsSound :
      (root : Root)
      → validate_lock semver limits root lock ≡ ok tt
      → IsSound semver limits root lock
  unfolding validate_lock
  validate_lock-IsSound root q =
      let (shape, q1) = require-true _ lock_invalid _ q in
      let (sized, q2) = require-true _ node_limit _ q1 in
      let (apart, q3) = require-true _ node_duplicate _ q2 in
      let (bytes, summed, q4) = >>=-eq-ok _ _ q3 in
      let (small, q5) = require-true _ byte_limit _ q4 in
      let ((h, v), visited, q6) = >>=-eq-ok _ _ q5 in
      traversed-IsSound root h v (single apart) (fewer sized) (within bytes summed small) visited q6
    where
      single :
          (distinct (ids lock) && not (contains (ids lock) root_id)) ≡ true
          → (distinct (ids lock) ≡ true) × (contains (ids lock) root_id ≡ false)
      single e = (ground (arith, e), ground (arith, e))

      fewer :
          (lock.format_version == 1 && leb (length lock.nodes) limits.nodes) ≡ true
          → length lock.nodes ≤ limits.nodes
      fewer e = ground (arith, e)

      within :
          (bytes : ℕ)
          → check_nodes root lock.nodes (λ k. none) root.expanded_bytes ≡ ok bytes
          → leb bytes limits.expanded_bytes ≡ true
          → root.expanded_bytes + total_bytes lock.nodes ≤ limits.expanded_bytes
      within bytes summed small =
          let total =
            check_nodes-total root lock.nodes (λ k. none) root.expanded_bytes bytes summed in
          omega (arith, total, leb→le bytes limits.expanded_bytes small)
