-- ===== src/Composition/Bounds.antt =====
-- The fuel of the traversal of a lock, against the parents that it is in.
use skillplane.Common.{
  ℕ, zero, suc, ◌+◌, ◌≤◌, ◌≡◌, ◌≢◌, refl, sym, subst, String, Option, none, some, Bool, true, false,
  Bool-cases, Option-cases, Result-cases, inl, inr, List, [], ◌∷◌, str_eq, eq_iff, contains,
  distinct, distinct-length, find, length, map, arith, Result, ok, err, max, if◌then◌else◌, require,
  ◌>>=◌,
}
use skillplane.Composition.{
  identity, Visited, Visit, ids, root_id, reach, node_of, fits, edges_of, is_fan_out, heights,
  remembered, height, unvisited, check_nodes, check_closure, validate_lock,
}
use skillplane.Composition.Lock.{
  Semver, Limits, Root, DependencyNode, DependencyEdge, DependencyLock, Conflict, fuel_out,
  lock_invalid, node_limit, node_duplicate, byte_limit,
}

pub find-contains :
    (ns : List DependencyNode) (id : String) (n : DependencyNode)
    → find (λ m. str_eq m.version_id id) ns ≡ some n
    → contains (map (λ m. m.version_id) ns) id ≡ true
find-contains [] id n e = cc
find-contains (m ∷ ms) id n e = elim (Bool-cases (str_eq m.version_id id)) [
  | inl y ↦ ground (arith, y)
  | inr k ↦ let rest = find-contains ms id n (ground (arith, e, k)) in ground (arith, rest)
]

pub fits-contains :
    (semver : Semver) (lock : DependencyLock) (e : DependencyEdge)
    → fits semver e (node_of lock e.child) ≡ true
    → contains (ids lock) e.child ≡ true
fits-contains semver lock e h = elim (Option-cases (node_of lock e.child)) [
  | inl none_there ↦ absurd (ground (arith, h, none_there))
  | inr (n, there) ↦ find-contains lock.nodes e.child n there
]

pub length-ids : (ns : List DependencyNode) → length (map (λ m. m.version_id) ns) ≡ length ns
length-ids [] = refl
length-ids (n ∷ ns) = omega (arith, length-ids ns)

pub bind-ends :
    {A : Type 0} {B : Type 0} (m : Result Conflict A) (f : A → Result Conflict B)
    → m ≢ err fuel_out
    → ((a : A) → f a ≢ err fuel_out)
    → (m >>= f) ≢ err fuel_out
bind-ends (ok a) f ends rest q = rest a q
bind-ends (err c) f ends rest q = ends (cc q)

pub require-ends :
    {B : Type 0} (b : Bool) (c : Conflict) (f : Result Conflict B)
    → c ≢ fuel_out
    → f ≢ err fuel_out
    → (require b c >>= λ done. f) ≢ err fuel_out
require-ends true c f other rest q = rest q
require-ends false c f other rest q = other (cc q)

module _ (semver : Semver) (limits : Limits) (lock : DependencyLock) where
  -- A loop whose visits do not run out of fuel does not either.
  heights-ends :
      (visit : Visit)
      → ((child : String) (v : Visited)
          → contains (ids lock) child ≡ true
          → visit child v ≢ err fuel_out)
      → (es : List DependencyEdge) (result : ℕ) (v : Visited)
      → heights semver lock visit es result v ≢ err fuel_out
  heights-ends visit ends [] result v q = cc
  heights-ends visit ends (e ∷ es) result v q =
      elim (Bool-cases (fits semver e (node_of lock e.child))) [
        | inr n ↦ absurd (ground (arith, q, n))
        | inl y ↦ elim (Result-cases (visit e.child (reach e.child v))) [
          | inr (c, r) ↦
              ends e.child (reach e.child v) (fits-contains semver lock e y)
                (ground (arith, q, y, r))
          | inl ((h, w), r) ↦
              heights-ends visit ends es (max result (1 + h)) w (ground (arith, q, y, r))
        ]
      ]

  remembered-ends :
      (parent : String) (r : Result Conflict (ℕ × Visited))
      → r ≢ err fuel_out
      → remembered parent r ≢ err fuel_out
  remembered-ends parent (ok (h, w)) ends q = cc
  remembered-ends parent (err c) ends q = ends q

  height-ends :
      (n : ℕ) (parent : String) (active : List String) (v : Visited)
      → distinct active ≡ true
      → ((z : String) → contains active z ≡ true → contains (root_id ∷ ids lock) z ≡ true)
      → contains (root_id ∷ ids lock) parent ≡ true
      → length lock.nodes + 2 ≤ n + length active
      → height semver limits lock n parent active v ≢ err fuel_out
  unfolding height
  height-ends zero parent active v d sub is enough q =
      let most = distinct-length active (root_id ∷ ids lock) d sub in
      omega (arith, length-ids lock.nodes)
  height-ends (suc n) parent active v d sub is enough q =
      elim (Bool-cases (contains active parent)) [
        | inl y ↦ absurd (ground (arith, q, y))
        | inr fresh ↦ elim (Option-cases (v.memo parent)) [
          | inr (h, e) ↦ absurd (ground (arith, q, fresh, e))
          | inl e ↦ elim (Bool-cases (is_fan_out limits (edges_of lock parent))) [
            | inr f ↦ absurd (ground (arith, q, fresh, e, f))
            | inl f ↦
                remembered-ends parent
                  (heights semver lock
                    (λ child w. height semver limits lock n child (parent ∷ active) w)
                    (edges_of lock parent) 0 v)
                  (heights-ends (λ child w. height semver limits lock n child (parent ∷ active) w)
                    (λ child w there.
                      height-ends n child (parent ∷ active) w (ground (arith, d, fresh)) inside
                        (ground (arith, there)) (omega arith))
                    (edges_of lock parent) 0 v)
                  (cc (sym (opened fresh e f), q))
          ]
        ]
      ]
    where
      inside :
          (z : String)
          → contains (parent ∷ active) z ≡ true
          → contains (root_id ∷ ids lock) z ≡ true
      inside z h = elim (Bool-cases (str_eq parent z)) [
        | inl y ↦ subst (λ k. contains (root_id ∷ ids lock) k ≡ true) ((eq_iff parent z).0 y) is
        | inr k ↦ sub z (ground (arith, h, k))
      ]

      opened :
          contains active parent ≡ false
          → v.memo parent ≡ none
          → is_fan_out limits (edges_of lock parent) ≡ true
          → height semver limits lock (suc n) parent active v
            ≡ remembered parent (
                heights semver lock
                  (λ child w. height semver limits lock n child (parent ∷ active) w)
                  (edges_of lock parent)
                  0
                  v)
      opened fresh e f = rw (height, fresh, e, f) refl

  check_nodes-ends :
      (root : Root) (ns : List DependencyNode) (seen : String → Option String) (bytes : ℕ)
      → check_nodes root ns seen bytes ≢ err fuel_out
  check_nodes-ends root [] seen bytes q = cc
  check_nodes-ends root (n ∷ ns) seen bytes q =
      let name = identity n.workspace n.skill in
      let rest =
        check_nodes-ends root ns (λ k. if str_eq name k then some n.version_id else seen k)
          (bytes + n.expanded_bytes) in
      ground (arith, q, rest)

  check_closure-ends : (p : ℕ × Visited) → check_closure limits lock p ≢ err fuel_out
  check_closure-ends (h, v) q = ground (arith, q)

  -- The validation of a lock ends within its fuel, whatever its nodes and edges are: also where the
  -- edges form cycles, or name parents and children that are no nodes.
  pub validate_lock-ends : (root : Root) → validate_lock semver limits root lock ≢ err fuel_out
  unfolding validate_lock
  validate_lock-ends root =
      require-ends _ lock_invalid _ (λ q. cc)
        (require-ends _ node_limit _ (λ q. cc)
          (require-ends _ node_duplicate _ (λ q. cc)
            (bind-ends _ _ (check_nodes-ends root lock.nodes (λ k. none) root.expanded_bytes)
              (λ bytes.
                require-ends _ byte_limit _ (λ q. cc)
                  (bind-ends _ _
                    (height-ends (suc (suc (length lock.nodes))) root_id [] unvisited refl
                      (λ z h. cc) (ground (arith, (eq_iff root_id root_id).1 refl)) (omega arith))
                    check_closure-ends)))))
