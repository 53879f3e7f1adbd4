-- ===== src/Composition/Heights.antt =====
-- What the traversal of a lock knows of the parents that it has left.
use skillplane.Common.{
  ℕ, ◌+◌, ◌≤◌, ◌<◌, ◌≡◌, subst, String, none, some, true, Bool-cases, Result-cases, ◌⊎◌, inl, inr,
  List, [], ◌∷◌, All, Any, str_eq, eq_iff, contains, distinct, arith, ok, max,
}
use skillplane.Composition.{
  Visited, Visit, ids, root_id, add, reach, node_of, fits, edges_of, is_fan_out, heights,
}
use skillplane.Composition.Lock.{Semver, Limits, DependencyEdge, DependencyLock}
use skillplane.Composition.Bounds.{fits-contains}

-- The edge is one of the lock's.
abbrev pub HasEdge : DependencyLock → DependencyEdge → Type 0
HasEdge lock e = Any (λ x. x ≡ e) lock.edges

-- Edges lead from the root to a version.
pub data IsReachable (lock : DependencyLock) : String → Type 0 where
  at_root : IsReachable lock root_id
  along :
      (e : DependencyEdge) → HasEdge lock e → IsReachable lock e.parent → IsReachable lock e.child

module _ (semver : Semver) (limits : Limits) (lock : DependencyLock) where
  -- An edge that fits, to a child that is finished with a smaller height.
  pub record IsFinished (v : Visited) (h : ℕ) (e : DependencyEdge) : Type 0 where
    pub fit : fits semver e (node_of lock e.child) ≡ true
    pub below : ℕ
    pub there : v.memo e.child ≡ some below
    pub less : below < h

  pub record IsKnown (active : List String) (v : Visited) : Type 0 where
    pub finished :
        (p : String) (h : ℕ)
        → v.memo p ≡ some h
        → (e : DependencyEdge) → HasEdge lock e
        → e.parent ≡ p
        → IsFinished v h e
    pub fanned :
        (p : String) (h : ℕ) → v.memo p ≡ some h → is_fan_out limits (edges_of lock p) ≡ true
    pub open_memo : (x : String) → contains active x ≡ true → v.memo x ≡ none
    pub reachable : (x : String) → contains v.reached x ≡ true → IsReachable lock x
    pub members : (x : String) → contains v.reached x ≡ true → contains (ids lock) x ≡ true
    pub unique : distinct v.reached ≡ true

  -- What is reached is finished or in work.
  abbrev pub IsPending : List String → Visited → Type 0
  IsPending active v =
      (x : String)
      → contains v.reached x ≡ true
      → ((h : ℕ) × (v.memo x ≡ some h)) ⊎ (contains active x ≡ true)

  abbrev pub IsKept : Visited → Visited → Type 0
  IsKept v w = (x : String) (h : ℕ) → v.memo x ≡ some h → w.memo x ≡ some h

  -- What a visit of a parent leaves.
  pub record IsVisited (active : List String) (parent : String) (v : Visited) (h : ℕ) (w : Visited)
      : Type 0 where
    pub known : IsKnown active w
    pub pending : IsPending active w
    pub kept : IsKept v w
    pub memo : w.memo parent ≡ some h

  add-cases :
      (y x : String) (xs : List String)
      → contains (add y xs) x ≡ true
      → (contains xs x ≡ true) ⊎ (y ≡ x)
  add-cases y x xs h = elim (Bool-cases (contains xs y)) [
    | inl e ↦ inl (ground (arith, h, e))
    | inr n ↦ elim (Bool-cases (str_eq y x)) [
      | inl e ↦ inr ((eq_iff y x).0 e)
      | inr m ↦ inl (ground (arith, h, n, m))
    ]
  ]

  distinct-add : (y : String) (xs : List String) → distinct xs ≡ true → distinct (add y xs) ≡ true
  distinct-add y xs d = ground (arith, d)

  -- To reach a child of a reachable parent.
  reach-IsKnown :
      (active : List String) (v : Visited) (child : String)
      → IsKnown active v
      → IsReachable lock child
      → contains (ids lock) child ≡ true
      → IsKnown active (reach child v)
  reach-IsKnown active v child k r m = record {
    finished = λ p h e x there same.
        let f = k.finished p h e x there same in
        record { fit = f.fit; below = f.below; there = f.there; less = f.less };
    fanned = k.fanned;
    open_memo = k.open_memo;
    reachable = λ x h. elim (add-cases child x v.reached h) [
      | inl old ↦ k.reachable x old
      | inr same ↦ subst (IsReachable lock) same r
    ];
    members = λ x h. elim (add-cases child x v.reached h) [
      | inl old ↦ k.members x old
      | inr same ↦ subst (λ y. contains (ids lock) y ≡ true) same m
    ];
    unique = distinct-add child v.reached k.unique;
  }

  reach-IsPending :
      (active : List String) (v : Visited) (child : String)
      → IsPending active v
      → IsPending (child ∷ active) (reach child v)
  reach-IsPending active v child p x h = elim (add-cases child x v.reached h) [
    | inr same ↦ inr (ground (arith, (eq_iff child x).1 same))
    | inl old ↦ elim (p x old) [ inl done ↦ inl done | inr a ↦ inr (ground (arith, a)) ]
  ]

  -- What the loop over edges leaves.
  pub record IsPassed (active : List String) (es : List DependencyEdge) (r : ℕ) (v : Visited)
      (h : ℕ) (w : Visited) : Type 0 where
    pub known : IsKnown active w
    pub pending : IsPending active w
    pub kept : IsKept v w
    pub more : r ≤ h
    pub each : All (IsFinished w h) es

  -- A visit leaves what it must, at every child.
  abbrev pub Visits : List String → Visit → Type 0
  Visits active visit =
      (child : String) (v : Visited) (h : ℕ) (w : Visited)
      → IsReachable lock child
      → IsKnown active v
      → IsPending (child ∷ active) v
      → visit child v ≡ ok (h, w)
      → IsVisited active child v h w

  pub heights-IsPassed :
      (active : List String) (visit : Visit)
      → Visits active visit
      → (es : List DependencyEdge) → All (λ e. HasEdge lock e × IsReachable lock e.parent) es
      → (r : ℕ) (v : Visited) (h : ℕ) (w : Visited) → IsKnown active v
      → IsPending active v
      → heights semver lock visit es r v ≡ ok (h, w)
      → IsPassed active es r v h w
  heights-IsPassed active visit ok_visit [] given r v h w k p q =
      let same : v ≡ w = cc q in
      let height : r ≡ h = cc q in
      record {
        known = subst (IsKnown active) same k;
        pending = subst (IsPending active) same p;
        kept = subst (IsKept v) same (λ x n e. e);
        more = omega (arith, height);
        each = tt;
      }
  heights-IsPassed active visit ok_visit (e ∷ es) ((has, from), given) r v h w k p q =
      elim (Bool-cases (fits semver e (node_of lock e.child))) [
        | inr n ↦ absurd (ground (arith, q, n))
        | inl y ↦ elim (Result-cases (visit e.child (reach e.child v))) [
          | inr (c, s) ↦ absurd (ground (arith, q, y, s))
          | inl ((g, u), s) ↦
              let to : IsReachable lock e.child = along e has from in
              let one =
                ok_visit e.child (reach e.child v) g u to
                  (reach-IsKnown active v e.child k to (fits-contains semver lock e y))
                  (reach-IsPending active v e.child p) s in
              let rest =
                heights-IsPassed active visit ok_visit es given (max r (1 + g)) u h w one.known
                  one.pending (ground (arith, q, y, s)) in
              record {
                known = rest.known;
                pending = rest.pending;
                kept = λ x n m. rest.kept x n (one.kept x n m);
                more = omega (arith, rest.more);
                each = (
                  record {
                    fit = y;
                    below = g;
                    there = rest.kept e.child g one.memo;
                    less = omega (arith, rest.more);
                  },
                  rest.each,
                );
              }
        ]
      ]
