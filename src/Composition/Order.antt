-- ===== src/Composition/Order.antt =====
-- The order of the versions in a resolution.
use skillplane.Common.{
  ◌≡◌, refl, subst, String, some, true, Bool-cases, ◌⊎◌, inl, inr, List, [], ◌∷◌, ◌++◌, All, find,
  str_eq, eq_iff, contains, map, ltb, arith,
}
use skillplane.Common.Sorting.{sort-All, sort-All_back}
use skillplane.Composition.{edges_of}
use skillplane.Composition.Lock.{DependencyNode, DependencyEdge, DependencyLock}
use skillplane.Composition.Heights.{HasEdge}
use skillplane.Composition.Traversal.{filter-edges, edges_of-given}
use skillplane.Composition.Resolve.{edges_by_ordinal}
use skillplane.Composition.Merge.{same_edge}

abbrev pub ids_of : List DependencyNode → List String
ids_of ns = map (λ n. n.version_id) ns

-- Whatever an edge leads to stands before what it starts from, or in `before`.
abbrev pub IsFirst : DependencyLock → List String → List DependencyNode → Type 0
IsFirst lock before [] = Unit
IsFirst lock before (n ∷ ns) =
    ((e : DependencyEdge)
      → HasEdge lock e
      → e.parent ≡ n.version_id
      → contains before e.child ≡ true)
    × IsFirst lock (n.version_id ∷ before) ns

pub find-version_id :
    (ns : List DependencyNode) (id : String) (n : DependencyNode)
    → find (λ m. str_eq m.version_id id) ns ≡ some n
    → n.version_id ≡ id
find-version_id [] id n e = cc
find-version_id (m ∷ ms) id n e = elim (Bool-cases (str_eq m.version_id id)) [
  | inl y ↦
      let same : m ≡ n = ground (arith, e, y) in
      subst (λ k. k.version_id ≡ id) same ((eq_iff m.version_id id).0 y)
  | inr k ↦ find-version_id ms id n (ground (arith, e, k))
]

pub contains-append :
    (ns : List DependencyNode) (n : DependencyNode) (x : String)
    → contains (ids_of ns) x ≡ true
    → contains (ids_of (ns ++ (n ∷ []))) x ≡ true
contains-append [] n x h = cc
contains-append (m ∷ ms) n x h = elim (Bool-cases (str_eq m.version_id x)) [
  | inl y ↦ ground (arith, y)
  | inr k ↦ let rest = contains-append ms n x (ground (arith, h, k)) in ground (arith, rest)
]

pub contains-last :
    (ns : List DependencyNode) (n : DependencyNode)
    → contains (ids_of (ns ++ (n ∷ []))) n.version_id ≡ true
contains-last [] n = ground (arith, (eq_iff n.version_id n.version_id).1 refl)
contains-last (m ∷ ms) n = let rest = contains-last ms n in ground (arith, rest)

pub IsFirst-append :
    (lock : DependencyLock) (before : List String) (ns : List DependencyNode) (n : DependencyNode)
    → IsFirst lock before ns
    → ((e : DependencyEdge)
        → HasEdge lock e
        → e.parent ≡ n.version_id
        → (contains before e.child ≡ true) ⊎ (contains (ids_of ns) e.child ≡ true))
    → IsFirst lock before (ns ++ (n ∷ []))
IsFirst-append lock before [] n h k =
    (λ e has same. elim (k e has same) [ inl there ↦ there | inr nowhere ↦ cc ], tt)
IsFirst-append lock before (m ∷ ms) n (h, hs) k = (
  h,
  IsFirst-append lock (m.version_id ∷ before) ms n hs (λ e has same. elim (k e has same) [
    | inl there ↦ inl (ground (arith, there))
    | inr later ↦ elim (Bool-cases (str_eq m.version_id e.child)) [
      | inl y ↦ inl (ground (arith, y))
      | inr other ↦ inr (ground (arith, later, other))
    ]
  ]),
)

-- What holds of the edges of a parent holds of the edges that its visit goes through, and back.
pub by_ordinal-All :
    (lock : DependencyLock) (parent : String) (Q : DependencyEdge → Type 0)
    → ((e : DependencyEdge) → HasEdge lock e → e.parent ≡ parent → Q e)
    → All Q (edges_by_ordinal lock parent)
by_ordinal-All lock parent Q h =
    sort-All same_edge (λ a b. ltb a.ordinal b.ordinal) Q (edges_of lock parent)
      (edges_of-given parent lock.edges Q h)

pub by_ordinal-edge :
    (lock : DependencyLock) (parent : String) (Q : DependencyEdge → Type 0)
    → All Q (edges_by_ordinal lock parent)
    → (e : DependencyEdge) → HasEdge lock e
    → e.parent ≡ parent
    → Q e
by_ordinal-edge lock parent Q h =
    filter-edges parent lock.edges Q
      (sort-All_back same_edge (λ a b. ltb a.ordinal b.ordinal) Q (edges_of lock parent) h)
