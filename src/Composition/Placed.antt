-- ===== src/Composition/Placed.antt =====
-- The visit that orders the versions of a valid lock.
use skillplane.Common.{
  ℕ, zero, suc, ◌≤◌, ◌<◌, ◌≡◌, refl, sym, subst, String, some, true, Bool-cases, ◌⊎◌, inl, inr,
  List, [], ◌∷◌, ◌++◌, All, str_eq, eq_iff, contains, Result, ok, arith,
}
use skillplane.Composition.{ids, root_id, node_of}
use skillplane.Composition.Lock.{
  DependencyNode, DependencyEdge, DependencyLock, Limits, Root, Semver, Conflict,
}
use skillplane.Composition.Heights.{HasEdge, IsReachable, at_root, along}
use skillplane.Composition.Validity.{IsSound}
use skillplane.Composition.Resolve.{Order, edges_by_ordinal, visit_each, visit}
use skillplane.Composition.Order.{
  ids_of, IsFirst, find-version_id, contains-append, contains-last, IsFirst-append, by_ordinal-All,
  by_ordinal-edge,
}

module _ (semver : Semver) (limits : Limits) (root : Root) (lock : DependencyLock)
    (sound : IsSound semver limits root lock) where
  -- What is seen is ordered already, or still in work, at a rank from a bound on.
  record IsPlaced (bound : ℕ) (o : Order) : Type 0 where
    pub first : IsFirst lock [] o.ordered
    pub waiting :
        (x : String)
        → contains o.seen x ≡ true
        → (contains (ids_of o.ordered) x ≡ true) ⊎ (bound ≤ sound.rank x)

  -- What a loop over edges leaves.
  record IsEachLeft (es : List DependencyEdge) (o o' : Order) : Type 0 where
    pub first : IsFirst lock [] o'.ordered
    pub kept :
        (x : String) → contains (ids_of o.ordered) x ≡ true → contains (ids_of o'.ordered) x ≡ true
    pub seen :
        (x : String)
        → contains o'.seen x ≡ true
        → (contains (ids_of o'.ordered) x ≡ true) ⊎ (contains o.seen x ≡ true)
    pub each : All (λ e. contains (ids_of o'.ordered) e.child ≡ true) es

  abbrev Leaves : (String → Order → Result Conflict Order) → ℕ → Type 0
  Leaves f bound =
      (child : String) (o : Order)
      → sound.rank child < bound
      → IsPlaced (sound.rank child) o
      → (o' : Order) × (f child o ≡ ok o') × IsEachLeft (edges_by_ordinal lock child) o o'

  -- A child that is not seen yet is placed behind its own children.
  module _ (e : DependencyEdge) (n : DependencyNode) (bound : ℕ) (o below : Order)
      (there : node_of lock e.child ≡ some n) (placed : IsPlaced bound o)
      (left : IsEachLeft
        (edges_by_ordinal lock e.child)
        (record o { seen = e.child ∷ o.seen })
        below) where
    abbrev next : Order
    next = record below { ordered = below.ordered ++ (n ∷ []) }

    is_child : n.version_id ≡ e.child
    is_child = find-version_id lock.nodes e.child n there

    next-child : contains (ids_of next.ordered) e.child ≡ true
    next-child =
        subst (λ k. contains (ids_of (below.ordered ++ (n ∷ []))) k ≡ true) is_child
          (contains-last below.ordered n)

    next-kept :
        (x : String)
        → contains (ids_of o.ordered) x ≡ true
        → contains (ids_of next.ordered) x ≡ true
    next-kept x h = contains-append below.ordered n x (left.kept x h)

    next-seen :
        (x : String)
        → contains next.seen x ≡ true
        → (contains (ids_of next.ordered) x ≡ true) ⊎ (contains o.seen x ≡ true)
    next-seen x h = elim (left.seen x h) [
      | inl done ↦ inl (contains-append below.ordered n x done)
      | inr old ↦ elim (Bool-cases (str_eq e.child x)) [
        | inl y ↦ inl (
            subst (λ k. contains (ids_of (below.ordered ++ (n ∷ []))) k ≡ true)
              ((eq_iff e.child x).0 y) next-child)
        | inr k ↦ inr (ground (arith, old, k))
      ]
    ]

    next-IsPlaced : IsPlaced bound next
    next-IsPlaced = record {
      first = IsFirst-append lock [] below.ordered n left.first (λ d has same. inr (
          by_ordinal-edge lock e.child (λ d. contains (ids_of below.ordered) d.child ≡ true)
            left.each d has (cc (same, is_child))));
      waiting = λ x h. elim (next-seen x h) [
        | inl done ↦ inl done
        | inr old ↦ elim (placed.waiting x old) [
          | inl done ↦ inl (next-kept x done)
          | inr far ↦ inr far
        ]
      ];
    }

  -- An edge leads to a version of smaller rank than a bound.
  abbrev Descends : ℕ → DependencyEdge → Type 0
  Descends bound e = HasEdge lock e × (sound.rank e.child < bound)

  visit_each-Leaves :
      (f : String → Order → Result Conflict Order) (bound : ℕ)
      → Leaves f bound
      → (es : List DependencyEdge) → All (Descends bound) es
      → (o : Order) → IsPlaced bound o
      → (o' : Order) × (visit_each lock f es o ≡ ok o') × IsEachLeft es o o'
  visit_each-Leaves f bound leaves [] h o p =
      (o, refl, record { first = p.first; kept = λ x e. e; seen = λ x e. inr e; each = tt })
  visit_each-Leaves f bound leaves (e ∷ es) ((has, less), h) o p =
      elim (Bool-cases (contains o.seen e.child)) [
        | inl y ↦
            let (o', q, l) = visit_each-Leaves f bound leaves es h o p in
            let done : contains (ids_of o.ordered) e.child ≡ true = elim (p.waiting e.child y) [
              | inl done ↦ done
              | inr far ↦ absurd (omega arith)
            ] in
            (
              o',
              rw y q,
              record {
                first = l.first;
                kept = l.kept;
                seen = l.seen;
                each = (l.kept e.child done, l.each);
              },
            )
        | inr k ↦
            let r = sound.resolved e has in
            let (below, q, l) =
              leaves e.child (record o { seen = e.child ∷ o.seen }) less (entered e o p less) in
            let o2 = next e r.node bound o below r.there p l in
            let (o', s, m) =
              visit_each-Leaves f bound leaves es h o2
                (next-IsPlaced e r.node bound o below r.there p l) in
            let seen = next-seen e r.node bound o below r.there p l in
            let kept = next-kept e r.node bound o below r.there p l in
            (
              o',
              rw (k, q, r.there) s,
              record {
                first = m.first;
                kept = λ x h. m.kept x (kept x h);
                seen = λ x h. elim (m.seen x h) [
                  | inl done ↦ inl done
                  | inr old ↦ elim (seen x old) [
                    | inl done ↦ inl (m.kept x done)
                    | inr older ↦ inr older
                  ]
                ];
                each = (m.kept e.child (next-child e r.node bound o below r.there p l), m.each);
              },
            )
      ]
    where
      entered :
          (e : DependencyEdge) (o : Order)
          → IsPlaced bound o
          → sound.rank e.child < bound
          → IsPlaced (sound.rank e.child) (record o { seen = e.child ∷ o.seen })
      entered e o p less = record {
        first = p.first;
        waiting = λ x h. elim (Bool-cases (str_eq e.child x)) [
          | inl y ↦ inr (
              subst (λ k. sound.rank e.child ≤ sound.rank k) ((eq_iff e.child x).0 y) (omega arith))
          | inr n ↦ elim (p.waiting x (ground (arith, h, n))) [
            | inl done ↦ inl done
            | inr far ↦ inr (omega arith)
          ]
        ];
      }

  -- The visit of a version ends with as much fuel as its rank and one more.
  visit-Leaves : (n : ℕ) → Leaves (visit lock n) n
  unfolding visit
  visit-Leaves zero child o less p = absurd (omega arith)
  visit-Leaves (suc n) child o less p =
      visit_each-Leaves (visit lock n) (sound.rank child)
        (λ c x lower q. visit-Leaves n c x (omega arith) q) (edges_by_ordinal lock child)
        (by_ordinal-All lock child (Descends (sound.rank child)) (λ e has same.
          (has, subst (λ k. sound.rank e.child < sound.rank k) same (sound.descends e has))))
        o p

  -- Every version of the lock is placed, behind the versions that it depends on.
  pub record IsOrdering (o : Order) : Type 0 where
    pub first : IsFirst lock [] o.ordered
    pub complete :
        (id : String) → contains (ids lock) id ≡ true → contains (ids_of o.ordered) id ≡ true

  IsFirst-child :
      (before : List String) (ns : List DependencyNode) (e : DependencyEdge)
      → IsFirst lock before ns
      → HasEdge lock e
      → contains (ids_of ns) e.parent ≡ true
      → (contains before e.child ≡ true) ⊎ (contains (ids_of ns) e.child ≡ true)
  IsFirst-child before [] e h has from = cc
  IsFirst-child before (n ∷ ns) e (h, hs) has from =
      elim (Bool-cases (str_eq n.version_id e.parent)) [
        | inl y ↦ inl (h e has (sym ((eq_iff n.version_id e.parent).0 y)))
        | inr k ↦
            elim (IsFirst-child (n.version_id ∷ before) ns e hs has (ground (arith, from, k))) [
              | inr later ↦ inr (ground (arith, later))
              | inl earlier ↦ elim (Bool-cases (str_eq n.version_id e.child)) [
                | inl y ↦ inr (ground (arith, y))
                | inr m ↦ inl (ground (arith, earlier, m))
              ]
            ]
      ]

  -- What is reachable is the root, or placed.
  reachable-placed :
      (o : Order)
      → IsFirst lock [] o.ordered
      → All (λ e. contains (ids_of o.ordered) e.child ≡ true) (edges_by_ordinal lock root_id)
      → (id : String) → IsReachable lock id
      → (id ≡ root_id) ⊎ (contains (ids_of o.ordered) id ≡ true)
  reachable-placed o first each id at_root = inl refl
  reachable-placed o first each id (along e has from) =
      elim (reachable-placed o first each e.parent from) [
        | inl top ↦ inr (
            by_ordinal-edge lock root_id (λ d. contains (ids_of o.ordered) d.child ≡ true) each e
              has top)
        | inr placed ↦ elim (IsFirst-child [] o.ordered e first has placed) [
          | inl nowhere ↦ cc
          | inr there ↦ inr there
        ]
      ]

  pub visit-IsOrdering :
      (o : Order) × (visit lock (suc limits.depth) root_id (record { seen = []; ordered = [] })
        ≡ ok o)
      × IsOrdering o
  visit-IsOrdering =
      let (o, q, l) =
        visit-Leaves (suc limits.depth) root_id (record { seen = []; ordered = [] })
          (omega (arith, sound.depth)) (record { first = tt; waiting = λ x h. cc }) in
      (
        o,
        q,
        record {
          first = l.first;
          complete = λ id h. elim (reachable-placed o l.first l.each id (sound.reachable id h)) [
            | inr placed ↦ placed
            | inl top ↦ cc (sound.apart.1, h, top)
          ];
        },
      )
