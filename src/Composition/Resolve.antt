-- ===== src/Composition/Resolve.antt =====
-- `orderedDependencies` and `resolveDependencies` of packages/domain/src/composition.ts. The versions
-- that may be chosen for a dependency are an argument.
use skillplane.Composition.Merge.{DependencyChoice, merged, same_edge}
use skillplane.Common.{
  ℕ, zero, suc, String, Option, none, some, Bool, not, ◌&&◌, ◌||◌, List, [], ◌∷◌, ◌++◌, ◌==◌,
  str_eq, all, contains, distinct, filter, length, map, ltb, leb, get_or, Result, ok, err, ◌>>=◌,
  ◌>>◌, require, if◌then◌else◌,
}
use skillplane.Common.Text.{str_lt}
use skillplane.Common.Sorting.{sort}
use skillplane.Composition.{root_id, node_of, edges_of, validate_lock}
use skillplane.Composition.Lock.{
  SkillDependency, DependencyNode, DependencyEdge, DependencyLock, Limits, Root, Semver, Conflict,
  fan_out_invalid, constraint_invalid, search_limit, unsatisfied, node_missing, fuel_out,
}

abbrev pub empty_lock : DependencyLock
empty_lock = record { format_version = 1; nodes = []; edges = [] }

abbrev order_of : SkillDependency → ℕ
order_of d = get_or d.order 0

abbrev dependency_before : SkillDependency → SkillDependency → Bool
dependency_before a b =
    ltb (order_of a) (order_of b) || (order_of a == order_of b && str_lt a.alias b.alias)

unfoldable pub ordered_dependencies : List SkillDependency → List SkillDependency
ordered_dependencies ds = sort (λ a b. str_eq a.alias b.alias) dependency_before ds

-- By `rcompare`, then by the id.
abbrev choice_before : Semver → DependencyChoice → DependencyChoice → Bool
choice_before semver a b =
    semver.precedes a.node.semantic_version b.node.semantic_version
    || (not (semver.precedes b.node.semantic_version a.node.semantic_version)
        && str_lt a.node.version_id b.node.version_id)

abbrev pub choices_of :
    Semver → (SkillDependency → List DependencyChoice) → SkillDependency → List DependencyChoice
choices_of semver choices d =
    sort (λ a b. str_eq a.node.version_id b.node.version_id) (choice_before semver)
      (filter (λ c. semver.satisfies c.node.semantic_version d.version) (choices d))

pub record Search : Type 0 where
  pub attempts : ℕ
  pub last_error : Option Conflict

pub data Found : Type 0 where
  found : DependencyLock → Found
  exhausted : Found
  thrown : Conflict → Found

module _ (semver : Semver) (limits : Limits) (root : Root) where
  -- A choice that passes the validation.
  abbrev pub admitted :
      SkillDependency → ℕ → DependencyLock → DependencyChoice → Result Conflict DependencyLock
  admitted d index lock choice = do
    next ← merged d index lock choice
    validate_lock semver limits root next
    ok next

  -- The `catch` block: what was thrown, or the rest of the choices.
  abbrev pub recover : Conflict → (Search → Search × Found) → Search → Search × Found
  recover c rest s =
      let others = rest (record s { last_error = some c }) in
      if ltb limits.attempts s.attempts then (s, thrown c) else others

  abbrev pub continue : (Search → Search × Found) → Search × Found → Search × Found
  continue rest (s, found lock) = (s, found lock)
  continue rest (s, exhausted) = rest s
  continue rest (s, thrown c) = recover c rest s

  abbrev pub proceed :
      (DependencyLock → Search → Search × Found)
      → (Search → Search × Found)
      → Result Conflict DependencyLock
      → Search
      → Search × Found
  proceed next rest (err c) s = recover c rest s
  proceed next rest (ok lock) s = continue rest (next lock s)

  -- The loop over the choices for one dependency.
  abbrev pub try_each :
      (DependencyLock → Search → Search × Found)
      → SkillDependency
      → ℕ
      → DependencyLock
      → List DependencyChoice
      → Search
      → Search × Found
  try_each next d index lock [] s = (s, exhausted)
  try_each next d index lock (c ∷ cs) s =
      proceed next (try_each next d index lock cs) (admitted d index lock c) s

  -- `search`, over the dependencies from an index on, each with its choices
  unfoldable pub search :
      List (SkillDependency × List DependencyChoice) → ℕ → DependencyLock → Search → Search × Found
  search [] index lock s =
      let t = record s { attempts = suc s.attempts } in
      if ltb limits.attempts t.attempts then (t, thrown search_limit) else (t, found lock)
  search ((d, cs) ∷ ds) index lock s =
      let t = record s { attempts = suc s.attempts } in
      let tried = try_each (search ds (suc index)) d index lock cs t in
      if ltb limits.attempts t.attempts then (t, thrown search_limit) else tried

  abbrev pub found_lock : Search × Found → Result Conflict DependencyLock
  found_lock (s, found lock) = ok lock
  found_lock (s, thrown c) = err c
  found_lock (s, exhausted) = elim s.last_error [ none ↦ err unsatisfied | some c ↦ err c ]

-- `seen` and `ordered`
pub record Order : Type 0 where
  pub seen : List String
  pub ordered : List DependencyNode

module _ (lock : DependencyLock) where
  abbrev pub edges_by_ordinal : String → List DependencyEdge
  edges_by_ordinal parent = sort same_edge (λ a b. ltb a.ordinal b.ordinal) (edges_of lock parent)

  abbrev pub push : Option DependencyNode → Order → Result Conflict Order
  push none o = err node_missing
  push (some n) o = ok (record o { ordered = o.ordered ++ (n ∷ []) })

  abbrev pub visit_each :
      (String → Order → Result Conflict Order) → List DependencyEdge → Order → Result Conflict Order
  visit_each visit [] o = ok o
  visit_each visit (e ∷ es) o =
      let visited = do
        below ← visit e.child (record o { seen = e.child ∷ o.seen })
        next ← push (node_of lock e.child) below
        visit_each visit es next
      in let skipped = visit_each visit es o in if contains o.seen e.child then skipped else visited

  -- `visit`, on fuel
  unfoldable pub visit : ℕ → String → Order → Result Conflict Order
  visit zero parent o = err fuel_out
  visit (suc n) parent o = visit_each (visit n) (edges_by_ordinal parent) o

abbrev pub with_choices :
    Semver
    → (SkillDependency → List DependencyChoice)
    → List SkillDependency
    → List (SkillDependency × List DependencyChoice)
with_choices semver choices ds = map (λ d. (d, choices_of semver choices d)) ds

-- The visit from the root has one level of fuel more than the paths of a valid lock have edges.
unfoldable pub resolve_dependencies :
    Semver
    → Limits
    → Root
    → (SkillDependency → List DependencyChoice)
    → List SkillDependency
    → Result Conflict DependencyLock
resolve_dependencies semver limits root choices declared = do
  let ds = ordered_dependencies declared
  require (leb (length ds) limits.fan_out && distinct (map (λ d. d.alias) ds)) fan_out_invalid
  require (all (λ d. semver.valid_range d.version) ds) constraint_invalid
  lock ← found_lock semver limits root (
      search semver limits root (with_choices semver choices ds) 0 empty_lock
        (record { attempts = 0; last_error = none }))
  order ← visit lock (suc limits.depth) root_id (record { seen = []; ordered = [] })
  ok (record lock { nodes = order.ordered })
