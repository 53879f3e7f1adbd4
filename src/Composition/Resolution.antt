-- ===== src/Composition/Resolution.antt =====
-- What a resolution of dependencies answers.
use skillplane.Common.{
  suc, ◌≡◌, ◌≢◌, refl, sym, subst, String, none, true, ◌⊎◌, inl, inr, List, [], ◌∷◌, contains,
  distinct, map, leb, length, ◌&&◌, Bool, false, ap, All, Any, Result, ok, err, ◌>>=◌,
}
use skillplane.Common.Sorting.{sort, sort-All_back}
use skillplane.Composition.{ids, root_id}
use skillplane.Composition.Lock.{
  SkillDependency, DependencyLock, Limits, Root, Semver, Conflict, fuel_out, fan_out_invalid,
  constraint_invalid,
}
use skillplane.Composition.Bounds.{require-ends}
use skillplane.Composition.Sound.{validate_lock-IsSound, require-true}
use skillplane.Composition.Validity.{IsSound}
use skillplane.Composition.Order.{IsFirst}
use skillplane.Composition.Placed.{visit-IsOrdering}
use skillplane.Composition.Chosen.{IsValid, chosen-IsValid}
use skillplane.Composition.Declared.{root_edge}
use skillplane.Composition.Covered.{HasDependency, aliases, chosen-HasDependency}
use skillplane.Composition.Resolve.{
  Order, empty_lock, with_choices, search, found_lock, visit, ordered_dependencies,
  resolve_dependencies,
}
use skillplane.Composition.Merge.{DependencyChoice}

right : (a b : Bool) → (a && b) ≡ true → b ≡ true
right true b h = h
right false b h = absurd (cc)

module _ (semver : Semver) (limits : Limits) (root : Root) where
  -- The edges of a lock that was found, and all its nodes, each behind the nodes it depends on.
  pub record IsOrdered (selected lock : DependencyLock) : Type 0 where
    pub edges : lock.edges ≡ selected.edges
    pub complete : (id : String) → contains (ids selected) id ≡ true → contains (ids lock) id ≡ true
    pub first : IsFirst lock [] lock.nodes

  -- A resolution has an edge of the root for every dependency that is declared, and it orders a lock
  -- that is sound, or empty where nothing is declared.
  pub record IsResolution (declared : List SkillDependency) (lock : DependencyLock) : Type 0 where
    pub declares : All (HasDependency lock) declared
    pub selected : DependencyLock
    pub sound : ((selected ≡ empty_lock) × (declared ≡ [])) ⊎ IsSound semver limits root selected
    pub ordered : IsOrdered selected lock

  abbrev fresh : Order
  fresh = record { seen = []; ordered = [] }

  abbrev ordering : DependencyLock → Result Conflict DependencyLock
  ordering lock = visit lock (suc limits.depth) root_id fresh >>= λ order.
      ok (record lock { nodes = order.ordered })

  empty-visit : visit empty_lock (suc limits.depth) root_id fresh ≡ ok fresh
  unfolding visit sort
  empty-visit = refl

  -- What the ordering of a lock gives.
  abbrev IsOrderable : DependencyLock → Type 0
  IsOrderable lock = (l : DependencyLock) × (ordering lock ≡ ok l) × IsOrdered lock l

  empty-IsOrderable : IsOrderable empty_lock
  empty-IsOrderable =
      (empty_lock, rw empty-visit refl, record { edges = refl; complete = λ id h. h; first = tt })

  valid-IsOrderable : (lock : DependencyLock) → IsValid semver limits root lock → IsOrderable lock
  valid-IsOrderable lock (inl empty) = subst IsOrderable (sym empty) empty-IsOrderable
  valid-IsOrderable lock (inr valid) =
      let sound = validate_lock-IsSound semver limits lock root valid in
      let (o, q, r) = visit-IsOrdering semver limits root lock sound in
      (
        record lock { nodes = o.ordered },
        rw q refl,
        record { edges = refl; complete = r.complete; first = r.first },
      )

  ordering-ends :
      (lock : DependencyLock) → IsValid semver limits root lock → ordering lock ≢ err fuel_out
  ordering-ends lock valid q = let (l, r, s) = valid-IsOrderable lock valid in cc

  -- The empty lock has no dependency.
  declared-empty :
      (declared : List SkillDependency) → All (HasDependency empty_lock) declared → declared ≡ []
  declared-empty [] h = refl
  declared-empty (d ∷ ds) ((child, index, there), more) = absurd there

  valid-cases :
      (declared : List SkillDependency) (lock : DependencyLock)
      → All (HasDependency lock) declared
      → IsValid semver limits root lock
      → ((lock ≡ empty_lock) × (declared ≡ [])) ⊎ IsSound semver limits root lock
  valid-cases declared lock has (inl empty) =
      inl (empty, declared-empty declared (subst (λ l. All (HasDependency l) declared) empty has))
  valid-cases declared lock has (inr valid) =
      inr (validate_lock-IsSound semver limits lock root valid)

  -- Only the edges of a lock say what it depends on.
  All-HasDependency :
      (a b : DependencyLock) (declared : List SkillDependency)
      → b.edges ≡ a.edges
      → All (HasDependency a) declared
      → All (HasDependency b) declared
  All-HasDependency a b [] same h = tt
  All-HasDependency a b (d ∷ ds) same ((child, index, there), more) = (
    (child, index, subst (Any (λ e. e ≡ root_edge d child index)) (sym same) there),
    All-HasDependency a b ds same more,
  )

  selected-IsResolution :
      (declared : List SkillDependency) (r : Result Conflict DependencyLock) (l : DependencyLock)
      → ((lock : DependencyLock) → r ≡ ok lock → IsValid semver limits root lock)
      → ((lock : DependencyLock) → r ≡ ok lock → All (HasDependency lock) declared)
      → (r >>= ordering) ≡ ok l
      → IsResolution declared l
  selected-IsResolution declared (err c) l valid has q = cc
  selected-IsResolution declared (ok lock) l valid has q =
      let (m, r, s) = valid-IsOrderable lock (valid lock refl) in
      let same : m ≡ l = cc (r, q) in
      let there = has lock refl in
      subst (IsResolution declared) same (record {
        declares = All-HasDependency lock m declared s.edges there;
        selected = lock;
        sound = valid-cases declared lock there (valid lock refl);
        ordered = s;
      })

  selected-ends :
      (r : Result Conflict DependencyLock)
      → r ≢ err fuel_out
      → ((lock : DependencyLock) → r ≡ ok lock → IsValid semver limits root lock)
      → (r >>= ordering) ≢ err fuel_out
  selected-ends (err c) ends valid q = ends (cc q)
  selected-ends (ok lock) ends valid q = ordering-ends lock (valid lock refl) q

  -- Dependencies with their choices, and back.
  aliases-with_choices :
      (choices : SkillDependency → List DependencyChoice) (ds : List SkillDependency)
      → aliases (with_choices semver choices ds) ≡ map (λ d. d.alias) ds
  aliases-with_choices choices [] = refl
  aliases-with_choices choices (d ∷ ds) =
      ap (λ rest. d.alias ∷ rest) (aliases-with_choices choices ds)

  All-with_choices :
      (choices : SkillDependency → List DependencyChoice) (P : SkillDependency → Type 0)
      (ds : List SkillDependency)
      → All
          (λ (p : SkillDependency × List DependencyChoice). P p.0)
          (with_choices semver choices ds)
      → All P ds
  All-with_choices choices P [] h = tt
  All-with_choices choices P (d ∷ ds) (h, hs) = (h, All-with_choices choices P ds hs)

  -- A resolution ends, whatever versions may be chosen: the orderings and traversals that it runs
  -- never need more fuel than they have. What it answers is a resolution: it has an edge of the root
  -- for every dependency that is declared, and it has the edges of a sound lock, or of the empty lock,
  -- and that only where nothing is declared, and the nodes of that lock, each behind the nodes that it
  -- depends on.
  pub resolve_dependencies-IsResolution :
      (choices : SkillDependency → List DependencyChoice) (declared : List SkillDependency)
      → (resolve_dependencies semver limits root choices declared ≢ err fuel_out)
        × ((lock : DependencyLock)
            → resolve_dependencies semver limits root choices declared ≡ ok lock
            → IsResolution declared lock)
  unfolding resolve_dependencies ordered_dependencies
  resolve_dependencies-IsResolution choices declared =
      let ds = ordered_dependencies declared in
      let (ends, valid) = chosen-IsValid semver limits root (with_choices semver choices ds) in
      let r = found_lock semver limits root (
        search semver limits root (with_choices semver choices ds) 0 empty_lock
          (record { attempts = 0; last_error = none })) in
      (
        require-ends _ fan_out_invalid _ (λ q. cc)
            (require-ends _ constraint_invalid _ (λ q. cc) (selected-ends r ends valid)),
        λ lock q.
            let (declares, q1) =
              require-true (leb (length ds) limits.fan_out && distinct (map (λ d. d.alias) ds))
                fan_out_invalid _ q in
            let (ranges, q2) = require-true _ constraint_invalid _ q1 in
            let apart = right (leb (length ds) limits.fan_out) _ declares in
            let same = aliases-with_choices choices ds in
            selected-IsResolution declared r lock valid
              (λ l found. sort-All_back _ _ (HasDependency l) declared (
                All-with_choices choices (HasDependency l) ds (
                  chosen-HasDependency semver limits root (with_choices semver choices ds) l
                    (rw same apart) found)))
              q2,
      )
