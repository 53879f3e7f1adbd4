-- ===== src/Composition/Chosen.antt =====
-- The locks that the search for versions finds.
use skillplane.Common.{
  ℕ, suc, ◌≡◌, ◌≢◌, refl, subst, String, str_eq, find, Option-cases, none, some, Bool-cases,
  Result-cases, ◌⊎◌, inl, inr, List, [], ◌∷◌, Result, ok, err, arith, ltb,
}
use skillplane.Composition.{validate_lock}
use skillplane.Composition.Lock.{
  DependencyNode, DependencyEdge, SkillDependency, DependencyLock, Limits, Root, Semver, Conflict,
  fuel_out,
}
use skillplane.Composition.Bounds.{bind-ends, validate_lock-ends}
use skillplane.Composition.Resolve.{
  empty_lock, Search, Found, found, exhausted, thrown, admitted, recover, continue, proceed,
  try_each, search, found_lock,
}
use skillplane.Composition.Merge.{
  DependencyChoice, is_apart, put_node, is_apart_edge, grafted, edge_key, put_edge, merge_nodes,
  merge_edges, merged,
}

merge_nodes-ends : (ns nodes : List DependencyNode) → merge_nodes ns nodes ≢ err fuel_out
merge_nodes-ends [] nodes q = cc
merge_nodes-ends (n ∷ ns) nodes q =
    elim (Bool-cases (is_apart n (find (λ m. str_eq m.version_id n.version_id) nodes))) [
      | inl y ↦ absurd (ground (arith, q, y))
      | inr k ↦ merge_nodes-ends ns (put_node n nodes) (ground (arith, q, k))
    ]

merge_edges-ends :
    (id : String) (es edges : List DependencyEdge) → merge_edges id es edges ≢ err fuel_out
merge_edges-ends id [] edges q = cc
merge_edges-ends id (e ∷ es) edges q =
    elim (Bool-cases (
      is_apart_edge (grafted id e)
        (find (λ f. str_eq (edge_key f) (edge_key (grafted id e))) edges))) [
          | inl y ↦ absurd (ground (arith, q, y))
          | inr k ↦ merge_edges-ends id es (put_edge (grafted id e) edges) (ground (arith, q, k))
        ]

merged-ends :
    (d : SkillDependency) (index : ℕ) (lock : DependencyLock) (c : DependencyChoice)
    → merged d index lock c ≢ err fuel_out
unfolding merged
merged-ends d index lock c =
    bind-ends _ _ (merge_nodes-ends (c.node ∷ c.lock.nodes) lock.nodes) (λ nodes.
      bind-ends _ _ (merge_edges-ends c.node.version_id c.lock.edges lock.edges) (λ edges q. cc))

module _ (semver : Semver) (limits : Limits) (root : Root) where
  -- Without dependencies the empty lock is chosen.
  abbrev pub IsValid : DependencyLock → Type 0
  IsValid lock = (lock ≡ empty_lock) ⊎ (validate_lock semver limits root lock ≡ ok tt)

  abbrev pub IsFound : Found → Type 0
  IsFound (found lock) = IsValid lock
  IsFound exhausted = Unit
  IsFound (thrown c) = c ≢ fuel_out

  abbrev pub Finds : Search × Found → Type 0
  Finds p = (p.0.last_error ≢ some fuel_out) × IsFound p.1

  -- The rest of a search, from any state.
  abbrev Rest : (Search → Search × Found) → Type 0
  Rest rest = (s : Search) → s.last_error ≢ some fuel_out → Finds (rest s)

  recover-Finds :
      (c : Conflict) (rest : Search → Search × Found) (s : Search)
      → c ≢ fuel_out
      → Rest rest
      → s.last_error ≢ some fuel_out
      → Finds (recover semver limits root c rest s)
  recover-Finds c rest s other then_finds h = elim (Bool-cases (ltb limits.attempts s.attempts)) [
    | inl y ↦ rw y (h, other)
    | inr n ↦ rw n (then_finds (record s { last_error = some c }) (λ q. other (cc q)))
  ]

  continue-Finds :
      (rest : Search → Search × Found) (p : Search × Found)
      → Rest rest
      → Finds p
      → Finds (continue semver limits root rest p)
  continue-Finds rest (s, found lock) then_finds h = h
  continue-Finds rest (s, exhausted) then_finds (h, k) = then_finds s h
  continue-Finds rest (s, thrown c) then_finds (h, k) = recover-Finds c rest s k then_finds h

  proceed-Finds :
      (next : DependencyLock → Search → Search × Found) (rest : Search → Search × Found)
      (r : Result Conflict DependencyLock) (s : Search)
      → ((lock : DependencyLock) → IsValid lock → Rest (next lock))
      → Rest rest
      → r ≢ err fuel_out
      → ((lock : DependencyLock) → r ≡ ok lock → IsValid lock)
      → s.last_error ≢ some fuel_out
      → Finds (proceed semver limits root next rest r s)
  proceed-Finds next rest (err c) s deeper then_finds ends valid h =
      recover-Finds c rest s (λ q. ends (cc q)) then_finds h
  proceed-Finds next rest (ok lock) s deeper then_finds ends valid h =
      continue-Finds rest (next lock s) then_finds (deeper lock (valid lock refl) s h)

  admitted-IsValid :
      (d : SkillDependency) (index : ℕ) (lock next : DependencyLock) (c : DependencyChoice)
      → admitted semver limits root d index lock c ≡ ok next
      → IsValid next
  admitted-IsValid d index lock next c q = elim (Result-cases (merged d index lock c)) [
    | inr (e, r) ↦ absurd (ground (arith, q, r))
    | inl (made, r) ↦ elim (Result-cases (validate_lock semver limits root made)) [
      | inr (e, v) ↦ absurd (ground (arith, q, r, v))
      | inl (u, v) ↦
          let same : made ≡ next = ground (arith, q, r, v) in
          inr (subst (λ l. validate_lock semver limits root l ≡ ok tt) same v)
    ]
  ]

  admitted-ends :
      (d : SkillDependency) (index : ℕ) (lock : DependencyLock) (c : DependencyChoice)
      → admitted semver limits root d index lock c ≢ err fuel_out
  admitted-ends d index lock c =
      bind-ends _ _ (merged-ends d index lock c)
        (λ next. bind-ends _ _ (validate_lock-ends semver limits next root) (λ done q. cc))

  try_each-Finds :
      (next : DependencyLock → Search → Search × Found) (d : SkillDependency) (index : ℕ)
      (lock : DependencyLock)
      → ((l : DependencyLock) → IsValid l → Rest (next l))
      → (cs : List DependencyChoice) → Rest (try_each semver limits root next d index lock cs)
  try_each-Finds next d index lock deeper [] s h = (h, tt)
  try_each-Finds next d index lock deeper (c ∷ cs) s h =
      proceed-Finds next (try_each semver limits root next d index lock cs)
        (admitted semver limits root d index lock c) s deeper
        (try_each-Finds next d index lock deeper cs) (admitted-ends d index lock c)
        (λ l q. admitted-IsValid d index lock l c q) h

  search-Finds :
      (ds : List (SkillDependency × List DependencyChoice)) (index : ℕ) (lock : DependencyLock)
      → IsValid lock
      → Rest (search semver limits root ds index lock)
  unfolding search
  search-Finds [] index lock v s h = elim (Bool-cases (ltb limits.attempts (suc s.attempts))) [
    | inl y ↦ rw (search, y) (h, λ q. cc)
    | inr n ↦ rw (search, n) (h, v)
  ]
  search-Finds ((d, cs) ∷ ds) index lock v s h =
      elim (Bool-cases (ltb limits.attempts (suc s.attempts))) [
        | inl y ↦ rw (search, y) (h, λ q. cc)
        | inr n ↦
            rw (search, n)
              (try_each-Finds (search semver limits root ds (suc index)) d index lock
                (search-Finds ds (suc index)) cs (record s { attempts = suc s.attempts }) h)
      ]

  found_lock-IsValid :
      (p : Search × Found)
      → Finds p
      → (found_lock semver limits root p ≢ err fuel_out)
        × ((lock : DependencyLock) → found_lock semver limits root p ≡ ok lock → IsValid lock)
  found_lock-IsValid (s, found l) (h, k) = (λ q. cc, λ lock q. subst IsValid (cc q) k)
  found_lock-IsValid (s, thrown c) (h, k) = (λ q. k (cc q), λ lock q. cc)
  found_lock-IsValid (s, exhausted) (h, k) = elim (Option-cases s.last_error) [
    | inl n ↦ (λ q. ground (arith, q, n), λ lock q. absurd (ground (arith, q, n)))
    | inr (c, e) ↦ (λ q. h (cc (e, sent c e q)), λ lock q. absurd (ground (arith, q, e)))
  ]
    where
      sent :
          (c : Conflict)
          → s.last_error ≡ some c
          → found_lock semver limits root (s, exhausted) ≡ err fuel_out
          → c ≡ fuel_out
      sent c e q = ground (arith, q, e)

  -- What the whole search answers.
  pub chosen-IsValid :
      (ds : List (SkillDependency × List DependencyChoice))
      → let found = found_lock semver limits root (
          search semver limits root ds 0 empty_lock (record { attempts = 0; last_error = none })) in
        (found ≢ err fuel_out) × ((lock : DependencyLock) → found ≡ ok lock → IsValid lock)
  chosen-IsValid ds =
      found_lock-IsValid
        (search semver limits root ds 0 empty_lock (record { attempts = 0; last_error = none }))
        (search-Finds ds 0 empty_lock (inl refl) (record { attempts = 0; last_error = none })
          (λ q. cc))
