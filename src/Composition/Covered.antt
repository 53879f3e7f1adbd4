-- ===== src/Composition/Covered.antt =====
-- The dependencies that are declared, in the lock that the search for versions finds.
use skillplane.Common.{
  ℕ, suc, ◌≡◌, refl, subst, sym, String, str_eq, eq_iff, none, some, true, false, Bool-cases,
  Option-cases, inl, inr, List, [], ◌∷◌, All, contains, distinct, map, ok, err, arith, ltb, Result,
  >>=-eq-ok,
}
use skillplane.Composition.{validate_lock}
use skillplane.Composition.Lock.{SkillDependency, DependencyLock, Limits, Root, Semver, Conflict}
use skillplane.Composition.Heights.{HasEdge}
use skillplane.Composition.Merge.{DependencyChoice, merged}
use skillplane.Composition.Declared.{root_edge, IsMerged, merged-IsMerged}
use skillplane.Composition.Resolve.{
  empty_lock, Search, Found, found, exhausted, thrown, admitted, recover, continue, proceed,
  try_each, search, found_lock,
}

-- The root has an edge for the dependency.
abbrev pub HasDependency : DependencyLock → SkillDependency → Type 0
HasDependency lock d = (child : String) × (index : ℕ) × HasEdge lock (root_edge d child index)

abbrev pub Choices : Type 0
Choices = List (SkillDependency × List DependencyChoice)

abbrev pub aliases : Choices → List String
aliases = map (λ (p : SkillDependency × List DependencyChoice). p.0.alias)

-- What a search from a lock makes of it.
record IsCovered (ds : Choices) (lock made : DependencyLock) : Type 0 where
  met : All (λ (p : SkillDependency × List DependencyChoice). HasDependency made p.0) ds
  kept :
      (f : SkillDependency) (c : String) (i : ℕ)
      → contains (aliases ds) f.alias ≡ false
      → HasEdge lock (root_edge f c i)
      → HasEdge made (root_edge f c i)

apart-sym : (a b : String) → str_eq a b ≡ false → str_eq b a ≡ false
apart-sym a b h = elim (Bool-cases (str_eq b a)) [
  | inr n ↦ n
  | inl y ↦ let same : a ≡ b = sym ((eq_iff b a).0 y) in absurd (cc ((eq_iff a b).1 same, h))
]

IsCovered-step :
    (d : SkillDependency) (cs : List DependencyChoice) (ds : Choices) (index : ℕ)
    (lock next made : DependencyLock)
    → contains (aliases ds) d.alias ≡ false
    → IsMerged d index lock next
    → IsCovered ds next made
    → IsCovered ((d, cs) ∷ ds) lock made
IsCovered-step d cs ds index lock next made apart m covered = record {
  met = ((m.child, index, covered.kept d m.child index apart m.there), covered.met);
  kept = λ f c i other h.
      let differs = apart-sym d.alias f.alias (ground (arith, other)) in
      let rest : contains (aliases ds) f.alias ≡ false = ground (arith, other) in
      covered.kept f c i rest (m.kept f c i differs h);
}

module _ (semver : Semver) (limits : Limits) (root : Root) (Q : DependencyLock → Type 0) where
  abbrev Gives : Search × Found → Type 0
  Gives (s, found lock) = Q lock
  Gives (s, exhausted) = Unit
  Gives (s, thrown c) = Unit

  recover-Gives :
      (c : Conflict) (rest : Search → Search × Found) (s : Search)
      → ((t : Search) → Gives (rest t))
      → Gives (recover semver limits root c rest s)
  recover-Gives c rest s gives = elim (Bool-cases (ltb limits.attempts s.attempts)) [
    | inl y ↦ rw y tt
    | inr n ↦ rw n (gives (record s { last_error = some c }))
  ]

  continue-Gives :
      (rest : Search → Search × Found) (p : Search × Found)
      → ((t : Search) → Gives (rest t))
      → Gives p
      → Gives (continue semver limits root rest p)
  continue-Gives rest (s, found lock) gives h = h
  continue-Gives rest (s, exhausted) gives h = gives s
  continue-Gives rest (s, thrown c) gives h = recover-Gives c rest s gives

  proceed-Gives :
      (next : DependencyLock → Search → Search × Found) (rest : Search → Search × Found)
      (r : Result Conflict DependencyLock) (s : Search)
      → ((l : DependencyLock) → r ≡ ok l → (t : Search) → Gives (next l t))
      → ((t : Search) → Gives (rest t))
      → Gives (proceed semver limits root next rest r s)
  proceed-Gives next rest (err c) s deeper gives = recover-Gives c rest s gives
  proceed-Gives next rest (ok l) s deeper gives =
      continue-Gives rest (next l s) gives (deeper l refl s)

  try_each-Gives :
      (next : DependencyLock → Search → Search × Found) (d : SkillDependency) (index : ℕ)
      (lock : DependencyLock)
      → ((c : DependencyChoice) (l : DependencyLock)
          → admitted semver limits root d index lock c ≡ ok l
          → (t : Search) → Gives (next l t))
      → (cs : List DependencyChoice) (s : Search)
      → Gives (try_each semver limits root next d index lock cs s)
  try_each-Gives next d index lock deeper [] s = tt
  try_each-Gives next d index lock deeper (c ∷ cs) s =
      proceed-Gives next (try_each semver limits root next d index lock cs)
        (admitted semver limits root d index lock c) s (deeper c)
        (try_each-Gives next d index lock deeper cs)

module _ (semver : Semver) (limits : Limits) (root : Root) where
  admitted-IsMerged :
      (d : SkillDependency) (index : ℕ) (lock next : DependencyLock) (c : DependencyChoice)
      → admitted semver limits root d index lock c ≡ ok next
      → IsMerged d index lock next
  admitted-IsMerged d index lock next c q =
      let (made, r, rest) = >>=-eq-ok (merged d index lock c) _ q in
      let (done, v, same) = >>=-eq-ok (validate_lock semver limits root made) _ rest in
      subst (IsMerged d index lock) (cc same) (merged-IsMerged d index lock made c r)

  search-IsCovered :
      (Q : DependencyLock → Type 0) (ds : Choices) (index : ℕ) (lock : DependencyLock)
      → distinct (aliases ds) ≡ true
      → ((made : DependencyLock) → IsCovered ds lock made → Q made)
      → (s : Search) → Gives semver limits root Q (search semver limits root ds index lock s)
  unfolding search
  search-IsCovered Q [] index lock apart then_Q s =
      elim (Bool-cases (ltb limits.attempts (suc s.attempts))) [
        | inl y ↦ rw (search, y) tt
        | inr n ↦ rw (search, n) (then_Q lock (record { met = tt; kept = λ f c i other h. h }))
      ]
  search-IsCovered Q ((d, cs) ∷ ds) index lock apart then_Q s =
      let fresh : contains (aliases ds) d.alias ≡ false = ground (arith, apart) in
      let others : distinct (aliases ds) ≡ true = ground (arith, apart) in
      elim (Bool-cases (ltb limits.attempts (suc s.attempts))) [
        | inl y ↦ rw (search, y) tt
        | inr n ↦
            rw (search, n)
              (try_each-Gives semver limits root Q (search semver limits root ds (suc index)) d
                index lock
                (λ c next q. search-IsCovered Q ds (suc index) next others (λ made covered.
                  then_Q made (
                    IsCovered-step d cs ds index lock next made fresh
                      (admitted-IsMerged d index lock next c q) covered)))
                cs (record s { attempts = suc s.attempts }))
      ]

  found_lock-Gives :
      (Q : DependencyLock → Type 0) (p : Search × Found) (lock : DependencyLock)
      → Gives semver limits root Q p
      → found_lock semver limits root p ≡ ok lock
      → Q lock
  found_lock-Gives Q (s, found l) lock h q = subst Q (cc q) h
  found_lock-Gives Q (s, thrown c) lock h q = cc
  found_lock-Gives Q (s, exhausted) lock h q = elim (Option-cases s.last_error) [
    | inl n ↦ absurd (ground (arith, q, n))
    | inr (c, e) ↦ absurd (ground (arith, q, e))
  ]

  -- Every dependency that is searched for has an edge of the root in the lock that is found.
  pub chosen-HasDependency :
      (ds : Choices) (lock : DependencyLock)
      → distinct (aliases ds) ≡ true
      → found_lock semver limits root
          (search semver limits root ds 0 empty_lock (record { attempts = 0; last_error = none }))
        ≡ ok lock
      → All (λ (p : SkillDependency × List DependencyChoice). HasDependency lock p.0) ds
  chosen-HasDependency ds lock apart q =
      found_lock-Gives
        (λ l. All (λ (p : SkillDependency × List DependencyChoice). HasDependency l p.0) ds)
        (search semver limits root ds 0 empty_lock (record { attempts = 0; last_error = none }))
        lock
        (search-IsCovered
          (λ l. All (λ (p : SkillDependency × List DependencyChoice). HasDependency l p.0) ds) ds 0
          empty_lock apart (λ made covered. covered.met)
          (record { attempts = 0; last_error = none }))
        q
