-- ===== src/Composition/Declared.antt =====
-- What the search for versions makes of the dependencies that are declared.
use Prim.Native.String
use skillplane.Common.{
  ℕ, ◌≡◌, refl, subst, String, str_eq, eq_iff, find, none, some, true, false, Bool-cases, inl, inr,
  List, [], ◌∷◌, Any, ok, arith, Option, Bool, >>=-eq-ok,
}
use text.Mathlib.TextLemmas.{append_cancel_left}
use skillplane.Common.Sorting.{sort, sort-Any}
use skillplane.Composition.{root_id}
use skillplane.Composition.Lock.{
  Scope, execution, verification, both, Mode, include, invoke, SkillDependency, DependencyEdge,
  DependencyLock,
}
use skillplane.Composition.Heights.{HasEdge}
use skillplane.Composition.Merge.{
  scope_rank, mode_rank, flag_rank, option_rank, same_edge, edge_key, put_edge, is_apart_edge,
  grafted, merge_edges, merged, DependencyChoice, merge_nodes, edge_before,
}

-- The edge of the root for a dependency.
abbrev pub root_edge : SkillDependency → String → ℕ → DependencyEdge
root_edge d child index = record {
  dependency = d;
  parent = root_id;
  child = child;
  ordinal = index;
}

keys_apart :
    (a b : String)
    → str_eq a b ≡ false
    → str_eq (String.◌++◌ root_id (String.◌++◌ "/" a)) (String.◌++◌ root_id (String.◌++◌ "/" b))
      ≡ false
keys_apart a b h =
    let left : String = String.◌++◌ root_id (String.◌++◌ "/" a) in
    let right : String = String.◌++◌ root_id (String.◌++◌ "/" b) in
    elim (Bool-cases (str_eq left right)) [
      | inr n ↦ n
      | inl y ↦
          let longer = append_cancel_left root_id _ _ ((eq_iff left right).0 y) in
          let same = append_cancel_left "/" a b longer in absurd (cc ((eq_iff a b).1 same, h))
    ]

scope_rank-inj : (a b : Scope) → scope_rank a ≡ scope_rank b → a ≡ b
scope_rank-inj execution execution h = refl
scope_rank-inj verification verification h = refl
scope_rank-inj both both h = refl
scope_rank-inj execution verification h = absurd (omega arith)
scope_rank-inj execution both h = absurd (omega arith)
scope_rank-inj verification execution h = absurd (omega arith)
scope_rank-inj verification both h = absurd (omega arith)
scope_rank-inj both execution h = absurd (omega arith)
scope_rank-inj both verification h = absurd (omega arith)

mode_rank-inj : (a b : Mode) → mode_rank a ≡ mode_rank b → a ≡ b
mode_rank-inj include include h = refl
mode_rank-inj invoke invoke h = refl
mode_rank-inj include invoke h = absurd (omega arith)
mode_rank-inj invoke include h = absurd (omega arith)

flag_rank-inj : (a b : Bool) → flag_rank a ≡ flag_rank b → a ≡ b
flag_rank-inj false false h = refl
flag_rank-inj true true h = refl
flag_rank-inj false true h = absurd (omega arith)
flag_rank-inj true false h = absurd (omega arith)

option_rank-inj : (a b : Option ℕ) → option_rank a ≡ option_rank b → a ≡ b
option_rank-inj none none h = refl
option_rank-inj (some m) (some n) h = let e : m ≡ n = omega arith in cc e
option_rank-inj none (some n) h = absurd (omega arith)
option_rank-inj (some m) none h = absurd (omega arith)

same_edge-eq : (a b : DependencyEdge) → same_edge a b ≡ true → a ≡ b
same_edge-eq a b h =
    let d = a.dependency in
    let e = b.dependency in
    let alias : d.alias ≡ e.alias = ground (arith, h, eq_iff d.alias e.alias) in
    let workspace : d.workspace ≡ e.workspace = ground (arith, h, eq_iff d.workspace e.workspace) in
    let skill : d.skill ≡ e.skill = ground (arith, h, eq_iff d.skill e.skill) in
    let version : d.version ≡ e.version = ground (arith, h, eq_iff d.version e.version) in
    let scope = scope_rank-inj d.scope e.scope (ground (arith, h)) in
    let mode = mode_rank-inj d.mode e.mode (ground (arith, h)) in
    let order = option_rank-inj d.order e.order (ground (arith, h)) in
    let required = flag_rank-inj d.required e.required (ground (arith, h)) in
    let parent : a.parent ≡ b.parent = ground (arith, h, eq_iff a.parent b.parent) in
    let child : a.child ≡ b.child = ground (arith, h, eq_iff a.child b.child) in
    let ordinal : a.ordinal ≡ b.ordinal = ground (arith, h) in
    cc (alias, workspace, skill, version, scope, mode, order, required, parent, child, ordinal)

-- An edge stays where one with another key is put.
put_edge-keeps :
    (e x : DependencyEdge) (es : List DependencyEdge)
    → str_eq (edge_key e) (edge_key x) ≡ false
    → Any (λ y. y ≡ e) es
    → Any (λ y. y ≡ e) (put_edge x es)
put_edge-keeps e x [] n h = absurd h
put_edge-keeps e x (f ∷ fs) n h = elim (Bool-cases (str_eq (edge_key f) (edge_key x))) [
  | inl y ↦ elim h [ inl same ↦ absurd (cc (same, y, n)) | inr more ↦ rw y (inr more) ]
  | inr k ↦ elim h [
    | inl same ↦ rw k (inl same)
    | inr more ↦ rw k (inr (put_edge-keeps e x fs n more))
  ]
]

-- An edge stays where one that its key does not conflict with is put.
put_edge-keeps_merged :
    (e x : DependencyEdge) (es : List DependencyEdge)
    → is_apart_edge x (find (λ f. str_eq (edge_key f) (edge_key x)) es) ≡ false
    → Any (λ y. y ≡ e) es
    → Any (λ y. y ≡ e) (put_edge x es)
put_edge-keeps_merged e x [] n h = absurd h
put_edge-keeps_merged e x (f ∷ fs) n h = elim (Bool-cases (str_eq (edge_key f) (edge_key x))) [
  | inl y ↦
      let alike : same_edge f x ≡ true = ground (arith, n, y) in
      let same = same_edge-eq f x alike in rw y (subst (λ g. Any (λ y. y ≡ e) (g ∷ fs)) same h)
  | inr k ↦
      let later : is_apart_edge x (find (λ f. str_eq (edge_key f) (edge_key x)) fs) ≡ false =
        ground (arith, n, k) in
      elim h [
        | inl same ↦ rw k (inl same)
        | inr more ↦ rw k (inr (put_edge-keeps_merged e x fs later more))
      ]
]

put_edge-there : (x : DependencyEdge) (es : List DependencyEdge) → Any (λ y. y ≡ x) (put_edge x es)
put_edge-there x [] = inl refl
put_edge-there x (f ∷ fs) = elim (Bool-cases (str_eq (edge_key f) (edge_key x))) [
  | inl y ↦ rw y (inl refl)
  | inr n ↦ rw n (inr (put_edge-there x fs))
]

merge_edges-keeps :
    (id : String) (e : DependencyEdge) (es edges made : List DependencyEdge)
    → merge_edges id es edges ≡ ok made
    → Any (λ y. y ≡ e) edges
    → Any (λ y. y ≡ e) made
merge_edges-keeps id e [] edges made q h = subst (Any (λ y. y ≡ e)) (cc q) h
merge_edges-keeps id e (x ∷ es) edges made q h =
    let mapped = grafted id x in
    elim (Bool-cases
      (is_apart_edge mapped (find (λ f. str_eq (edge_key f) (edge_key mapped)) edges))) [
        | inl y ↦ absurd (ground (arith, q, y))
        | inr n ↦
            merge_edges-keeps id e es (put_edge mapped edges) made (ground (arith, q, n))
              (put_edge-keeps_merged e mapped edges n h)
      ]

-- What a merge makes of the edges: the one for its dependency is there, and those of the root for
-- other dependencies stay.
pub record IsMerged (d : SkillDependency) (index : ℕ) (lock next : DependencyLock) : Type 0 where
  pub child : String
  pub there : HasEdge next (root_edge d child index)
  pub kept :
      (f : SkillDependency) (c : String) (i : ℕ)
      → str_eq f.alias d.alias ≡ false
      → HasEdge lock (root_edge f c i)
      → HasEdge next (root_edge f c i)

pub merged-IsMerged :
    (d : SkillDependency) (index : ℕ) (lock next : DependencyLock) (c : DependencyChoice)
    → merged d index lock c ≡ ok next
    → IsMerged d index lock next
unfolding merged
merged-IsMerged d index lock next c q =
    let (nodes, q1, r1) = >>=-eq-ok (merge_nodes (c.node ∷ c.lock.nodes) lock.nodes) _ q in
    let (edges, q2, r2) = >>=-eq-ok (merge_edges c.node.version_id c.lock.edges lock.edges) _ r1 in
    let new = root_edge d c.node.version_id index in
    let sorted : next.edges ≡ sort same_edge edge_before (put_edge new edges) = cc r2 in
    record {
      child = c.node.version_id;
      there = rw sorted (
          sort-Any same_edge edge_before (λ y. y ≡ new) (put_edge new edges)
            (put_edge-there new edges));
      kept = λ f child i apart h.
          let old = root_edge f child i in
          rw sorted (
            sort-Any same_edge edge_before (λ y. y ≡ old) (put_edge new edges)
              (put_edge-keeps old new edges (keys_apart f.alias d.alias apart)
                (merge_edges-keeps c.node.version_id old c.lock.edges lock.edges edges q2 h)));
    }
