-- ===== src/Composition/Traversal.antt =====
-- A visit of a parent of a lock, with its memo.
use skillplane.Common.{
  ℕ, zero, suc, ◌≡◌, refl, sym, subst, String, none, some, true, false, Bool-cases, Option-cases,
  ◌⊎◌, inl, inr, List, [], ◌∷◌, All, Any, filter, str_eq, eq_iff, contains, arith, Result, ok, err,
}
use skillplane.Composition.{Visited, remember, edges_of, is_fan_out, remembered, height}
use skillplane.Composition.Lock.{Semver, Limits, DependencyEdge, DependencyLock, Conflict}
use skillplane.Composition.Heights.{
  HasEdge, IsReachable, IsFinished, IsKnown, IsPending, IsVisited, IsPassed, Visits,
  heights-IsPassed,
}

-- The edges of a parent are the edges of the lock that name it.
pub filter-edges :
    (parent : String) (es : List DependencyEdge) (Q : DependencyEdge → Type 0)
    → All Q (filter (λ e. str_eq e.parent parent) es)
    → (e : DependencyEdge) → Any (λ x. x ≡ e) es
    → e.parent ≡ parent
    → Q e
filter-edges parent [] Q h e at same = absurd at
filter-edges parent (x ∷ xs) Q h e at same = elim (Bool-cases (str_eq x.parent parent)) [
  | inl y ↦
      let (here, rest) : Q x × All Q (filter (λ e. str_eq e.parent parent) xs) = rw y at h in
      elim at [ inl is ↦ subst Q is here | inr more ↦ filter-edges parent xs Q rest e more same ]
  | inr n ↦
      let rest : All Q (filter (λ e. str_eq e.parent parent) xs) = rw n at h in
      elim at [
        | inl is ↦ absurd (ground (arith, n, (eq_iff x.parent parent).1 (cc (is, same))))
        | inr more ↦ filter-edges parent xs Q rest e more same
      ]
]

pub edges_of-given :
    (parent : String) (es : List DependencyEdge) (Q : DependencyEdge → Type 0)
    → ((e : DependencyEdge) → Any (λ x. x ≡ e) es → e.parent ≡ parent → Q e)
    → All Q (filter (λ e. str_eq e.parent parent) es)
edges_of-given parent [] Q h = tt
edges_of-given parent (x ∷ xs) Q h =
    let rest = edges_of-given parent xs Q (λ e more same. h e (inr more) same) in
    elim (Bool-cases (str_eq x.parent parent)) [
      | inl y ↦ rw y (h x (inl refl) ((eq_iff x.parent parent).0 y), rest)
      | inr n ↦ rw n rest
    ]

module _ (semver : Semver) (limits : Limits) (lock : DependencyLock) where
  remember-other :
      (parent x : String) (h k : ℕ) (v : Visited)
      → v.memo parent ≡ none
      → v.memo x ≡ some k
      → (remember parent h v).memo x ≡ some k
  remember-other parent x h k v fresh e = elim (Bool-cases (str_eq parent x)) [
    | inl y ↦ cc (fresh, e, (eq_iff parent x).0 y)
    | inr n ↦ ground (arith, n, e)
  ]

  remember-this :
      (parent : String) (h : ℕ) (v : Visited) → (remember parent h v).memo parent ≡ some h
  remember-this parent h v = ground (arith, (eq_iff parent parent).1 refl)

  remember-cases :
      (parent x : String) (h k : ℕ) (v : Visited)
      → (remember parent h v).memo x ≡ some k
      → ((x ≡ parent) × (k ≡ h)) ⊎ (v.memo x ≡ some k)
  remember-cases parent x h k v e = elim (Bool-cases (str_eq parent x)) [
    | inl y ↦ inl (sym ((eq_iff parent x).0 y), ground (arith, y, e))
    | inr n ↦ inr (ground (arith, n, e))
  ]

  IsFinished-remember :
      (parent : String) (h k : ℕ) (v : Visited) (e : DependencyEdge)
      → v.memo parent ≡ none
      → IsFinished semver limits lock v k e
      → IsFinished semver limits lock (remember parent h v) k e
  IsFinished-remember parent h k v e fresh f = record {
    fit = f.fit;
    below = f.below;
    there = remember-other parent e.child h f.below v fresh f.there;
    less = f.less;
  }

  -- What the loop over all edges of a parent leaves, and the memo of the parent.
  remember-IsVisited :
      (active : List String) (parent : String) (h : ℕ) (v w : Visited)
      → contains active parent ≡ false
      → is_fan_out limits (edges_of lock parent) ≡ true
      → IsPassed semver limits lock (parent ∷ active) (edges_of lock parent) 0 v h w
      → IsVisited semver limits lock active parent v h (remember parent h w)
  remember-IsVisited active parent h v w fresh fan p =
      let blank : w.memo parent ≡ none =
        p.known.open_memo parent (ground (arith, (eq_iff parent parent).1 refl)) in
      record {
        known = record {
          finished = λ x k e edge has same. elim (remember-cases parent x h k w e) [
            | inl (is, at) ↦ IsFinished-remember parent h k w edge blank (
                subst (λ n. IsFinished semver limits lock w n edge) (sym at)
                  (filter-edges parent lock.edges (IsFinished semver limits lock w h) p.each edge
                    has (cc (same, is))))
            | inr old ↦
                IsFinished-remember parent h k w edge blank (p.known.finished x k old edge has same)
          ];
          fanned = λ x k e. elim (remember-cases parent x h k w e) [
            | inl (is, at) ↦ subst (λ q. is_fan_out limits (edges_of lock q) ≡ true) (sym is) fan
            | inr old ↦ p.known.fanned x k old
          ];
          open_memo = λ x a.
              let apart = inactive x a in
              let none_yet = p.known.open_memo x (ground (arith, a)) in
              ground (arith, apart, none_yet);
          reachable = p.known.reachable;
          members = p.known.members;
          unique = p.known.unique;
        };
        pending = λ x r. elim (p.pending x r) [
          | inl (k, done) ↦ inl (k, remember-other parent x h k w blank done)
          | inr a ↦ elim (Bool-cases (str_eq parent x)) [
            | inl y ↦ inl (h, ground (arith, y))
            | inr n ↦ inr (ground (arith, a, n))
          ]
        ];
        kept = λ x k e. remember-other parent x h k w blank (p.kept x k e);
        memo = remember-this parent h w;
      }
    where
      inactive : (x : String) → contains active x ≡ true → str_eq parent x ≡ false
      inactive x a = elim (Bool-cases (str_eq parent x)) [
        | inl y ↦ cc (fresh, a, (eq_iff parent x).0 y)
        | inr n ↦ n
      ]

  -- A parent that was visited before is answered from the memo.
  memo-IsVisited :
      (active : List String) (child : String) (h : ℕ) (v : Visited)
      → v.memo child ≡ some h
      → IsKnown semver limits lock active v
      → IsPending semver limits lock (child ∷ active) v
      → IsVisited semver limits lock active child v h v
  memo-IsVisited active child h v e k p = record {
    known = k;
    pending = λ x r. elim (p x r) [
      | inl done ↦ inl done
      | inr a ↦ elim (Bool-cases (str_eq child x)) [
        | inl y ↦ inl (h, cc ((eq_iff child x).0 y, e))
        | inr n ↦ inr (ground (arith, a, n))
      ]
    ];
    kept = λ x n m. m;
    memo = e;
  }

  enter-IsKnown :
      (active : List String) (child : String) (v : Visited)
      → v.memo child ≡ none
      → IsKnown semver limits lock active v
      → IsKnown semver limits lock (child ∷ active) v
  enter-IsKnown active child v e k = record {
    finished = k.finished;
    fanned = k.fanned;
    open_memo = λ x a. elim (Bool-cases (str_eq child x)) [
      | inl y ↦ cc ((eq_iff child x).0 y, e)
      | inr n ↦ k.open_memo x (ground (arith, a, n))
    ];
    reachable = k.reachable;
    members = k.members;
    unique = k.unique;
  }

  remembered-cases :
      (parent : String) (r : Result Conflict (ℕ × Visited)) (h : ℕ) (w : Visited)
      → remembered parent r ≡ ok (h, w)
      → (u : Visited) × (r ≡ ok (h, u)) × (remember parent h u ≡ w)
  remembered-cases parent (err c) h w q = cc
  remembered-cases parent (ok (g, u)) h w q =
      let same : g ≡ h = cc q in (u, cc same, subst (λ n. remember parent n u ≡ w) same (cc q))

  pub height-Visits :
      (n : ℕ) (active : List String)
      → Visits semver limits lock active (λ child v. height semver limits lock n child active v)
  unfolding height
  height-Visits zero active child v h w from k p q = cc
  height-Visits (suc n) active child v h w from k p q = elim (Bool-cases (contains active child)) [
    | inl y ↦ absurd (ground (arith, q, y))
    | inr fresh ↦ elim (Option-cases (v.memo child)) [
      | inr (g, e) ↦
          let at : g ≡ h = ground (arith, q, fresh, e) in
          let same : v ≡ w = ground (arith, q, fresh, e) in
          subst (IsVisited semver limits lock active child v h) same
            (memo-IsVisited active child h v (cc (e, at)) k p)
      | inl e ↦ elim (Bool-cases (is_fan_out limits (edges_of lock child))) [
        | inr f ↦ absurd (ground (arith, q, fresh, e, f))
        | inl f ↦
            let (u, r, same) = remembered-cases child _ h w (rw (height, fresh, e, f) at q) in
            subst (IsVisited semver limits lock active child v h) same (
              remember-IsVisited active child h v u fresh f (
                heights-IsPassed semver limits lock (child ∷ active)
                  (λ c x. height semver limits lock n c (child ∷ active) x)
                  (height-Visits n (child ∷ active)) (edges_of lock child)
                  (edges_of-given child lock.edges (λ e. HasEdge lock e × IsReachable lock e.parent)
                    (λ e has is. (has, subst (IsReachable lock) (sym is) from)))
                  0 v h u (enter-IsKnown active child v e k) p r))
      ]
    ]
  ]
