-- ===== src/ControlPlane/Outbox/Drain/Laws.antt =====
-- The turns of a drain, and the rows that they take.
use skillplane.Common.{
  ℕ, suc, zero, ◌+◌, ◌-◌, ◌≤◌, ◌<◌, ◌≡◌, ◌≢◌, refl, String, Option, none, some, Bool, true, false,
  Bool-cases, Option-cases, List, [], ◌∷◌, inl, inr, length, if◌then◌else◌, take, ltb, arith,
}
use skillplane.ControlPlane.Outbox.{
  Outbox, OutboxError, limit_invalid, lease_invalid, duration_invalid, Moment, Claimed, candidates,
  returning, claim, acknowledges,
}
use skillplane.ControlPlane.Outbox.Drain.{
  Worker, Progress, Outcome, going, returned, thrown, event_of, settle, attempt, drain_rows,
  claim_limit, claimed_rows, claiming, tick_on, drain_claimed, turn, turns, start, drain,
}

length-take : (n : ℕ) (xs : List String) → length (take n xs) ≤ n
length-take zero xs = omega arith
length-take (suc n) [] = omega arith
length-take (suc n) (x ∷ xs) = omega (arith, length-take n xs)

length-returning : (t : Outbox) (ids : List String) → length (returning t ids) ≤ length ids
length-returning t [] = omega arith
length-returning t (id ∷ ids) = elim (Option-cases (t.row id)) [
  | inl n ↦ rw (n, length) (omega (arith, length-returning t ids))
  | inr (r, e) ↦ rw (e, length) (omega (arith, length-returning t ids))
]

length-candidates :
    (m : Moment) (limit lease : ℕ) (blocked : List String) (t : Outbox)
    → length (candidates m limit lease blocked t) ≤ limit
unfolding candidates
length-candidates m limit lease blocked t = length-take limit _

module _ {W : Type 0} (w : Worker W) where
  abbrev pub taken : Progress W → ℕ
  taken s = s.processed + s.failed

  taken-settle :
      (c : Claimed) (o : Option String) (s : Progress W) → taken (settle w c o s) ≡ suc (taken s)
  taken-settle c (some message) s = omega arith
  taken-settle c none s =
      elim (Bool-cases (acknowledges c.id w.claim_token (w.others s.tick s.outbox))) [
        | inl y ↦ rw y (omega arith)
        | inr n ↦ rw n (omega arith)
      ]

  taken-drain_rows :
      (cs : List Claimed) (s : Progress W)
      → (taken (drain_rows w cs s).0 ≤ taken s + length cs)
        × ((drain_rows w cs s).1 ≡ going → taken (drain_rows w cs s).0 ≡ taken s + length cs)
  taken-drain_rows [] s = (omega arith, λ e. omega arith)
  taken-drain_rows (c ∷ cs) s =
      let one =
        taken-settle c (w.process (event_of w c) s.world).1
          (record (tick_on w s) { world = (w.process (event_of w c) s.world).0 }) in
      let (le, eq) = taken-drain_rows cs (attempt w c (tick_on w s)) in ground (arith, one, le, eq)

  length-claimed_rows :
      (s : Progress W) → length (claimed_rows w s) ≤ w.limit - s.processed - s.failed
  length-claimed_rows s =
      let m = w.moment s.tick in
      let t = w.others s.tick s.outbox in
      let chosen = candidates m (claim_limit w s) w.lease_seconds s.blocked t in
      omega (
        arith,
        length-returning (claim m (claim_limit w s) w.lease_seconds w.claim_token s.blocked t)
            chosen,
        length-candidates m (claim_limit w s) w.lease_seconds s.blocked t,
      )

  taken-drain_claimed :
      (cs : List Claimed) (s : Progress W)
      → (taken (drain_claimed w cs s).0 ≤ taken s + length cs)
        × ((drain_claimed w cs s).1 ≡ going → taken s < taken (drain_claimed w cs s).0)
  taken-drain_claimed [] s = (omega arith, λ e. cc)
  taken-drain_claimed (c ∷ cs) s =
      let (le, eq) = taken-drain_rows (c ∷ cs) s in (le, λ e. let all_taken = eq e in omega arith)

  -- A turn takes at least one row, or is the last.
  taken-turn :
      (s : Progress W)
      → taken s ≤ w.limit
      → (taken (turn w s).0 ≤ w.limit) × ((turn w s).1 ≡ going → taken s < taken (turn w s).0)
  unfolding turn
  taken-turn s le =
      let some_rows = length-claimed_rows (tick_on w s) in
      let (most, more) =
        taken-drain_claimed (claimed_rows w (tick_on w s)) (claiming w (tick_on w s)) in
      elim (Bool-cases (ltb (s.processed + s.failed) w.limit)) [
        | inr n ↦ rw n (le, λ e. cc)
        | inl y ↦ elim (Bool-cases (w.late s.tick)) [
          | inl l ↦ rw (y, l) (le, λ e. cc)
          | inr l ↦ rw (y, l) (ground (arith, most, some_rows, y), more)
        ]
      ]

  -- What a drain of enough fuel leaves.
  abbrev pub Ends : Option (Progress W × Outcome) → Type 0
  Ends o = (s : Progress W) × (x : Outcome) × (o ≡ some (s, x)) × (taken s ≤ w.limit) × (x ≢ going)

  turn-Ends :
      (n : ℕ) (s t : Progress W) (x : Outcome)
      → (turn w s).0 ≡ t
      → (turn w s).1 ≡ x
      → taken t ≤ w.limit
      → (x ≡ going → Ends (turns w n t))
      → Ends (turns w (suc n) s)
  unfolding turns
  turn-Ends n s t going is e bound again = rw (turns, e, is) (again refl)
  turn-Ends n s t returned is e bound again = rw (turns, e, is) (t, returned, refl, bound, λ q. cc)
  turn-Ends n s t (thrown f) is e bound again =
      rw (turns, e, is) (t, thrown f, refl, bound, λ q. cc)

  turns-Ends :
      (fuel : ℕ) (s : Progress W)
      → taken s ≤ w.limit
      → w.limit - taken s < fuel
      → Ends (turns w fuel s)
  turns-Ends zero s le enough = absurd (omega arith)
  turns-Ends (suc n) s le enough =
      let (bound, grows) = taken-turn s le in
      turn-Ends n s (turn w s).0 (turn w s).1 refl refl bound
        (λ e. let more = grows e in turns-Ends n (turn w s).0 bound (omega arith))

  if-Ends :
      (b : Bool) (o p : Option (Progress W × Outcome)) → Ends o → Ends p → Ends (if b then o else p)
  if-Ends true o p h k = h
  if-Ends false o p h k = k

  refused-Ends :
      (world : W) (t : Outbox) (e : OutboxError) → Ends (some (start w world t, thrown e))
  refused-Ends world t e = (start w world t, thrown e, refl, omega arith, λ q. cc)

  pub drain-Ends : (world : W) (t : Outbox) → Ends (drain w world t)
  unfolding drain
  drain-Ends world t = if-Ends _ _ _ (refused-Ends world t limit_invalid) (
      if-Ends _ _ _ (refused-Ends world t lease_invalid) (
        if-Ends _ _ _ (refused-Ends world t duration_invalid)
          (turns-Ends (suc w.limit) (start w world t) (omega arith) (omega arith))))
