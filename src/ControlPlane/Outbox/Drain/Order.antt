-- ===== src/ControlPlane/Outbox/Drain/Order.antt =====
-- A drain as a sequence of the statements of its workers.
use skillplane.Common.{
  ℕ, ◌+◌, ◌≤◌, suc, zero, ◌≡◌, ◌≢◌, refl, subst, String, Option, none, some, ◌&&◌, Bool-cases, List,
  [], ◌∷◌, inl, inr, ltb, leb, map,
}
use skillplane.ControlPlane.Outbox.{
  Outbox, Moment, Claimed, claim, acknowledges, acknowledge, fail, release,
}
use skillplane.ControlPlane.Outbox.Laws.{
  IsOrdered, Step, claimed, acknowledged, failed, released, Steps, here, onward,
}
use skillplane.ControlPlane.Outbox.Steps.{Steps-IsOrdered}
use skillplane.ControlPlane.Outbox.Drain.{
  Worker, Progress, Outcome, going, returned, thrown, run, event_of, safe_failure_code, caught,
  settle, attempt, drain_rows, claim_limit, claimed_rows, claiming, tick_on, drain_claimed, turn,
  turns, start, drain, is_limit, is_duration, is_counted,
}
use skillplane.ControlPlane.Outbox.Drain.Laws.{drain-Ends}

Steps-append : {t u v : Outbox} → Steps t u → Steps u v → Steps t v
Steps-append before here = before
Steps-append before (onward after step) = onward (Steps-append before after) step

module _ {W : Type 0} (w : Worker W) (others : (k : ℕ) (t : Outbox) → Steps t (w.others k t))
    (t : Outbox) where
  run-Steps :
      (statement : Moment → Outbox → Outbox) (s : Progress W)
      → ((u : Outbox) → Step u (statement (w.moment s.tick) u))
      → Steps t s.outbox
      → Steps t (run w statement s).outbox
  run-Steps statement s step h =
      onward (Steps-append h (others s.tick s.outbox)) (step (w.others s.tick s.outbox))

  caught-Steps :
      (c : Claimed) (message : String) (s : Progress W)
      → Steps t s.outbox
      → Steps t (caught w c message s).outbox
  caught-Steps c message s h =
      run-Steps (λ m. fail c.id w.claim_token (safe_failure_code message)) s
        (λ u. failed c.id w.claim_token (safe_failure_code message)) h

  settle-Steps :
      (c : Claimed) (o : Option String) (s : Progress W)
      → Steps t s.outbox
      → Steps t (settle w c o s).outbox
  settle-Steps c (some message) s h = caught-Steps c message s h
  settle-Steps c none s h =
      let after =
        run-Steps (λ m. acknowledge m.now c.id w.claim_token) s
          (λ u. acknowledged (w.moment s.tick).now c.id w.claim_token) h in
      elim (Bool-cases (acknowledges c.id w.claim_token (w.others s.tick s.outbox))) [
        | inl y ↦ rw y after
        | inr n ↦ rw n (
            caught-Steps c "PUBLICATION_OUTBOX_CLAIM_LOST"
              (run w (λ m. acknowledge m.now c.id w.claim_token) s) after)
      ]

  drain_rows-Steps :
      (cs : List Claimed) (s : Progress W) → Steps t s.outbox → Steps t (drain_rows w cs s).0.outbox
  drain_rows-Steps [] s h = h
  drain_rows-Steps (c ∷ cs) s h =
      let ids = map (λ unused. unused.id) (c ∷ cs) in
      let world = (w.process (event_of w c) s.world).0 in
      let rest = drain_rows-Steps cs (attempt w c (tick_on w s)) (
        settle-Steps c (w.process (event_of w c) s.world).1 (record (tick_on w s) { world = world })
          h) in
      elim (Bool-cases (w.late s.tick)) [
        | inl l ↦ rw l (
            run-Steps (λ m. release ids w.claim_token) (tick_on w s)
              (λ u. released ids w.claim_token) h)
        | inr l ↦ elim (Bool-cases (is_counted w c.row.fencing_epoch)) [
          | inr n ↦ rw (l, n) h
          | inl e ↦ elim (Bool-cases (is_counted w c.row.sequence)) [
            | inr n ↦ rw (l, e, n) h
            | inl q ↦ rw (l, e, q) rest
          ]
        ]
      ]

  drain_claimed-Steps :
      (cs : List Claimed) (s : Progress W)
      → Steps t s.outbox
      → Steps t (drain_claimed w cs s).0.outbox
  drain_claimed-Steps [] s h = h
  drain_claimed-Steps (c ∷ cs) s h = drain_rows-Steps (c ∷ cs) s h

  turn-Steps : (s : Progress W) → Steps t s.outbox → Steps t (turn w s).0.outbox
  unfolding turn
  turn-Steps s h =
      let s' = tick_on w s in
      let drained = drain_claimed-Steps (claimed_rows w s') (claiming w s') (
        run-Steps (λ m. claim m (claim_limit w s') w.lease_seconds w.claim_token s.blocked) s'
          (λ u.
            claimed (w.moment s'.tick) (claim_limit w s') w.lease_seconds w.claim_token s.blocked)
          h) in
      elim (Bool-cases (ltb (s.processed + s.failed) w.limit)) [
        | inr n ↦ rw n h
        | inl y ↦ elim (Bool-cases (w.late s.tick)) [
          | inl l ↦ rw (y, l) h
          | inr l ↦ rw (y, l) drained
        ]
      ]

  -- Where a drain ends, it has reached the table by statements.
  abbrev From : Option (Progress W × Outcome) → Type 0
  From none = Unit
  From (some (s, x)) = Steps t s.outbox

  turn-From :
      (n : ℕ) (s u : Progress W) (x : Outcome)
      → (turn w s).0 ≡ u
      → (turn w s).1 ≡ x
      → Steps t u.outbox
      → From (turns w n u)
      → From (turns w (suc n) s)
  unfolding turns
  turn-From n s u going is e h again = rw (turns, e, is) again
  turn-From n s u returned is e h again = rw (turns, e, is) h
  turn-From n s u (thrown f) is e h again = rw (turns, e, is) h

  turns-From : (fuel : ℕ) (s : Progress W) → Steps t s.outbox → From (turns w fuel s)
  unfolding turns
  turns-From zero s h = tt
  turns-From (suc n) s h =
      let after = turn-Steps s h in
      turn-From n s (turn w s).0 (turn w s).1 refl refl after (turns-From n (turn w s).0 after)

  drain-From : (world : W) → From (drain w world t)
  unfolding drain
  drain-From world = elim (Bool-cases (is_limit w w.max_duration_ms)) [
    | inr n ↦ rw (drain, n) here
    | inl y ↦ elim (Bool-cases (leb 10 w.lease_seconds && leb w.lease_seconds 600)) [
      | inr n ↦ rw (drain, y, n) here
      | inl l ↦ elim (Bool-cases (is_duration w w.max_duration_ms)) [
        | inr n ↦ rw (drain, y, l, n) here
        | inl d ↦ rw (drain, y, l, d) (turns-From (suc w.limit) (start w world t) here)
      ]
    ]
  ]

  -- Beside other workers, which change the table by statements as well, and whatever the processor
  -- and the clock do, a drain ends: it returns or throws, it has counted no more rows as processed
  -- or failed than its limit, and the rows of each workspace are still in their order.
  pub drain-IsOrdered :
      (world : W)
      → IsOrdered t
      → (s : Progress W) × (x : Outcome) × (drain w world t ≡ some (s, x))
        × (x ≢ going)
        × (s.processed + s.failed ≤ w.limit)
        × IsOrdered s.outbox
  drain-IsOrdered world h =
      let (s, x, e, le, ended) = drain-Ends w world t in
      (s, x, e, ended, le, Steps-IsOrdered (subst From e (drain-From world)) h)
