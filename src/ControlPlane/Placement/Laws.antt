-- ===== src/ControlPlane/Placement/Laws.antt =====
-- Fencing: the epochs of placements.
use skillplane.Common.{
  ℕ, ◌<◌, ◌≤◌, ◌≡◌, ◌≢◌, String, Option, none, some, Bool, true, false, List, [], ◌∷◌, arith,
  eq_iff, subst, inl, inr, ok, err, Result, Option-cases,
}
use skillplane.ControlPlane.Placement.{
  PlacementError, write_ambiguous, existing, WorkspacePlacement, Table, Written, Swap, placement,
  get, put_if_absent, compare_and_set, swap_matches,
}

pub data Op : Type 0 where
  put : WorkspacePlacement → Op
  swap : Swap → Op

abbrev pub run_op : Op → Table → Table
run_op (put next) t = (put_if_absent t next).0
run_op (swap input) t = (compare_and_set t input).0

abbrev pub reply_of : Op → Table → Result PlacementError Written
reply_of (put next) t = (put_if_absent t next).1
reply_of (swap input) t = (compare_and_set t input).1

pub run_ops : List Op → Table → Table
run_ops [] t = t
run_ops (o ∷ os) t = run_ops os (run_op o t)

-- The epoch of a workspace; none is before every epoch.
abbrev pub epoch_at : Table → String → ℕ
epoch_at t ws = elim (t ws) [ none ↦ 0 | some row ↦ row.epoch ]

module _ (ws : String) where
  put-epoch_at :
      (next : WorkspacePlacement) (t : Table) → epoch_at t ws ≤ epoch_at (put_if_absent t next).0 ws
  unfolding put_if_absent
  put-epoch_at next t = ground (arith, eq_iff next.namespace ws)

  swap-epoch_at :
      (input : Swap) (t : Table) → epoch_at t ws ≤ epoch_at (compare_and_set t input).0 ws
  unfolding compare_and_set swap_matches
  swap-epoch_at input t = ground (arith, eq_iff input.namespace ws)

  pub run_op-epoch_at : (o : Op) (t : Table) → epoch_at t ws ≤ epoch_at (run_op o t) ws
  run_op-epoch_at (put next) t = put-epoch_at next t
  run_op-epoch_at (swap input) t = swap-epoch_at input t

  -- Whatever is written through the directory, the epoch of a workspace never goes back.
  pub run_ops-epoch_at : (os : List Op) (t : Table) → epoch_at t ws ≤ epoch_at (run_ops os t) ws
  unfolding run_ops
  run_ops-epoch_at [] t = omega arith
  run_ops-epoch_at (o ∷ os) t = omega (arith, run_op-epoch_at o t, run_ops-epoch_at os (run_op o t))

-- An answer that a swap took place.
abbrev pub Swapped : Table → Swap → Type 0
Swapped t input =
    (p : WorkspacePlacement) × ((compare_and_set t input).1
      ≡ ok (record { done = true; placement = p }))

not-existing-done :
    (next : WorkspacePlacement) (e : PlacementError) (b : Bool)
    (r : Result PlacementError (Option WorkspacePlacement)) (p : WorkspacePlacement)
    → existing next e b r ≢ ok (record { done = true; placement = p })
not-existing-done next e b (ok (some q)) p h = cc
not-existing-done next e b (ok none) p h = ground arith
not-existing-done next e b (err x) p h = cc

Swapped-epochs :
    (t : Table) (input : Swap)
    → Swapped t input
    → (epoch_at t input.namespace ≡ input.expected_epoch)
      × (epoch_at (compare_and_set t input).0 input.namespace ≡ input.next.epoch)
      × (input.expected_epoch < input.next.epoch)
unfolding compare_and_set swap_matches
Swapped-epochs t input (p, h) =
    let no = not-existing-done input.next write_ambiguous true (get t input.namespace) p in
    elim (Option-cases (t input.namespace)) [
      | inl absent ↦ absurd (no (ground arith))
      | inr (row, there) ↦ (
        ground (arith, no),
        ground (arith, no, eq_iff input.namespace input.namespace),
        ground (arith, no),
      )
    ]

-- An epoch is swapped out once: after a swap that took place, and any writes through the
-- directory, no swap of the same workspace that expects the same epoch, or an older one, takes
-- place.
pub Swapped-once :
    (t : Table) (first second : Swap) (os : List Op)
    → Swapped t first
    → second.namespace ≡ first.namespace
    → second.expected_epoch ≤ first.expected_epoch
    → ¬ Swapped (run_ops os (compare_and_set t first).0) second
Swapped-once t first second os won same le again =
    let (before, after, grown) = Swapped-epochs t first won in
    let kept = run_ops-epoch_at first.namespace os (compare_and_set t first).0 in
    let (held, next, more) = Swapped-epochs (run_ops os (compare_and_set t first).0) second again in
    let at : epoch_at (run_ops os (compare_and_set t first).0) first.namespace
        ≡ second.expected_epoch =
      subst (λ w. epoch_at (run_ops os (compare_and_set t first).0) w ≡ second.expected_epoch) same
        held in
    omega arith

-- A write that answers that it did not take place has left the table as it was.
pub table_of_not_done :
    (t : Table) (o : Op) (p : WorkspacePlacement)
    → reply_of o t ≡ ok (record { done = false; placement = p })
    → run_op o t ≡ t
unfolding put_if_absent compare_and_set swap_matches placement
table_of_not_done t (put next) p h = ground arith
table_of_not_done t (swap input) p h = ground arith
