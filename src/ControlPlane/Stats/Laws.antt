-- ===== src/ControlPlane/Stats/Laws.antt =====
-- The counters of public statistics under replays and cleanups.
use skillplane.Common.{
  Result, ok, err, ℕ, ◌+◌, refl, Bool-cases, Option-cases, inl, inr, none, ◌≡◌, String, some, Bool,
  true, false, List, [], ◌∷◌, arith, eq_iff, Date,
}
use skillplane.ControlPlane.Stats.{
  StatsInput, EventRow, StatsState, is_recorded, stands_before, is_covered, delete_expired,
  apply_checkpoint, cleanup_events, claim, add_counters,
}
use skillplane.Common.Int.{◌+ℤ◌}

-- What may happen to the tables: an event is applied, or history is deleted.
pub data Op : Type 0 where
  apply : Date → StatsInput → Op
  cleanup : Date → ℕ → ℕ → (EventRow → Bool) → Op

-- A statement or a cleanup that throws has written nothing.
abbrev pub or_unchanged : {E : Type 0} → StatsState → Result E StatsState → StatsState
or_unchanged s (ok s') = s'
or_unchanged s (err e) = s

abbrev pub run_op : Op → StatsState → StatsState
run_op (apply now i) s = or_unchanged s (apply_checkpoint now i s)
run_op (cleanup now retention_seconds limit chosen) s =
    or_unchanged s (cleanup_events now retention_seconds limit chosen s)

unfoldable pub run_ops : List Op → StatsState → StatsState
run_ops [] s = s
run_ops (o ∷ os) s = run_ops os (run_op o s)

-- The checkpoint of the workspace stands at the place or after it.
abbrev pub IsPast : String → ℕ → ℕ → StatsState → Type 0
IsPast ws epoch sequence s = is_covered (s.checkpoints ws) (some epoch) (some sequence) ≡ true

module _ (ws : String) (epoch sequence : ℕ) where
  apply-IsPast :
      (now : Date) (i : StatsInput) (s : StatsState)
      → IsPast ws epoch sequence s
      → IsPast ws epoch sequence (or_unchanged s (apply_checkpoint now i s))
  unfolding apply_checkpoint stands_before is_covered
  apply-IsPast now i s h = ground (arith, eq_iff i.workspace_id ws)

  cleanup-IsPast :
      (now : Date) (r limit : ℕ) (chosen : EventRow → Bool) (s : StatsState)
      → IsPast ws epoch sequence s
      → IsPast ws epoch sequence (or_unchanged s (cleanup_events now r limit chosen s))
  unfolding cleanup_events delete_expired
  cleanup-IsPast now r limit chosen s h = ground arith

  run_ops-IsPast :
      (os : List Op) (s : StatsState)
      → IsPast ws epoch sequence s
      → IsPast ws epoch sequence (run_ops os s)
  unfolding run_ops
  run_ops-IsPast [] s h = h
  run_ops-IsPast (apply now i ∷ os) s h =
      run_ops-IsPast os (or_unchanged s (apply_checkpoint now i s)) (apply-IsPast now i s h)
  run_ops-IsPast (cleanup now r limit chosen ∷ os) s h =
      run_ops-IsPast os (or_unchanged s (cleanup_events now r limit chosen s))
        (cleanup-IsPast now r limit chosen s h)

apply-IsPast_self :
    (now : Date) (i : StatsInput) (s first : StatsState)
    → is_recorded i.event_id s.events ≡ false
    → apply_checkpoint now i s ≡ ok first
    → IsPast i.workspace_id i.fencing_epoch i.sequence first
unfolding apply_checkpoint stands_before is_covered
apply-IsPast_self now i s first new h = ground (arith, h, eq_iff i.workspace_id i.workspace_id)

counters_of_IsPast :
    (now : Date) (i : StatsInput) (s : StatsState)
    → IsPast i.workspace_id i.fencing_epoch i.sequence s
    → (t : StatsState) × (apply_checkpoint now i s ≡ ok t) × (t.counters ≡ s.counters)
unfolding apply_checkpoint stands_before is_covered
counters_of_IsPast now i s h =
    let late : stands_before (s.checkpoints i.workspace_id) i.fencing_epoch i.sequence ≡ false =
      ground (arith, h) in
    elim (Bool-cases (is_recorded i.event_id s.events)) [
      | inl y ↦ (s, rw y refl, refl)
      | inr n ↦ (claim now i s, rw (n, late) refl, refl)
    ]

counted_once :
    (now : Date) (i : StatsInput) (s first : StatsState)
    → is_recorded i.event_id s.events ≡ false
    → stands_before (s.checkpoints i.workspace_id) i.fencing_epoch i.sequence ≡ true
    → apply_checkpoint now i s ≡ ok first
    → first.counters i.workspace_id ≡ some (add_counters (s.counters i.workspace_id) i)
unfolding apply_checkpoint
counted_once now i s first new before h = ground (arith, h, eq_iff i.workspace_id i.workspace_id)

-- An event that is not recorded and that the checkpoint stands before, and whose statement succeeds,
-- adds its uses and its number of skills to the counters of its workspace. Applied again, whatever
-- events were applied and whatever history was deleted in between, its statement succeeds and changes
-- no counter; its own row may be gone by then.
pub counters-apply_again :
    (now later : Date) (i : StatsInput) (os : List Op) (s first : StatsState)
    → is_recorded i.event_id s.events ≡ false
    → stands_before (s.checkpoints i.workspace_id) i.fencing_epoch i.sequence ≡ true
    → apply_checkpoint now i s ≡ ok first
    → (first.counters i.workspace_id
        ≡ some (elim (s.counters i.workspace_id) [
          | none ↦ record { agent_skill_uses = i.agent_skill_uses; total_skills = i.total_skills }
          | some c ↦ record {
            agent_skill_uses = c.agent_skill_uses + i.agent_skill_uses;
            total_skills = c.total_skills +ℤ i.total_skills;
          }
        ]))
      × ((t : StatsState) × (apply_checkpoint later i (run_ops os first) ≡ ok t)
          × (t.counters ≡ (run_ops os first).counters))
unfolding add_counters
counters-apply_again now later i os s first new before h = (
  let counted = counted_once now i s first new before h in
      elim (Option-cases (s.counters i.workspace_id)) [
        | inl n ↦ let done = rw n at counted in rw n done
        | inr (c, e) ↦ let done = rw e at counted in rw e done
      ],
  counters_of_IsPast later i (run_ops os first) (
      run_ops-IsPast i.workspace_id i.fencing_epoch i.sequence os first
        (apply-IsPast_self now i s first new h)),
)

-- No operation moves a checkpoint back: a place that it has passed stays passed.
pub run_ops-keeps_past :
    (ws : String) (epoch sequence : ℕ) (os : List Op) (s : StatsState)
    → is_covered (s.checkpoints ws) (some epoch) (some sequence) ≡ true
    → is_covered ((run_ops os s).checkpoints ws) (some epoch) (some sequence) ≡ true
run_ops-keeps_past ws epoch sequence os s h = run_ops-IsPast ws epoch sequence os s h
