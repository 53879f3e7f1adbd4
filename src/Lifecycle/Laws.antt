-- ===== src/Lifecycle/Laws.antt =====
-- What calls keep of the two tables, whatever fails.
use skillplane.Common.{
  ℕ, String, ◌≡◌, refl, ap, ◌∙◌, Bool, true, List, [], ◌∷◌, ◌++◌, arith, Bool-cases, Result-cases,
  Result, inl, inr, ok, err,
}
use skillplane.Common.Errors.{DomainError}
use skillplane.Idempotency.{IdempotencyIdentity, Records, Claimed, claimed, replay, complete}
use text.Mathlib.TextPositions.{eq_refl}
use skillplane.Lifecycle.{
  changed, LifecycleTable, Region, Change, upsert, give_up, commit_change, settle, change,
  after_claim, after_checks, checked_reason, set_lifecycle, workspace_of,
}
use skillplane.Lifecycle.Marks.{
  is_marked, IsFailClosed, KeepsMarks, merged_row-marks, give_up-public, give_up-regional, Moves,
  stays, marks_public, marks_both, Moves-IsFailClosed, Moves-KeepsMarks,
}

module _ (x : Change) (reason : String) where
  abbrev MovesBy : Region → Region → Type 0
  MovesBy = Moves x.version_id (workspace_of x.principal) reason x.state x.now

  -- After the mark in the public table.
  settle-MovesBy :
      (i : IdempotencyIdentity) (s m : Region)
      → m.public ≡ upsert x.version_id (workspace_of x.principal) x.state reason x.now s.public
      → m.regional ≡ s.regional
      → MovesBy s (settle x i m (commit_change x reason i m)).0
  unfolding settle commit_change give_up
  settle-MovesBy i s m p r = elim (Result-cases (complete i 200 x.response_body x.now m.records)) [
    | inr (e, f) ↦ rw f (marks_public (give_up-public x i m ∙ p) (give_up-regional x i m ∙ r))
    | inl (records, f) ↦
        let done : Region = record m {
          records = records;
          regional = upsert x.version_id (workspace_of x.principal) x.state reason x.now m.regional;
          audit = m.audit ++ ((x.version_id, x.state) ∷ []);
        } in
        let both = ap (upsert x.version_id (workspace_of x.principal) x.state reason x.now) r in
        elim (Bool-cases x.commit_fails) [
          | inr g ↦ rw (f, g) (marks_both p both)
          | inl g ↦ elim (Bool-cases x.commit_applied) [
            | inl k ↦
                rw (f, g, k)
                  (marks_both (give_up-public x i done ∙ p) (give_up-regional x i done ∙ both))
            | inr k ↦
                rw (f, g, k) (marks_public (give_up-public x i m ∙ p) (give_up-regional x i m ∙ r))
          ]
        ]
  ]

  change-MovesBy :
      (is_published : String → String → String → Bool) (i : IdempotencyIdentity) (s : Region)
      → MovesBy s (change is_published x reason i s).0
  unfolding change give_up commit_change settle
  change-MovesBy is_published i s =
      let ws = workspace_of x.principal in
      let marked : Region = record s {
        public = upsert x.version_id ws x.state reason x.now s.public;
      } in
      elim (Bool-cases (is_published x.version_id x.skill_id ws)) [
        | inr e ↦ rw e (stays (give_up-public x i s) (give_up-regional x i s))
        | inl e ↦ elim (Bool-cases x.control_fails) [
          | inr f ↦ rw (e, f) (settle-MovesBy i s marked refl refl)
          | inl f ↦ elim (Bool-cases x.control_applied) [
            | inl g ↦
                rw (e, f, g)
                  (marks_public (give_up-public x i marked) (give_up-regional x i marked))
            | inr g ↦ rw (e, f, g) (stays (give_up-public x i s) (give_up-regional x i s))
          ]
        ]
      ]

  -- The records of the claim stand in neither table.
  MovesBy-records :
      (s t : Region) (records : Records) → MovesBy (record s { records = records }) t → MovesBy s t
  MovesBy-records s t records (stays p r) = stays p r
  MovesBy-records s t records (marks_public p r) = marks_public p r
  MovesBy-records s t records (marks_both p r) = marks_both p r

  after_claim-MovesBy :
      (is_published : String → String → String → Bool) (s : Region)
      (r : Result DomainError (Claimed × Records))
      → MovesBy s (after_claim is_published x reason s r).0
  after_claim-MovesBy is_published s (err e) = stays refl refl
  after_claim-MovesBy is_published s (ok (replay status body, records)) = stays refl refl
  after_claim-MovesBy is_published s (ok (claimed i, records)) =
      MovesBy-records s _ records (change-MovesBy is_published i (record s { records = records }))

  -- A change that is answered as made stands in both tables.
  abbrev IsMade : Region → Type 0
  IsMade t =
      (is_marked x.state (t.public x.version_id) ≡ true)
      × (is_marked x.state (t.regional x.version_id) ≡ true)

  upsert-is_marked :
      (t : LifecycleTable)
      → is_marked x.state
          (upsert x.version_id (workspace_of x.principal) x.state reason x.now t x.version_id)
        ≡ true
  unfolding upsert
  upsert-is_marked t =
      rw (eq_refl x.version_id)
        (merged_row-marks (workspace_of x.principal) x.state reason x.now (t x.version_id))

  change-IsMade :
      (is_published : String → String → String → Bool) (i : IdempotencyIdentity) (s : Region)
      → (change is_published x reason i s).1 ≡ ok changed
      → IsMade (change is_published x reason i s).0
  unfolding change settle commit_change
  change-IsMade is_published i s h =
      elim (Result-cases (complete i 200 x.response_body x.now s.records)) [
        | inr (e, f) ↦ absurd (ground arith)
        | inl (records, f) ↦
            (ground (arith, upsert-is_marked s.public), ground (arith, upsert-is_marked s.regional))
      ]

  after_claim-IsMade :
      (is_published : String → String → String → Bool) (s : Region)
      (r : Result DomainError (Claimed × Records))
      → (after_claim is_published x reason s r).1 ≡ ok changed
      → IsMade (after_claim is_published x reason s r).0
  after_claim-IsMade is_published s (err e) h = absurd (cc)
  after_claim-IsMade is_published s (ok (replay status body, records)) h = absurd (cc)
  after_claim-IsMade is_published s (ok (claimed i, records)) h =
      change-IsMade is_published i (record s { records = records }) h

module _ (lock_ms retention_ms : ℕ) (is_published : String → String → String → Bool) where
  set_lifecycle-keeps :
      (x : Change) (s : Region)
      → IsFailClosed s
      → IsFailClosed (set_lifecycle lock_ms retention_ms is_published x s).0
        × KeepsMarks s (set_lifecycle lock_ms retention_ms is_published x s).0
  unfolding set_lifecycle
  set_lifecycle-keeps x s h = elim (Result-cases (checked_reason x)) [
    | inr (e, f) ↦ rw f (h, λ state v. (λ k. k, λ k. k))
    | inl (reason, f) ↦
        let moves = after_claim-MovesBy x reason is_published s _ in
        rw f (
          Moves-IsFailClosed x.version_id (workspace_of x.principal) reason x.state x.now moves h,
          Moves-KeepsMarks x.version_id (workspace_of x.principal) reason x.state x.now moves,
        )
  ]

  unfoldable pub run_changes : List Change → Region → Region
  run_changes [] s = s
  run_changes (x ∷ xs) s = run_changes xs (set_lifecycle lock_ms retention_ms is_published x s).0

  -- Through any calls, and whatever fails or loses its answer, what a region says of a version, that it is
  -- deprecated or that it is revoked, the control plane says too, and neither of them takes it back.
  pub run_changes-IsFailClosed :
      (xs : List Change) (s : Region)
      → IsFailClosed s
      → IsFailClosed (run_changes xs s) × KeepsMarks s (run_changes xs s)
  unfolding run_changes
  run_changes-IsFailClosed [] s h = (h, λ state v. (λ k. k, λ k. k))
  run_changes-IsFailClosed (x ∷ xs) s h =
      let (closed, kept) = set_lifecycle-keeps x s h in
      let (all_closed, all_kept) =
        run_changes-IsFailClosed xs (set_lifecycle lock_ms retention_ms is_published x s).0
          closed in
      (
        all_closed,
        λ state v. (
          λ k. (all_kept state v).0 ((kept state v).0 k),
          λ k. (all_kept state v).1 ((kept state v).1 k),
        ),
      )

  checked-IsMade :
      (x : Change) (s : Region) (r : Result DomainError String)
      → (after_checks lock_ms retention_ms is_published x s r).1 ≡ ok changed
      → IsMade x "" (after_checks lock_ms retention_ms is_published x s r).0
  checked-IsMade x s (err e) h = absurd (cc)
  checked-IsMade x s (ok reason) h = after_claim-IsMade x reason is_published s _ h

  -- A call that answers that it has changed the state has marked the version in both tables.
  pub set_lifecycle-marks :
      (x : Change) (s : Region)
      → (set_lifecycle lock_ms retention_ms is_published x s).1 ≡ ok changed
      → (is_marked x.state
            ((set_lifecycle lock_ms retention_ms is_published x s).0.public x.version_id)
          ≡ true)
        × (is_marked x.state
              ((set_lifecycle lock_ms retention_ms is_published x s).0.regional x.version_id)
            ≡ true)
  unfolding set_lifecycle
  set_lifecycle-marks x s h = checked-IsMade x s (checked_reason x) h
