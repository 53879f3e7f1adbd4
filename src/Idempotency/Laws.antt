-- ===== src/Idempotency/Laws.antt =====
-- Claims after a request was completed.
use skillplane.Common.{
  ◌∙◌, ℕ, ◌+◌, String, ◌≡◌, refl, sym, subst, none, some, true, false, not, List, [], ◌∷◌, inl, inr,
  arith, eq_iff, str_eq, Bool-cases, Option-cases, Result-cases, Result, ok, err, if◌then◌else◌,
  Date,
}
use skillplane.Common.Errors.{DomainError}
use skillplane.Idempotency.{
  Slot, IdempotencyIdentity, Entry, Records, same_slot, put_entry, validate_idempotency_key, Claim,
  Claimed, claimed, replay, slot_of, reused, claim_existing, claim, is_open, answered, complete,
  release,
}

pub data Op : Type 0 where
  claim_op : Claim → Op
  complete_op : IdempotencyIdentity → ℕ → String → Date → Op
  release_op : IdempotencyIdentity → Op

-- A transaction that throws has written nothing.
abbrev pub claim_left : Records → Result DomainError (Claimed × Records) → Records
claim_left t (ok (reply, t')) = t'
claim_left t (err e) = t

abbrev pub complete_left : Records → Result DomainError Records → Records
complete_left t (ok t') = t'
complete_left t (err e) = t

abbrev pub run_op : ℕ → ℕ → Op → Records → Records
run_op lock keep (claim_op x) t = claim_left t (claim lock keep x t)
run_op lock keep (complete_op identity status body now) t =
    complete_left t (complete identity status body now t)
run_op lock keep (release_op identity) t = release identity t

abbrev pub run_ops : ℕ → ℕ → List Op → Records → Records
run_ops lock keep [] t = t
run_ops lock keep (op ∷ ops) t = run_ops lock keep ops (run_op lock keep op t)

-- The record of the slot holds an answer to the request.
record IsAnswered (slot : Slot) (hash : String) (status : ℕ) (body : String) (t : Records)
    : Type 0 where
  entry : Entry
  found : t slot ≡ some entry
  request : entry.request_hash ≡ hash
  status_kept : entry.response_status ≡ some status
  body_kept : entry.response_body ≡ some body

same_slot-eq : (a b : Slot) → same_slot a b ≡ true → a ≡ b
same_slot-eq a b h = cc (
  (eq_iff a.workspace_id b.workspace_id).0 (ground arith),
  (eq_iff a.principal_key b.principal_key).0 (ground arith),
  (eq_iff a.key b.key).0 (ground arith),
  (eq_iff a.operation b.operation).0 (ground arith),
)

pub same_slot_self : (a : Slot) → same_slot a a ≡ true
same_slot_self a = ground (
  arith,
  eq_iff a.workspace_id a.workspace_id,
  eq_iff a.principal_key a.principal_key,
  eq_iff a.key a.key,
  eq_iff a.operation a.operation,
)

-- The slot of a claim whose key is valid.
pub claim-ok :
    (lock keep : ℕ) (x : Claim) (key : String) (t : Records)
    → validate_idempotency_key x.key ≡ ok key
    → claim lock keep x t ≡ elim (t (slot_of x key)) [
      | none ↦ ok (
        claimed (record { slot = slot_of x key; request_hash = x.request_hash }),
        put_entry
            (slot_of x key)
            (some (record {
              request_hash = x.request_hash;
              response_status = none;
              response_body = none;
              locked_until = x.now + lock;
              expires_at = x.now + keep;
            }))
            t,
      )
      | some entry ↦ claim_existing lock keep x (slot_of x key) entry t
    ]
unfolding claim
claim-ok lock keep x key t e =
    rw (claim, e)
      (elim (Option-cases (t (slot_of x key))) [ inl n ↦ rw n refl | inr (entry, n) ↦ rw n refl ])

claim_existing-answered :
    (lock keep : ℕ) (x : Claim) (slot : Slot) (entry : Entry) (status : ℕ) (body : String)
    (t : Records)
    → entry.response_status ≡ some status
    → entry.response_body ≡ some body
    → claim_existing lock keep x slot entry t ≡ (
        if not (str_eq entry.request_hash x.request_hash)
        then err reused
        else ok (replay status body, t))
unfolding claim_existing
claim_existing-answered lock keep x slot entry status body t s b = rw (claim_existing, s, b) refl

claim_existing-other :
    (lock keep : ℕ) (x : Claim) (mine slot : Slot) (entry : Entry) (t : Records)
    → same_slot mine slot ≡ false
    → claim_left t (claim_existing lock keep x mine entry t) slot ≡ t slot
unfolding claim_existing
claim_existing-other lock keep x mine slot entry t other = ground (arith, other)

run_op-IsAnswered :
    (lock keep : ℕ) (slot : Slot) (hash : String) (status : ℕ) (body : String) (op : Op)
    (t : Records)
    → IsAnswered slot hash status body t
    → run_op lock keep op t slot ≡ t slot
unfolding claim complete release
run_op-IsAnswered lock keep slot hash status body (claim_op x) t a =
    elim (Result-cases (validate_idempotency_key x.key)) [
      | inr (e, v) ↦ rw (run_op, claim, v) refl
      | inl (key, v) ↦ elim (Bool-cases (same_slot (slot_of x key) slot)) [
        | inl same ↦
            let e : slot_of x key ≡ slot = same_slot-eq (slot_of x key) slot same in
            let found : t (slot_of x key) ≡ some a.entry =
              subst (λ k. t k ≡ some a.entry) (sym e) a.found in
            rw
              (
                run_op,
                claim-ok lock keep x key t v,
                found,
                claim_existing-answered lock keep x (slot_of x key) a.entry status body t
                    a.status_kept a.body_kept,
              )
              (ground arith)
        | inr other ↦ elim (Option-cases (t (slot_of x key))) [
          | inl n ↦ rw (run_op, claim-ok lock keep x key t v, n) (ground (arith, other))
          | inr (entry, n) ↦
              rw (run_op, claim-ok lock keep x key t v, n)
                (claim_existing-other lock keep x (slot_of x key) slot entry t other)
        ]
      ]
    ]
run_op-IsAnswered lock keep slot hash status body (complete_op identity s b now) t a =
    elim (Bool-cases (same_slot identity.slot slot)) [
      | inl same ↦
          let e : identity.slot ≡ slot = same_slot-eq identity.slot slot same in
          let found : t identity.slot ≡ some a.entry =
            subst (λ k. t k ≡ some a.entry) (sym e) a.found in
          let shut : is_open identity (t identity.slot) ≡ false =
            rw (found, a.status_kept) (ground arith) in
          rw (run_op, complete, shut) refl
      | inr other ↦ ground (arith, other)
    ]
run_op-IsAnswered lock keep slot hash status body (release_op identity) t a =
    elim (Bool-cases (same_slot identity.slot slot)) [
      | inl same ↦
          let e : identity.slot ≡ slot = same_slot-eq identity.slot slot same in
          let found : t identity.slot ≡ some a.entry =
            subst (λ k. t k ≡ some a.entry) (sym e) a.found in
          let shut : is_open identity (t identity.slot) ≡ false =
            rw (found, a.status_kept) (ground arith) in
          rw (run_op, release, shut) refl
      | inr other ↦ ground (arith, other)
    ]

run_ops-IsAnswered :
    (lock keep : ℕ) (slot : Slot) (hash : String) (status : ℕ) (body : String) (ops : List Op)
    (t : Records)
    → IsAnswered slot hash status body t
    → IsAnswered slot hash status body (run_ops lock keep ops t)
run_ops-IsAnswered lock keep slot hash status body [] t a = a
run_ops-IsAnswered lock keep slot hash status body (op ∷ ops) t a =
    run_ops-IsAnswered lock keep slot hash status body ops (run_op lock keep op t) (record {
      entry = a.entry;
      found = run_op-IsAnswered lock keep slot hash status body op t a ∙ a.found;
      request = a.request;
      status_kept = a.status_kept;
      body_kept = a.body_kept;
    })

complete-IsAnswered :
    (identity : IdempotencyIdentity) (status : ℕ) (body : String) (now : Date) (t t' : Records)
    → complete identity status body now t ≡ ok t'
    → IsAnswered identity.slot identity.request_hash status body t'
unfolding complete
complete-IsAnswered identity status body now t t' h = elim (Option-cases (t identity.slot)) [
  | inl n ↦ ground (arith, n, h)
  | inr (entry, n) ↦ elim (Bool-cases (is_open identity (some entry))) [
    | inr shut ↦ ground (arith, n, shut, h)
    | inl is ↦
        let e : put_entry identity.slot (answered status body now (some entry)) t ≡ t' =
          ground (arith, n, is, h) in
        subst (IsAnswered identity.slot identity.request_hash status body) e (record {
          entry = record entry {
            response_status = some status;
            response_body = some body;
            locked_until = now;
          };
          found = ground (arith, same_slot_self identity.slot);
          request = (eq_iff entry.request_hash identity.request_hash).0 (ground (arith, is));
          status_kept = refl;
          body_kept = refl;
        })
  ]
]

-- After a request was completed, and whatever is claimed, completed and released then, a claim for
-- the same key with the same request is answered with the status and the body of the completion,
-- and one with another request is refused as a reuse of the key; neither changes a record.
pub complete-replays :
    (lock keep : ℕ) (identity : IdempotencyIdentity) (status : ℕ) (body : String) (now : Date)
    (t t' : Records)
    → complete identity status body now t ≡ ok t'
    → (ops : List Op) (x : Claim) (key : String) → validate_idempotency_key x.key ≡ ok key
    → slot_of x key ≡ identity.slot
    → claim lock keep x (run_ops lock keep ops t') ≡ (
        if not (str_eq identity.request_hash x.request_hash)
        then err reused
        else ok (replay status body, run_ops lock keep ops t'))
complete-replays lock keep identity status body now t t' h ops x key valid same =
    let t2 = run_ops lock keep ops t' in
    let a =
      run_ops-IsAnswered lock keep identity.slot identity.request_hash status body ops t'
        (complete-IsAnswered identity status body now t t' h) in
    let found : t2 (slot_of x key) ≡ some a.entry =
      subst (λ k. t2 k ≡ some a.entry) (sym same) a.found in
    rw
      (
        claim-ok lock keep x key t2 valid,
        found,
        claim_existing-answered lock keep x (slot_of x key) a.entry status body t2 a.status_kept
            a.body_kept,
        a.request,
      )
      refl
