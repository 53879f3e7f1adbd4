-- ===== src/Idempotency/Locks.antt =====
-- A claim after a claim that was granted.
use skillplane.Common.{
  ◌∙◌, ℕ, ◌+◌, ◌<◌, String, ◌≡◌, refl, sym, subst, none, some, inl, inr, arith, str_eq, Bool-cases,
  Option-cases, ok, err, Date,
}
use skillplane.Common.Errors.{DomainError}
use skillplane.Idempotency.{
  Slot, IdempotencyIdentity, Entry, Records, put_entry, validate_idempotency_key, Claim, claimed,
  slot_of, in_progress, reused, claim_existing, claim,
}
use skillplane.Idempotency.Laws.{same_slot_self, claim-ok}

locked-refuses :
    (lock keep : ℕ) (y : Claim) (slot : Slot) (entry : Entry) (t : Records)
    → entry.response_status ≡ none
    → y.now < entry.locked_until
    → (e : DomainError) × (claim_existing lock keep y slot entry t ≡ err e)
unfolding claim_existing
locked-refuses lock keep y slot entry t unanswered early =
    elim (Bool-cases (str_eq entry.request_hash y.request_hash)) [
      | inl s ↦ (in_progress, ground (arith, s, unanswered, early))
      | inr s ↦ (reused, ground (arith, s))
    ]

-- What a claim that was granted has left.
record IsLocked (slot : Slot) (end : Date) (t : Records) : Type 0 where
  entry : Entry
  found : t slot ≡ some entry
  unanswered : entry.response_status ≡ none
  locked : entry.locked_until ≡ end

put-IsLocked :
    (slot : Slot) (entry : Entry) (t t' : Records)
    → entry.response_status ≡ none
    → put_entry slot (some entry) t ≡ t'
    → IsLocked slot entry.locked_until t'
put-IsLocked slot entry t t' n e = subst (IsLocked slot entry.locked_until) e (record {
  entry = entry;
  found = ground (arith, same_slot_self slot);
  unanswered = n;
  locked = refl;
})

existing-IsLocked :
    (lock keep : ℕ) (x : Claim) (slot : Slot) (entry : Entry) (identity : IdempotencyIdentity)
    (t t' : Records)
    → claim_existing lock keep x slot entry t ≡ ok (claimed identity, t')
    → IsLocked slot (x.now + lock) t'
unfolding claim_existing
existing-IsLocked lock keep x slot entry identity t t' h =
    elim (Option-cases entry.response_status) [
      | inl n ↦
          put-IsLocked slot
            (record entry { locked_until = x.now + lock; expires_at = x.now + keep }) t t' n
            (ground (arith, h, n))
      | inr (status, n) ↦ absurd (ground (arith, h, n))
    ]

found_claim :
    (lock keep : ℕ) (x : Claim) (key : String) (entry : Entry) (t : Records)
    → validate_idempotency_key x.key ≡ ok key
    → t (slot_of x key) ≡ some entry
    → claim_existing lock keep x (slot_of x key) entry t ≡ claim lock keep x t
found_claim lock keep x key entry t v n = rw (claim-ok lock keep x key t v, n) refl

claim-IsLocked :
    (lock keep : ℕ) (x : Claim) (key : String) (identity : IdempotencyIdentity) (t t' : Records)
    → validate_idempotency_key x.key ≡ ok key
    → claim lock keep x t ≡ ok (claimed identity, t')
    → IsLocked (slot_of x key) (x.now + lock) t'
claim-IsLocked lock keep x key identity t t' v h = elim (Option-cases (t (slot_of x key))) [
  | inr (entry, n) ↦
      existing-IsLocked lock keep x (slot_of x key) entry identity t t'
        (found_claim lock keep x key entry t v n ∙ h)
  | inl n ↦
      put-IsLocked (slot_of x key)
        (record {
          request_hash = x.request_hash;
          response_status = none;
          response_body = none;
          locked_until = x.now + lock;
          expires_at = x.now + keep;
        })
        t t' refl (ground (arith, n, h, claim-ok lock keep x key t v))
]

-- Right after a claim that was granted, any claim of the same key whose clock stands before the end
-- of the lock is refused.
pub claim-excludes :
    (lock keep : ℕ) (x y : Claim) (key other : String) (identity : IdempotencyIdentity)
    (t t' : Records)
    → validate_idempotency_key x.key ≡ ok key
    → validate_idempotency_key y.key ≡ ok other
    → slot_of y other ≡ slot_of x key
    → claim lock keep x t ≡ ok (claimed identity, t')
    → y.now < x.now + lock
    → (e : DomainError) × (claim lock keep y t' ≡ err e)
claim-excludes lock keep x y key other identity t t' vx vy same granted early =
    let k = claim-IsLocked lock keep x key identity t t' vx granted in
    let found : t' (slot_of y other) ≡ some k.entry =
      subst (λ s. t' s ≡ some k.entry) (sym same) k.found in
    rw (claim-ok lock keep y other t' vy, found)
      (locked-refuses lock keep y (slot_of y other) k.entry t' k.unanswered
        (let e = k.locked in omega (arith, e, early)))
