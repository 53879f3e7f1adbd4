-- ===== src/ControlPlane/Outbox/Order.antt =====
-- The updates of the outbox against the order of its rows.
use skillplane.Common.{
  ℕ, ◌+◌, ◌≤◌, ◌<◌, ◌≡◌, refl, String, Option, none, some, Bool, true, Bool-cases, Option-cases,
  ◌⊎◌, inl, inr, List, [], ◌∷◌, str_eq, eq_iff, contains, is_some, Date, arith,
}
use skillplane.ControlPlane.Outbox.{
  Row, Outbox, Moment, sequence_in, max_sequence, next_sequence, is_candidate, candidates, update,
  is_owned, claim, acknowledge, fail, release,
}
use skillplane.ControlPlane.Outbox.Laws.{
  is_touched, IsOrdered, updated-cases, chosen-candidate, candidate-earlier,
}

-- An update keeps the order when it keeps the workspaces, the sequences and what is processed, and
-- touches a row only after the earlier rows.
module _ (t : Outbox) (p : String → Row → Bool) (f : Row → Row)
    (workspace : (r : Row) → (f r).workspace_id ≡ r.workspace_id)
    (sequence : (r : Row) → (f r).sequence ≡ r.sequence)
    (kept : (r : Row) → is_some r.processed_at ≡ true → is_some (f r).processed_at ≡ true)
    (touches : (later : String) (s : Row)
      → t.row later ≡ some s
      → p later s ≡ true
      → is_touched (f s) ≡ true
      → (is_touched s ≡ true)
        ⊎ ((id : String) (r : Row)
            → t.row id ≡ some r
            → r.workspace_id ≡ s.workspace_id
            → r.sequence < s.sequence
            → is_some r.processed_at ≡ true))
    (h : IsOrdered t) where
  -- What a row after the update was before it.
  record Before (id : String) (r' : Row) : Type 0 where
    pub r : Row
    pub there : t.row id ≡ some r
    pub ws : r'.workspace_id ≡ r.workspace_id
    pub seq : r'.sequence ≡ r.sequence
    pub processed : is_some r.processed_at ≡ true → is_some r'.processed_at ≡ true
    pub touched :
        is_touched r' ≡ true
        → (is_touched r ≡ true)
          ⊎ ((i : String) (e : Row)
              → t.row i ≡ some e
              → e.workspace_id ≡ r.workspace_id
              → e.sequence < r.sequence
              → is_some e.processed_at ≡ true)

  before : (id : String) (r' : Row) → (update p f t).row id ≡ some r' → Before id r'
  unfolding update
  before id r' e =
      let (r, there, how) = updated-cases p f id (t.row id) r' e in
      elim how [
        | inl same ↦ record {
          r = r;
          there = there;
          ws = cc same;
          seq = cc same;
          processed = λ q. cc (q, same);
          touched = λ q. inl (cc (q, same));
        }
        | inr (chosen, same) ↦ record {
          r = r;
          there = there;
          ws = cc (same, workspace r);
          seq = cc (same, sequence r);
          processed = λ q. cc (kept r q, same);
          touched = λ q. touches id r there chosen (cc (q, same));
        }
      ]

  update-IsOrdered : IsOrdered (update p f t)
  unfolding update
  update-IsOrdered = record {
    listed = λ id r' e. let b = before id r' e in h.listed id b.r b.there;
    allotted = λ id r' e.
        let b = before id r' e in
        let (n, found, le) = h.allotted id b.r b.there in
        (n, cc (found, b.ws), omega (arith, b.seq));
    ordered = λ id later r' s' e e' same lt touched.
        let b = before id r' e in
        let c = before later s' e' in
        let ws : b.r.workspace_id ≡ c.r.workspace_id = cc (same, b.ws, c.ws) in
        let less : b.r.sequence < c.r.sequence = omega (arith, b.seq, c.seq) in
        b.processed (elim (c.touched touched) [
          | inl old ↦ h.ordered id later b.r c.r b.there c.there ws less old
          | inr earlier ↦ earlier id b.r b.there ws less
        ]);
  }

-- A row that its claimant owns is touched.
owned-touched :
    (ids : List String) (token id : String) (r : Row)
    → is_owned ids token id r ≡ true
    → is_touched r ≡ true
owned-touched ids token id r h = elim (Option-cases r.claim_token) [
  | inl n ↦ absurd (ground (arith, h, n))
  | inr (held, e) ↦ ground (arith, e)
]

pub claim-IsOrdered :
    (m : Moment) (limit lease : ℕ) (token : String) (blocked : List String) (t : Outbox)
    → IsOrdered t
    → IsOrdered (claim m limit lease token blocked t)
unfolding claim
claim-IsOrdered m limit lease token blocked t h =
    update-IsOrdered t (λ id r. contains (candidates m limit lease blocked t) id)
      (λ r. record r {
        claim_token = some token;
        claimed_at = some m.now;
        attempts = r.attempts + 1;
      })
      (λ r. refl) (λ r. refl) (λ r q. q)
      (λ later s there chosen touched.
        let candidate = chosen-candidate m limit lease blocked t later chosen in
        let this : is_candidate m.now lease blocked t (some s) ≡ true = cc (candidate, there) in
        inr (λ id r e same lt.
          candidate-earlier m.now lease blocked t id r s this (h.listed id r e) e same lt))
      h

pub acknowledge-IsOrdered :
    (now : Date) (id token : String) (t : Outbox)
    → IsOrdered t
    → IsOrdered (acknowledge now id token t)
unfolding acknowledge
acknowledge-IsOrdered now id token t h =
    update-IsOrdered t (is_owned (id ∷ []) token)
      (λ r. record r {
        processed_at = some now;
        claim_token = none;
        claimed_at = none;
        last_error = none;
      })
      (λ r. refl) (λ r. refl) (λ r q. refl)
      (λ later s there owned touched. inl (owned-touched (id ∷ []) token later s owned)) h

pub fail-IsOrdered :
    (id token code : String) (t : Outbox) → IsOrdered t → IsOrdered (fail id token code t)
unfolding fail
fail-IsOrdered id token code t h =
    update-IsOrdered t (is_owned (id ∷ []) token)
      (λ r. record r { claim_token = none; claimed_at = none; last_error = some code }) (λ r. refl)
      (λ r. refl) (λ r q. q)
      (λ later s there owned touched. inl (owned-touched (id ∷ []) token later s owned)) h

pub release-IsOrdered :
    (ids : List String) (token : String) (t : Outbox)
    → IsOrdered t
    → IsOrdered (release ids token t)
unfolding release
release-IsOrdered ids token t h =
    update-IsOrdered t (is_owned ids token)
      (λ r. record r { claim_token = none; claimed_at = none }) (λ r. refl) (λ r. refl) (λ r q. q)
      (λ later s there owned touched. inl (owned-touched ids token later s owned)) h

-- `MAX(sequence)` bounds the rows.
max_sequence-le :
    (ws id : String) (row : String → Option Row) (ids : List String) (r : Row)
    → contains ids id ≡ true
    → row id ≡ some r
    → r.workspace_id ≡ ws
    → r.sequence ≤ max_sequence ws row ids
max_sequence-le ws id row [] r h e same = cc
max_sequence-le ws id row (x ∷ xs) r h e same = elim (Bool-cases (str_eq x id)) [
  | inl y ↦
      let this : row x ≡ some r = cc ((eq_iff x id).0 y, e) in
      let is : sequence_in ws (row x) ≡ r.sequence =
        rw this (ground (arith, (eq_iff r.workspace_id ws).1 same)) in
      omega (arith, is)
  | inr n ↦ omega (arith, max_sequence-le ws id row xs r (ground (arith, h, n)) e same)
]

pub next_sequence-after :
    (t : Outbox) (id : String) (r : Row)
    → IsOrdered t
    → t.row id ≡ some r
    → r.sequence < next_sequence r.workspace_id t
unfolding next_sequence
next_sequence-after t id r h e =
    omega (arith, max_sequence-le r.workspace_id id t.row t.ids r (h.listed id r e) e refl)
