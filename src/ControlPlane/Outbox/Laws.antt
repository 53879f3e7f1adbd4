-- ===== src/ControlPlane/Outbox/Laws.antt =====
-- The order in which the rows of a workspace leave the outbox, and the candidates of a claim.
use skillplane.Common.{
  ℕ, ◌≤◌, ◌<◌, ◌≡◌, refl, String, Option, none, some, Bool, true, false, Bool-cases, ◌⊎◌, inl, inr,
  List, str_eq, eq_iff, any, contains, contains-All, any-false, filter-All, take-All, ◌&&◌, ◌||◌,
  is_some, ok, Date, arith,
}
use skillplane.Common.Json.{Json}
use skillplane.Common.Sorting.{sort-All}
use skillplane.ControlPlane.Regional.{RegionalEventType}
use skillplane.ControlPlane.Outbox.{
  Row, Outbox, Moment, enqueue, precedes, is_candidate, candidates, updated, created_before, claim,
  acknowledge, fail, release, cleanup,
}

abbrev pub is_touched : Row → Bool
is_touched r = is_some r.claim_token || is_some r.processed_at

-- The keys are those of the rows, the sequences allotted to a workspace go as far as its rows, and
-- where a row is claimed or processed, the earlier rows of its workspace are processed.
pub record IsOrdered (t : Outbox) : Type 0 where
  pub listed : (id : String) (r : Row) → t.row id ≡ some r → contains t.ids id ≡ true
  pub allotted :
      (id : String) (r : Row)
      → t.row id ≡ some r
      → (n : ℕ) × (t.sequences r.workspace_id ≡ some n) × (r.sequence ≤ n)
  pub ordered :
      (id later : String) (r s : Row)
      → t.row id ≡ some r
      → t.row later ≡ some s
      → r.workspace_id ≡ s.workspace_id
      → r.sequence < s.sequence
      → is_touched s ≡ true
      → is_some r.processed_at ≡ true

pub data Step : Outbox → Outbox → Type 0 where
  enqueued :
      {t u : Outbox} (now : Date) (id ws : String) (type : RegionalEventType) (payload : Json)
      (epoch : Option ℕ)
      → enqueue now id ws type payload epoch t ≡ ok u
      → Step t u
  claimed :
      {t : Outbox} (m : Moment) (limit lease : ℕ) (token : String) (blocked : List String)
      → Step t (claim m limit lease token blocked t)
  acknowledged : {t : Outbox} (now : Date) (id token : String) → Step t (acknowledge now id token t)
  failed : {t : Outbox} (id token code : String) → Step t (fail id token code t)
  released : {t : Outbox} (ids : List String) (token : String) → Step t (release ids token t)
  cleaned :
      {t u : Outbox} (m : Moment) (retention limit : ℕ)
      → cleanup m retention limit t ≡ ok u
      → Step t u

pub data Steps : Outbox → Outbox → Type 0 where
  here : {t : Outbox} → Steps t t
  onward : {t u v : Outbox} → Steps t u → Step u v → Steps t v

-- A row after an update is a row before it, or its change.
pub updated-cases :
    (p : String → Row → Bool) (f : Row → Row) (id : String) (o : Option Row) (s : Row)
    → updated p f id o ≡ some s
    → (r : Row) × (o ≡ some r) × ((s ≡ r) ⊎ ((p id r ≡ true) × (s ≡ f r)))
updated-cases p f id none s h = cc
updated-cases p f id (some r) s h = elim (Bool-cases (p id r)) [
  | inl y ↦ (r, refl, inr (y, ground (arith, h, y)))
  | inr n ↦ (r, refl, inl (ground (arith, h, n)))
]

pub chosen-candidate :
    (m : Moment) (limit lease : ℕ) (blocked : List String) (t : Outbox) (id : String)
    → contains (candidates m limit lease blocked t) id ≡ true
    → is_candidate m.now lease blocked t (t.row id) ≡ true
unfolding candidates
chosen-candidate m limit lease blocked t id h =
    let test : String → Bool =
      λ id. m.unlocked id && is_candidate m.now lease blocked t (t.row id) in
    let both : test id ≡ true =
      contains-All (λ k. test k ≡ true) _ id
        (take-All (λ k. test k ≡ true) limit _
          (sort-All str_eq (created_before m t) (λ k. test k ≡ true) _ (filter-All test t.ids)))
        h in
    ground (arith, both)

-- The earlier rows of a candidate are processed.
pub candidate-earlier :
    (now : Date) (lease : ℕ) (blocked : List String) (t : Outbox) (id : String) (r s : Row)
    → is_candidate now lease blocked t (some s) ≡ true
    → contains t.ids id ≡ true
    → t.row id ≡ some r
    → r.workspace_id ≡ s.workspace_id
    → r.sequence < s.sequence
    → is_some r.processed_at ≡ true
unfolding is_candidate
candidate-earlier now lease blocked t id r s h listed there same lt =
    let none_before : any (λ k. precedes s (t.row k)) t.ids ≡ false = ground (arith, h) in
    let not_this = any-false (λ k. precedes s (t.row k)) t.ids id none_before listed in
    let this : precedes s (some r) ≡ false = cc (not_this, there) in
    ground (arith, this, (eq_iff r.workspace_id s.workspace_id).1 same)
