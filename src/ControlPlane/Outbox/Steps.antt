-- ===== src/ControlPlane/Outbox/Steps.antt =====
-- The statements of all workers in sequence, and the sequences that are allotted.
use skillplane.Common.{
  ℕ, ◌≤◌, ◌<◌, ◌≡◌, sym, refl, subst, String, Option, some, true, false, Bool-cases, ◌⊎◌, inl, inr,
  List, str_eq, eq_iff, contains, contains-filter, not, ok, Date, arith, get_or,
}
use skillplane.Common.Json.{Json}
use skillplane.ControlPlane.Regional.{RegionalEventType}
use skillplane.ControlPlane.Outbox.{
  Row, Outbox, Moment, next_sequence, enqueue, update, inserted, insert, claim, acknowledge, fail,
  release, cleanup, retired, delete,
}
use skillplane.ControlPlane.Outbox.Laws.{
  is_touched, IsOrdered, Step, enqueued, claimed, acknowledged, failed, released, cleaned, Steps,
  here, onward,
}
use skillplane.ControlPlane.Outbox.Order.{
  claim-IsOrdered, acknowledge-IsOrdered, fail-IsOrdered, release-IsOrdered, next_sequence-after,
}

pub enqueue-cases :
    (now : Date) (id ws : String) (type : RegionalEventType) (payload : Json) (epoch : Option ℕ)
    (t u : Outbox)
    → enqueue now id ws type payload epoch t ≡ ok u
    → u ≡ insert id (inserted now id ws type payload (get_or epoch 1) t) t
unfolding enqueue
enqueue-cases now id ws type payload epoch t u h = ground (arith, h)

inserted-cases :
    (id k : String) (new r : Row) (t : Outbox)
    → (insert id new t).row k ≡ some r
    → ((str_eq id k ≡ true) × (r ≡ new)) ⊎ ((str_eq id k ≡ false) × (t.row k ≡ some r))
inserted-cases id k new r t h = elim (Bool-cases (str_eq id k)) [
  | inl y ↦ inl (y, ground (arith, h, y))
  | inr n ↦ inr (n, ground (arith, h, n))
]

module _ (id : String) (new : Row) (t : Outbox)
    (next : new.sequence ≡ next_sequence new.workspace_id t) (untouched : is_touched new ≡ false)
    (h : IsOrdered t) where
  after :
      (k : String) (r : Row)
      → t.row k ≡ some r
      → r.workspace_id ≡ new.workspace_id
      → r.sequence < new.sequence
  after k r e same =
      let lt = next_sequence-after t k r h e in
      let at : next_sequence r.workspace_id t ≡ new.sequence = cc (same, next) in omega arith

  insert-IsOrdered : IsOrdered (insert id new t)
  insert-IsOrdered = record {
    listed = λ k r e. elim (inserted-cases id k new r t e) [
      | inl (y, is) ↦ ground (arith, y)
      | inr (n, old) ↦ ground (arith, h.listed k r old)
    ];
    allotted = λ k r e. elim (inserted-cases id k new r t e) [
      | inl (y, is) ↦ (
        new.sequence,
        ground (arith, (eq_iff new.workspace_id r.workspace_id).1 (cc is)),
        let seq : r.sequence ≡ new.sequence = cc is in omega arith,
      )
      | inr (n, old) ↦
          let (m, found, le) = h.allotted k r old in
          elim (Bool-cases (str_eq new.workspace_id r.workspace_id)) [
            | inl same ↦
                let lt = after k r old (sym ((eq_iff new.workspace_id r.workspace_id).0 same)) in
                (new.sequence, ground (arith, same), omega arith)
            | inr other ↦ (m, ground (arith, other, found), le)
          ]
    ];
    ordered = λ k later r s e e' same lt touched. elim (inserted-cases id later new s t e') [
      | inl (y, is) ↦ absurd (ground (arith, untouched, touched, is))
      | inr (n, old) ↦ elim (inserted-cases id k new r t e) [
        | inl (y, is) ↦
            let more = after later s old (cc (same, is)) in
            let seq : r.sequence ≡ new.sequence = cc is in absurd (omega arith)
        | inr (m, older) ↦ h.ordered k later r s older old same lt touched
      ]
    ];
  }

delete-there :
    (gone : List String) (t : Outbox) (id : String) (r : Row)
    → (delete gone t).row id ≡ some r
    → (contains gone id ≡ false) × (t.row id ≡ some r)
delete-there gone t id r h = elim (Bool-cases (contains gone id)) [
  | inl y ↦ absurd (ground (arith, h, y))
  | inr n ↦ (n, ground (arith, h, n))
]

delete-IsOrdered : (gone : List String) (t : Outbox) → IsOrdered t → IsOrdered (delete gone t)
delete-IsOrdered gone t h = record {
  listed = λ id r e.
      let (n, there) = delete-there gone t id r e in
      contains-filter (λ k. not (contains gone k)) t.ids id (h.listed id r there)
        (ground (arith, n));
  allotted = λ id r e. h.allotted id r (delete-there gone t id r e).1;
  ordered = λ id later r s e e' same lt touched.
      h.ordered id later r s (delete-there gone t id r e).1 (delete-there gone t later s e').1 same
        lt touched;
}

pub cleanup-cases :
    (m : Moment) (retention limit : ℕ) (t u : Outbox)
    → cleanup m retention limit t ≡ ok u
    → u ≡ delete (retired m retention limit t) t
unfolding cleanup
cleanup-cases m retention limit t u h = ground (arith, h)

Step-IsOrdered : {t u : Outbox} → Step t u → IsOrdered t → IsOrdered u
Step-IsOrdered {t} {u} (enqueued now id ws type payload epoch e) h =
    subst IsOrdered (sym (enqueue-cases now id ws type payload epoch t u e))
      (insert-IsOrdered id (inserted now id ws type payload (get_or epoch 1) t) t refl refl h)
Step-IsOrdered {t} (claimed m limit lease token blocked) h =
    claim-IsOrdered m limit lease token blocked t h
Step-IsOrdered {t} (acknowledged now id token) h = acknowledge-IsOrdered now id token t h
Step-IsOrdered {t} (failed id token code) h = fail-IsOrdered id token code t h
Step-IsOrdered {t} (released ids token) h = release-IsOrdered ids token t h
Step-IsOrdered {t} {u} (cleaned m retention limit e) h =
    subst IsOrdered (sym (cleanup-cases m retention limit t u e))
      (delete-IsOrdered (retired m retention limit t) t h)

-- The order through any statements of any workers.
pub Steps-IsOrdered : {t u : Outbox} → Steps t u → IsOrdered t → IsOrdered u
Steps-IsOrdered here h = h
Steps-IsOrdered (onward before step) h = Step-IsOrdered step (Steps-IsOrdered before h)

Step-sequences :
    (ws : String) {t u : Outbox} → Step t u → get_or (t.sequences ws) 0 ≤ get_or (u.sequences ws) 0
unfolding claim acknowledge fail release update next_sequence
Step-sequences ws {t} {u} (enqueued now id w type payload epoch e) =
    let is = enqueue-cases now id w type payload epoch t u e in
    let same : u.sequences ws
        ≡ (insert id (inserted now id w type payload (get_or epoch 1) t) t).sequences ws =
      cc is in
    elim (Bool-cases (str_eq w ws)) [
      | inl y ↦
          let at : t.sequences w ≡ t.sequences ws = cc ((eq_iff w ws).0 y) in
          ground (arith, same, y, at)
      | inr n ↦ ground (arith, same, n)
    ]
Step-sequences ws (claimed m limit lease token blocked) = omega arith
Step-sequences ws (acknowledged now id token) = omega arith
Step-sequences ws (failed id token code) = omega arith
Step-sequences ws (released ids token) = omega arith
Step-sequences ws {t} {u} (cleaned m retention limit e) =
    let same : u.sequences ws ≡ t.sequences ws = cc (cleanup-cases m retention limit t u e) in
    ground (arith, same)

Steps-sequences :
    (ws : String) {t u : Outbox} → Steps t u → get_or (t.sequences ws) 0 ≤ get_or (u.sequences ws) 0
Steps-sequences ws here = omega arith
Steps-sequences ws (onward before step) =
    omega (arith, Steps-sequences ws before, Step-sequences ws step)

-- A sequence is allotted once: after any statements, and also when the row of a sequence was
-- processed and cleaned up in between, the next sequence of its workspace is greater.
pub next_sequence-grows :
    {t u : Outbox} (id : String) (r : Row)
    → IsOrdered t
    → t.row id ≡ some r
    → Steps t u
    → r.sequence < next_sequence r.workspace_id u
unfolding next_sequence
next_sequence-grows {t} {u} id r h e steps =
    let (n, found, le) = h.allotted id r e in
    let grown = Steps-sequences r.workspace_id steps in
    let at : get_or (t.sequences r.workspace_id) 0 ≡ n = rw found refl in omega arith
