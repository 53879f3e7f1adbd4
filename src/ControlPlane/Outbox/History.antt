-- ===== src/ControlPlane/Outbox/History.antt =====
-- What becomes of a row of the outbox through the statements of all workers.
use skillplane.Common.{
  ℕ, ◌<◌, ◌≡◌, refl, subst, sym, String, some, true, false, Bool, Bool-cases, ◌⊎◌, inl, inr, str_eq,
  eq_iff, contains, contains-All, filter-All, take-All, is_some, ◌&&◌, arith, get_or,
}
use skillplane.Common.Sorting.{sort-All}
use skillplane.ControlPlane.Outbox.{
  Row, Outbox, Moment, update, updated, enqueue, claim, acknowledge, fail, release, retired,
  is_retired, retired_before, insert, inserted,
}
use skillplane.ControlPlane.Outbox.Laws.{
  is_touched, IsOrdered, Step, enqueued, claimed, acknowledged, failed, released, cleaned, Steps,
  here, onward,
}
use skillplane.ControlPlane.Outbox.Steps.{Steps-IsOrdered, enqueue-cases, cleanup-cases}

-- The table holds a row, as far as its workspace and its sequence go.
record IsHeld (u : Outbox) (id : String) (r : Row) : Type 0 where
  row : Row
  there : u.row id ≡ some row
  workspace : row.workspace_id ≡ r.workspace_id
  sequence : row.sequence ≡ r.sequence

-- Between two tables was one that held the row as processed.
pub record WasProcessed (t u : Outbox) (id : String) (r : Row) : Type 0 where
  pub at : Outbox
  pub row : Row
  pub reached : Steps t at
  pub left : Steps at u
  pub there : at.row id ≡ some row
  pub workspace : row.workspace_id ≡ r.workspace_id
  pub sequence : row.sequence ≡ r.sequence
  pub processed : is_some row.processed_at ≡ true

itself-IsHeld : (u : Outbox) (id : String) (r : Row) → u.row id ≡ some r → IsHeld u id r
itself-IsHeld u id r e = record { row = r; there = e; workspace = refl; sequence = refl }

update-IsHeld :
    (p : String → Row → Bool) (f : Row → Row) (t : Outbox) (id : String) (r : Row)
    → ((s : Row) → (f s).workspace_id ≡ s.workspace_id)
    → ((s : Row) → (f s).sequence ≡ s.sequence)
    → t.row id ≡ some r
    → IsHeld (update p f t) id r
unfolding update
update-IsHeld p f t id r workspace sequence e = elim (Bool-cases (p id r)) [
  | inl y ↦ record {
    row = f r;
    there = rw (e, updated, y) refl;
    workspace = workspace r;
    sequence = sequence r;
  }
  | inr n ↦ record { row = r; there = rw (e, updated, n) refl; workspace = refl; sequence = refl }
]

-- What a cleanup picks is processed.
retired-processed :
    (m : Moment) (retention limit : ℕ) (t : Outbox) (id : String) (r : Row)
    → contains (retired m retention limit t) id ≡ true
    → t.row id ≡ some r
    → is_some r.processed_at ≡ true
unfolding retired
retired-processed m retention limit t id r h e =
    let test : String → Bool = λ id. m.unlocked id && is_retired m.now retention (t.row id) in
    let both : test id ≡ true =
      contains-All (λ k. test k ≡ true) _ id
        (take-All (λ k. test k ≡ true) limit _
          (sort-All str_eq (retired_before m t) (λ k. test k ≡ true) _ (filter-All test t.ids)))
        h in
    let chosen : is_retired m.now retention (t.row id) ≡ true = ground (arith, both) in
    let picked : is_retired m.now retention (some r) ≡ true = cc (chosen, e) in
    ground (arith, picked)

enqueue-IsHeld :
    (id k : String) (new r : Row) (t : Outbox)
    → is_some (t.row id) ≡ false
    → t.row k ≡ some r
    → IsHeld (insert id new t) k r
enqueue-IsHeld id k new r t fresh e = elim (Bool-cases (str_eq id k)) [
  | inl y ↦ absurd (cc ((eq_iff id k).0 y, fresh, e))
  | inr n ↦ record { row = r; there = rw n e; workspace = refl; sequence = refl }
]

Step-cases :
    {t u : Outbox} (id : String) (r : Row)
    → Step t u
    → t.row id ≡ some r
    → IsHeld u id r ⊎ (is_some r.processed_at ≡ true)
unfolding enqueue claim acknowledge fail release
Step-cases {t} {u} id r (enqueued now k ws type payload epoch e) there = inl (
    subst (λ v. IsHeld v id r) (sym (enqueue-cases now k ws type payload epoch t u e))
      (enqueue-IsHeld k id (inserted now k ws type payload (get_or epoch 1) t) r t
        (ground (arith, e)) there))
Step-cases {t} id r (claimed m limit lease token blocked) there =
    inl (update-IsHeld _ _ t id r (λ s. refl) (λ s. refl) there)
Step-cases {t} id r (acknowledged now k token) there =
    inl (update-IsHeld _ _ t id r (λ s. refl) (λ s. refl) there)
Step-cases {t} id r (failed k token code) there =
    inl (update-IsHeld _ _ t id r (λ s. refl) (λ s. refl) there)
Step-cases {t} id r (released ids token) there =
    inl (update-IsHeld _ _ t id r (λ s. refl) (λ s. refl) there)
Step-cases {t} {u} id r (cleaned m retention limit e) there =
    elim (Bool-cases (contains (retired m retention limit t) id)) [
      | inl y ↦ inr (retired-processed m retention limit t id r y there)
      | inr n ↦ inl (
          subst (λ v. IsHeld v id r) (sym (cleanup-cases m retention limit t u e))
            (record { row = r; there = rw n there; workspace = refl; sequence = refl }))
    ]

-- A row is held still, or it was processed.
Steps-cases :
    {t u : Outbox} (id : String) (r : Row)
    → Steps t u
    → t.row id ≡ some r
    → IsHeld u id r ⊎ WasProcessed t u id r
Steps-cases {t} id r here e = inl (itself-IsHeld t id r e)
Steps-cases id r (onward {t} {u} {v} before step) e = elim (Steps-cases id r before e) [
  | inr was ↦ inr (record {
    at = was.at;
    row = was.row;
    reached = was.reached;
    left = onward was.left step;
    there = was.there;
    workspace = was.workspace;
    sequence = was.sequence;
    processed = was.processed;
  })
  | inl held ↦ elim (Step-cases id held.row step held.there) [
    | inl still ↦ inl (record {
      row = still.row;
      there = still.there;
      workspace = cc (still.workspace, held.workspace);
      sequence = cc (still.sequence, held.sequence);
    })
    | inr processed ↦ inr (record {
      at = u;
      row = held.row;
      reached = before;
      left = onward here step;
      there = held.there;
      workspace = held.workspace;
      sequence = held.sequence;
      processed = processed;
    })
  ]
]

-- The order of a table, and what it says of the rows that an earlier table held.
pub record IsServed (u v : Outbox) : Type 0 where
  pub order : IsOrdered v
  pub earlier :
      (id later : String) (r s : Row)
      → u.row id ≡ some r
      → v.row later ≡ some s
      → r.workspace_id ≡ s.workspace_id
      → r.sequence < s.sequence
      → is_touched s ≡ true
      → WasProcessed u v id r

-- From a table in order, through any statements of any workers, with claims that expire, rows that
-- fail or are released and rows that are cleaned up: where a row is claimed or processed, every row of its
-- workspace with a smaller sequence that any table before held was processed in between, also if a
-- cleanup has deleted it since; and the keys and the sequences allotted go as far as the rows.
pub Steps-IsServed : {t u v : Outbox} → Steps t u → Steps u v → IsOrdered t → IsServed u v
Steps-IsServed {t} {u} {v} before after h =
    let order = Steps-IsOrdered after (Steps-IsOrdered before h) in
    record {
      order = order;
      earlier = λ id later r s e e' same lt touched. elim (Steps-cases id r after e) [
        | inr was ↦ was
        | inl held ↦ record {
          at = v;
          row = held.row;
          reached = after;
          left = here;
          there = held.there;
          workspace = held.workspace;
          sequence = held.sequence;
          processed =
              order.ordered id later held.row s held.there e' (cc (held.workspace, same))
                (let seq = held.sequence in omega arith) touched;
        }
      ];
    }
