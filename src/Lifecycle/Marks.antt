-- ===== src/Lifecycle/Marks.antt =====
-- The marks of versions in a lifecycle table, and what a call may do to the two tables.
use skillplane.Common.{
  ◌⊎◌, String, ◌≡◌, refl, Option, none, some, Bool, true, false, str_eq, eq_iff, is_some, arith,
  Bool-cases, inl, inr, Date,
}
use skillplane.Idempotency.{IdempotencyIdentity}
use skillplane.Lifecycle.{
  LifecycleState, deprecated, revoked, LifecycleRow, LifecycleTable, Region, Change, upsert,
  merged_row, give_up,
}

-- Whether a row says that the version has come to a state.
unfoldable pub is_marked : LifecycleState → Option LifecycleRow → Bool
is_marked state none = false
is_marked deprecated (some row) = is_some row.deprecated_at
is_marked revoked (some row) = is_some row.revoked_at

-- What the region says of a version, the control plane says too.
abbrev pub IsFailClosed : Region → Type 0
IsFailClosed s =
    (state : LifecycleState) (v : String)
    → is_marked state (s.regional v) ≡ true
    → is_marked state (s.public v) ≡ true

-- The second state keeps the marks of the first, in both tables.
abbrev pub KeepsMarks : Region → Region → Type 0
KeepsMarks s t =
    (state : LifecycleState) (v : String)
    → (is_marked state (s.public v) ≡ true → is_marked state (t.public v) ≡ true)
      × (is_marked state (s.regional v) ≡ true → is_marked state (t.regional v) ≡ true)

merged_row-is_marked :
    (ws : String) (state other : LifecycleState) (reason : String) (now : Date)
    (row : Option LifecycleRow)
    → is_marked other row ≡ true
    → is_marked other (some (merged_row ws state reason now row)) ≡ true
unfolding is_marked
merged_row-is_marked ws state other reason now none h = absurd (cc)
merged_row-is_marked ws deprecated deprecated reason now (some row) h = ground arith
merged_row-is_marked ws deprecated revoked reason now (some row) h = ground arith
merged_row-is_marked ws revoked deprecated reason now (some row) h = ground arith
merged_row-is_marked ws revoked revoked reason now (some row) h = ground arith

pub merged_row-marks :
    (ws : String) (state : LifecycleState) (reason : String) (now : Date)
    (row : Option LifecycleRow)
    → is_marked state (some (merged_row ws state reason now row)) ≡ true
unfolding is_marked
merged_row-marks ws deprecated reason now none = refl
merged_row-marks ws revoked reason now none = refl
merged_row-marks ws deprecated reason now (some row) = ground arith
merged_row-marks ws revoked reason now (some row) = ground arith

merged_row-IsMarked :
    (ws : String) (state other : LifecycleState) (reason : String) (now : Date)
    (row : Option LifecycleRow)
    → is_marked other (some (merged_row ws state reason now row)) ≡ true
    → (is_marked other row ≡ true) ⊎ (other ≡ state)
unfolding is_marked
merged_row-IsMarked ws deprecated deprecated reason now row h = inr refl
merged_row-IsMarked ws revoked revoked reason now row h = inr refl
merged_row-IsMarked ws deprecated revoked reason now none h = absurd (cc)
merged_row-IsMarked ws revoked deprecated reason now none h = absurd (cc)
merged_row-IsMarked ws deprecated revoked reason now (some row) h = inl (ground arith)
merged_row-IsMarked ws revoked deprecated reason now (some row) h = inl (ground arith)

module _ (version ws : String) (state : LifecycleState) (reason : String) (now : Date) where
  abbrev mark : LifecycleTable → LifecycleTable
  mark = upsert version ws state reason now

  upsert-keeps :
      (t : LifecycleTable) (other : LifecycleState) (v : String)
      → is_marked other (t v) ≡ true
      → is_marked other (mark t v) ≡ true
  unfolding upsert
  upsert-keeps t other v h =
      ground (arith, eq_iff version v, merged_row-is_marked ws state other reason now (t version))

  -- A mark that is made in both tables.
  upsert-closed :
      (p r : LifecycleTable)
      → ((other : LifecycleState) (v : String)
          → is_marked other (r v) ≡ true
          → is_marked other (p v) ≡ true)
      → (other : LifecycleState) (v : String) → is_marked other (mark r v) ≡ true
      → is_marked other (mark p v) ≡ true
  unfolding upsert
  upsert-closed p r h other v k = elim (Bool-cases (str_eq version v)) [
    | inr e ↦ rw e (h other v (rw e at k))
    | inl e ↦
        let kept : is_marked other (some (merged_row ws state reason now (r version))) ≡ true =
          rw e at k in
        rw e (elim (merged_row-IsMarked ws state other reason now (r version) kept) [
          | inl old ↦
              merged_row-is_marked ws state other reason now (p version) (h other version old)
          | inr same ↦ rw same (merged_row-marks ws state reason now (p version))
        ])
  ]

pub give_up-public :
    (x : Change) (i : IdempotencyIdentity) (s : Region) → (give_up x i s).public ≡ s.public
unfolding give_up
give_up-public x i s = ground arith

pub give_up-regional :
    (x : Change) (i : IdempotencyIdentity) (s : Region) → (give_up x i s).regional ≡ s.regional
unfolding give_up
give_up-regional x i s = ground arith

-- What a call may do to the two tables.
pub data Moves (version ws reason : String) (state : LifecycleState) (now : Date) (s t : Region)
    : Type 0 where
  stays : t.public ≡ s.public → t.regional ≡ s.regional → Moves version ws reason state now s t
  marks_public :
      t.public ≡ upsert version ws state reason now s.public
      → t.regional ≡ s.regional
      → Moves version ws reason state now s t
  marks_both :
      t.public ≡ upsert version ws state reason now s.public
      → t.regional ≡ upsert version ws state reason now s.regional
      → Moves version ws reason state now s t

module _ (version ws reason : String) (state : LifecycleState) (now : Date) {s t : Region} where
  pub Moves-IsFailClosed : Moves version ws reason state now s t → IsFailClosed s → IsFailClosed t
  Moves-IsFailClosed (stays p r) h other v = rw (p, r) (h other v)
  Moves-IsFailClosed (marks_public p r) h other v =
      rw (p, r) (λ k. upsert-keeps version ws state reason now s.public other v (h other v k))
  Moves-IsFailClosed (marks_both p r) h other v =
      rw (p, r) (upsert-closed version ws state reason now s.public s.regional h other v)

  pub Moves-KeepsMarks : Moves version ws reason state now s t → KeepsMarks s t
  Moves-KeepsMarks (stays p r) other v = rw (p, r) (λ k. k, λ k. k)
  Moves-KeepsMarks (marks_public p r) other v =
      rw (p, r) (upsert-keeps version ws state reason now s.public other v, λ k. k)
  Moves-KeepsMarks (marks_both p r) other v =
      rw (p, r)
        (
          upsert-keeps version ws state reason now s.public other v,
          upsert-keeps version ws state reason now s.regional other v,
        )
