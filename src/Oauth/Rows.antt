-- ===== src/Oauth/Rows.antt =====
-- Looking a token up while the rows are rewritten and new ones are added.
use skillplane.Common.{
  String, ◌≡◌, some, true, false, List, [], ◌∷◌, ◌++◌, map, All, ◌⊎◌, inl, inr, arith, str_eq,
  subst, Bool-cases, is_some, Date,
}
use skillplane.Oauth.{
  Database, RefreshRow, AccessRow, find_refresh, revoke_refresh_row, revoke_access_row,
  revoke_family,
}

pub find_refresh-map :
    (g : RefreshRow → RefreshRow)
    → ((r : RefreshRow) → (g r).token_hash ≡ r.token_hash)
    → (h : String) (rows : List RefreshRow) (r : RefreshRow) → find_refresh h rows ≡ some r
    → find_refresh h (map g rows) ≡ some (g r)
unfolding find_refresh
find_refresh-map g keep h [] r e = cc
find_refresh-map g keep h (x ∷ rows) r e = ground (arith, keep x, find_refresh-map g keep h rows r)

pub find_refresh-append :
    (h : String) (rows more : List RefreshRow) (r : RefreshRow)
    → find_refresh h rows ≡ some r
    → find_refresh h (rows ++ more) ≡ some r
unfolding find_refresh
find_refresh-append h [] more r e = cc
find_refresh-append h (x ∷ rows) more r e = ground (arith, find_refresh-append h rows more r)

pub find_refresh-All :
    (P : RefreshRow → Type 0) (h : String) (rows : List RefreshRow) (r : RefreshRow)
    → All P rows
    → find_refresh h rows ≡ some r
    → P r
unfolding find_refresh
find_refresh-All P h [] r a e = cc
find_refresh-All P h (x ∷ rows) r (p, a) e = elim (Bool-cases (str_eq x.token_hash h)) [
  | inl same ↦ let q : x ≡ r = ground arith in subst P q p
  | inr other ↦ find_refresh-All P h rows r a (ground arith)
]

pub map-All :
    {A : Type 0} (P : A → Type 0) (g : A → A)
    → ((x : A) → P x → P (g x))
    → (xs : List A) → All P xs
    → All P (map g xs)
map-All P g keep [] a = tt
map-All P g keep (x ∷ xs) (p, a) = (keep x p, map-All P g keep xs a)

pub append-All :
    {A : Type 0} (P : A → Type 0) (xs : List A) (y : A) → All P xs → P y → All P (xs ++ y ∷ [])
append-All P [] y a p = (p, tt)
append-All P (x ∷ xs) y (q, a) p = (q, append-All P xs y a p)

-- A row of the family is revoked.
abbrev pub IsDeadRow : String → RefreshRow → Type 0
IsDeadRow family r = (str_eq r.family_id family ≡ false) ⊎ (is_some r.revoked_at ≡ true)

abbrev pub IsDeadAccess : String → AccessRow → Type 0
IsDeadAccess family r = (str_eq r.family_id family ≡ false) ⊎ (is_some r.revoked_at ≡ true)

-- Every token of the family is revoked.
pub record IsDead (family : String) (db : Database) : Type 0 where
  pub refresh : All (IsDeadRow family) db.refresh
  pub access : All (IsDeadAccess family) db.access

refresh_dead :
    (family : String) (now : Date) (rows : List RefreshRow)
    → All (IsDeadRow family) (map (revoke_refresh_row family now) rows)
refresh_dead family now [] = tt
refresh_dead family now (r ∷ rows) = (ground arith, refresh_dead family now rows)

access_dead :
    (family : String) (now : Date) (rows : List AccessRow)
    → All (IsDeadAccess family) (map (revoke_access_row family now) rows)
access_dead family now [] = tt
access_dead family now (r ∷ rows) = (ground arith, access_dead family now rows)

pub revoke_family-IsDead :
    (family : String) (now : Date) (db : Database) → IsDead family (revoke_family family now db)
unfolding revoke_family
revoke_family-IsDead family now db = record {
  refresh = refresh_dead family now db.refresh;
  access = access_dead family now db.access;
}

-- Revoking a family brings no other back.
pub revoke_family-keeps_IsDead :
    (family other : String) (now : Date) (db : Database)
    → IsDead family db
    → IsDead family (revoke_family other now db)
unfolding revoke_family
revoke_family-keeps_IsDead family other now db d = record {
  refresh =
      map-All (IsDeadRow family) (revoke_refresh_row other now) (λ r h. ground arith) db.refresh
        d.refresh;
  access =
      map-All (IsDeadAccess family) (revoke_access_row other now) (λ r h. ground arith) db.access
        d.access;
}
