-- ===== src/Oauth/Refresh/Family.antt =====
-- The tokens of a family after one of them came back.
use skillplane.Common.{
  String, ◌≡◌, sym, refl, none, some, true, false, map, All, inl, inr, arith, eq_iff, str_eq, subst,
  Bool-cases, Option-cases, is_some, err,
}
use skillplane.Oauth.{Database, RefreshRow, Runtime, grant_error, find_refresh, find_access}
use skillplane.Oauth.Rows.{
  find_refresh-All, map-All, append-All, IsDeadRow, IsDeadAccess, IsDead, revoke_family-IsDead,
  revoke_family-keeps_IsDead,
}
use skillplane.Oauth.Revocation.{Revocation, revoke_token}
use skillplane.Oauth.Refresh.{
  Exchange, rejection, consume_row, detect_reuse, audited, rotate, refresh_transaction,
}
use skillplane.Oauth.Refresh.Rotation.{Rotated, rotate-cases}

-- A token that no test refuses is not revoked.
accepted_not_revoked :
    (runtime : Runtime) (x : Exchange) (token : RefreshRow)
    → rejection runtime x token ≡ none
    → is_some token.revoked_at ≡ false
unfolding rejection
accepted_not_revoked runtime x token e = ground arith

Rotated-IsDead :
    (family : String) (runtime : Runtime) (x : Exchange) (token : RefreshRow) (db db' : Database)
    → IsDeadRow family token
    → Rotated runtime x token db db'
    → IsDead family db
    → IsDead family db'
Rotated-IsDead family runtime x token db db' dead r d =
    let alive = accepted_not_revoked runtime x token r.accepted in
    let other : str_eq token.family_id family ≡ false = ground arith in
    record {
      refresh = subst (All (IsDeadRow family)) (sym r.refresh) (
          append-All (IsDeadRow family) (map (consume_row token.id x.written_at) db.refresh) _
            (map-All (IsDeadRow family) (consume_row token.id x.written_at) (λ row h. ground arith)
              db.refresh d.refresh)
            (inl other));
      access =
          subst (All (IsDeadAccess family)) (sym r.access)
            (append-All (IsDeadAccess family) db.access _ d.access (inl other));
    }

rotate-keeps_IsDead :
    (family : String) (runtime : Runtime) (x : Exchange) (token : RefreshRow) (db : Database)
    → IsDeadRow family token
    → IsDead family db
    → IsDead family (rotate runtime x token db).database
rotate-keeps_IsDead family runtime x token db dead d = elim (rotate-cases runtime x token db) [
  | inl (e, _, same) ↦ subst (IsDead family) (sym same) d
  | inr (response, _, r) ↦
      Rotated-IsDead family runtime x token db (rotate runtime x token db).database dead r d
]

pub detect_reuse-IsDead :
    (x : Exchange) (token : RefreshRow) (db : Database)
    → IsDead token.family_id (detect_reuse x token db).database
unfolding detect_reuse audited
detect_reuse-IsDead x token db =
    let d = revoke_family-IsDead token.family_id x.checked_at db in
    record { refresh = d.refresh; access = d.access }

detect_reuse-keeps_IsDead :
    (family : String) (x : Exchange) (token : RefreshRow) (db : Database)
    → IsDead family db
    → IsDead family (detect_reuse x token db).database
unfolding detect_reuse audited
detect_reuse-keeps_IsDead family x token db dead =
    let d = revoke_family-keeps_IsDead family token.family_id x.checked_at db dead in
    record { refresh = d.refresh; access = d.access }

pub refresh_transaction-keeps_IsDead :
    (family : String) (runtime : Runtime) (x : Exchange) (db : Database)
    → IsDead family db
    → IsDead family (refresh_transaction runtime x db).database
unfolding refresh_transaction
refresh_transaction-keeps_IsDead family runtime x db d =
    elim (Option-cases (find_refresh (runtime.keyed_hash x.refresh_token) db.refresh)) [
      | inl e ↦ rw (e, refresh_transaction) d
      | inr (token, e) ↦ elim (Bool-cases (is_some token.consumed_at)) [
        | inl c ↦ rw (e, refresh_transaction, c) (detect_reuse-keeps_IsDead family x token db d)
        | inr c ↦
            rw (e, refresh_transaction, c)
              (rotate-keeps_IsDead family runtime x token db
                (find_refresh-All (IsDeadRow family) (runtime.keyed_hash x.refresh_token) db.refresh
                  token d.refresh e)
                d)
      ]
    ]

pub revoke_token-keeps_IsDead :
    (family : String) (runtime : Runtime) (x : Revocation) (db : Database)
    → IsDead family db
    → IsDead family (revoke_token runtime x db)
unfolding revoke_token
revoke_token-keeps_IsDead family runtime x db d =
    elim (Option-cases (find_refresh (runtime.keyed_hash x.token) db.refresh)) [
      | inr (token, e) ↦ elim (Bool-cases (str_eq token.client_id x.client_id)) [
        | inl c ↦
            let k = revoke_family-keeps_IsDead family token.family_id x.revoked_at db d in
            rw (e, revoke_token, c) (record { refresh = k.refresh; access = k.access })
        | inr c ↦ rw (e, revoke_token, c) d
      ]
      | inl e ↦ elim (Option-cases (find_access (runtime.keyed_hash x.token) db.access)) [
        | inl e2 ↦ rw (e, revoke_token, e2) d
        | inr (token, e2) ↦ elim (Bool-cases (str_eq token.client_id x.client_id)) [
          | inr c ↦ rw (e, revoke_token, e2, c) d
          | inl c ↦
              rw (e, revoke_token, e2, c)
                (record {
                  refresh = d.refresh;
                  access = map-All (IsDeadAccess family) _ (λ r h. ground arith) db.access d.access;
                })
        ]
      ]
    ]

-- No token of a revoked family is exchanged.
pub refresh_transaction-refuses_dead :
    (runtime : Runtime) (x : Exchange) (db : Database) (token : RefreshRow)
    → find_refresh (runtime.keyed_hash x.refresh_token) db.refresh ≡ some token
    → IsDead token.family_id db
    → (refresh_transaction runtime x db).reply ≡ err grant_error
unfolding refresh_transaction detect_reuse rotate rejection
refresh_transaction-refuses_dead runtime x db token e d =
    let dead =
      find_refresh-All (IsDeadRow token.family_id) (runtime.keyed_hash x.refresh_token) db.refresh
        token d.refresh e in
    let revoked : is_some token.revoked_at ≡ true =
      ground (arith, eq_iff token.family_id token.family_id) in
    elim (Bool-cases (is_some token.consumed_at)) [
      | inl c ↦ rw (e, refresh_transaction, c, detect_reuse) refl
      | inr c ↦ rw (e, refresh_transaction, c, rotate, rejection, revoked) refl
    ]
