-- ===== src/ControlPlane/Regional/Fencing.antt =====
-- An event of a superseded epoch: the epochs of the placements against the events of the regions.
use skillplane.Common.{
  ◌<◌, ◌≤◌, String, ◌≡◌, ◌≢◌, refl, subst, some, false, Option-cases, inl, inr, arith, eq_iff, List,
  [], ◌∷◌, ok, err,
}
use skillplane.ControlPlane.Placement.{WorkspacePlacement, Table, get, placement}
use skillplane.ControlPlane.Placement.Laws.{epoch_at, run_op-epoch_at}
use skillplane.ControlPlane.Objects.{fencing_epoch_stale}
use skillplane.ControlPlane.Regional.{
  RegionalEvent, Global, Surroundings, is_active_source, is_quiescing_source, admits,
  apply_projection,
}
use skillplane.ControlPlane.Regional.Steps.{apply_projection-ensures}
use skillplane.ControlPlane.Regional.Happenings.{Happening, projected, placed, happen, happen_all}

apply_projection-placements :
    (x : Surroundings) (e : RegionalEvent) (g : Global)
    → (apply_projection x e g).0.placements ≡ g.placements
apply_projection-placements x e g =
    apply_projection-ensures x e g (λ g'. g'.placements ≡ g.placements) refl (λ r. refl)
      (λ i s same h. refl) (λ i d same h. refl) (λ c same. refl)

module _ (x : Surroundings) (ws : String) where
  happen_all-epoch_at :
      (hs : List Happening) (g : Global)
      → epoch_at g.placements ws ≤ epoch_at (happen_all x hs g).placements ws
  unfolding happen_all
  happen_all-epoch_at [] g = omega arith
  happen_all-epoch_at (placed o ∷ hs) g =
      omega
        (arith, run_op-epoch_at ws o g.placements, happen_all-epoch_at hs (happen x (placed o) g))
  happen_all-epoch_at (projected e source now ∷ hs) g =
      let h = projected e source now in
      subst (λ t. epoch_at t ws ≤ epoch_at (happen_all x hs (happen x h g)).placements ws)
        (apply_projection-placements (record x { regional_store = source; now = now }) e g)
        (happen_all-epoch_at hs (happen x h g))

get-epoch_at :
    (t : Table) (ws : String) (p : WorkspacePlacement)
    → get t ws ≡ ok (some p)
    → p.epoch ≡ epoch_at t ws
unfolding get placement
get-epoch_at t ws p h = elim (Option-cases (t ws)) [
  | inl n ↦ absurd (ground (arith, h, n))
  | inr (row, n) ↦ ground (arith, h, n)
]

superseded-admits :
    (p : WorkspacePlacement) (e : RegionalEvent)
    → e.fencing_epoch < p.epoch
    → p.state ≢ "moving"
    → admits (some p) e ≡ false
unfolding is_active_source is_quiescing_source
superseded-admits p e lt still = ground (arith, eq_iff p.state "moving")

-- Once a workspace has a placement at a later epoch than the epoch of an event, then, after any
-- events and any writes of placements, the event throws fencing_epoch_stale and changes nothing,
-- unless the workspace is moving at that moment.
pub apply_projection-superseded :
    (x : Surroundings) (hs : List Happening) (g : Global) (e : RegionalEvent)
    (p : WorkspacePlacement)
    → e.fencing_epoch < epoch_at g.placements e.workspace_id
    → get (happen_all x hs g).placements e.workspace_id ≡ ok (some p)
    → p.state ≢ "moving"
    → apply_projection x e (happen_all x hs g) ≡ (happen_all x hs g, err fencing_epoch_stale)
unfolding apply_projection
apply_projection-superseded x hs g e p lt there still =
    let later = happen_all-epoch_at x e.workspace_id hs g in
    let now = get-epoch_at (happen_all x hs g).placements e.workspace_id p there in
    let no = superseded-admits p e (omega arith) still in rw (apply_projection, there, no) refl
