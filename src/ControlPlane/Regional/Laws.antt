-- ===== src/ControlPlane/Regional/Laws.antt =====
-- What an event of a region may change, and when.
use skillplane.Common.{
  String, ◌≡◌, refl, subst, none, some, true, false, Bool-cases, Option-cases, Result-cases, ◌⊎◌,
  inl, inr, arith, eq_iff, str_eq, ok, err, Date,
}
use skillplane.ControlPlane.Placement.{WorkspacePlacement, Migration, get}
use skillplane.ControlPlane.Publication.{Directory, Publish, Unpublish, accepts, publish, unpublish}
use skillplane.ControlPlane.Objects.{
  Failure, placement_failed, fencing_epoch_stale, Exposed, Copy, Store, Bytes,
  publish_global_projection,
}
use skillplane.ControlPlane.Objects.Laws.{publish_global_projection-ensures}
use skillplane.ControlPlane.Regional.Steps.{apply_projection-ensures}
use skillplane.ControlPlane.Stats.{StatsInput, StatsState, apply_checkpoint}
use skillplane.ControlPlane.Regional.{
  RegionalEvent, Global, Surroundings, is_active_source, is_quiescing_source, admits,
  apply_projection,
}

-- The placement of the workspace admits an event: it is active in the region and at the epoch of
-- the event, or it is moving away from them.
pub record IsAdmitted (g : Global) (e : RegionalEvent) : Type 0 where
  pub placement : WorkspacePlacement
  pub found : get g.placements e.workspace_id ≡ ok (some placement)
  pub source :
      ((placement.state ≡ "active")
        × (placement.region_id ≡ e.region_id)
        × (placement.epoch ≡ e.fencing_epoch))
      ⊎ ((m : Migration) × (placement.state ≡ "moving")
          × (placement.migration ≡ some m)
          × (m.source_region_id ≡ some e.region_id)
          × (m.source_epoch ≡ some e.fencing_epoch))

admits-source :
    (p : WorkspacePlacement) (e : RegionalEvent)
    → admits (some p) e ≡ true
    → ((p.state ≡ "active") × (p.region_id ≡ e.region_id) × (p.epoch ≡ e.fencing_epoch))
      ⊎ ((m : Migration) × (p.state ≡ "moving")
          × (p.migration ≡ some m)
          × (m.source_region_id ≡ some e.region_id)
          × (m.source_epoch ≡ some e.fencing_epoch))
unfolding is_active_source is_quiescing_source
admits-source p e h = elim (Bool-cases (is_active_source p e)) [
  | inl a ↦ inl (
    (eq_iff p.state "active").0 (ground (arith, a)),
    (eq_iff p.region_id e.region_id).0 (ground (arith, a)),
    ground (arith, a),
  )
  | inr a ↦
      let moving : str_eq p.state "moving" ≡ true = ground (arith, a, h) in
      elim (Option-cases p.migration) [
        | inl n ↦ absurd (ground (arith, a, h, n))
        | inr (m, n) ↦ elim (Option-cases m.source_region_id) [
          | inl r ↦ absurd (ground (arith, a, h, n, r))
          | inr (region, r) ↦
              let same : region ≡ e.region_id =
                (eq_iff region e.region_id).0 (ground (arith, a, h, n, r)) in
              inr (
                m,
                (eq_iff p.state "moving").0 moving,
                n,
                subst (λ t. m.source_region_id ≡ some t) same r,
                ground (arith, a, h, n, r),
              )
        ]
      ]
]

-- The rows of a workspace are the same.
pub record IsSameFor (ws : String) (g g' : Global) : Type 0 where
  pub placement : g'.placements ws ≡ g.placements ws
  pub heads :
      (skill : String) → g'.exposed.directory.heads ws skill ≡ g.exposed.directory.heads ws skill
  pub projections :
      (skill v : String)
      → g'.exposed.directory.projections ws skill v ≡ g.exposed.directory.projections ws skill v
  pub checkpoint : g'.stats.checkpoints ws ≡ g.stats.checkpoints ws
  pub counters : g'.stats.counters ws ≡ g.stats.counters ws

IsSameFor-refl : (ws : String) (g : Global) → IsSameFor ws g g
IsSameFor-refl ws g = record {
  placement = refl;
  heads = λ skill. refl;
  projections = λ skill v. refl;
  checkpoint = refl;
  counters = refl;
}

publish-other :
    (now : Date) (i : Publish) (d d' : Directory) (ws : String)
    → publish now i d ≡ ok d'
    → str_eq i.workspace_id ws ≡ false
    → ((skill : String) → d'.heads ws skill ≡ d.heads ws skill)
      × ((skill v : String) → d'.projections ws skill v ≡ d.projections ws skill v)
unfolding publish accepts
publish-other now i d d' ws h n = (λ skill. ground (arith, h, n), λ skill v. ground (arith, h, n))

unpublish-other :
    (now : Date) (i : Unpublish) (d d' : Directory) (ws : String)
    → unpublish now i d ≡ ok d'
    → str_eq i.workspace_id ws ≡ false
    → ((skill : String) → d'.heads ws skill ≡ d.heads ws skill)
      × ((skill v : String) → d'.projections ws skill v ≡ d.projections ws skill v)
unfolding unpublish accepts
unpublish-other now i d d' ws h n = (λ skill. ground (arith, h, n), λ skill v. ground (arith, h, n))

apply_checkpoint-other :
    (now : Date) (i : StatsInput) (s s' : StatsState) (ws : String)
    → apply_checkpoint now i s ≡ ok s'
    → str_eq i.workspace_id ws ≡ false
    → (s'.checkpoints ws ≡ s.checkpoints ws) × (s'.counters ws ≡ s.counters ws)
unfolding apply_checkpoint
apply_checkpoint-other now i s s' ws h n = ground (arith, h, n)

-- A copy changes the rows of its own workspace only.
copy-other :
    (sha256 : Bytes → String) (now : Date) (source : Store) (x : Copy) (s : Exposed) (ws : String)
    → str_eq x.input.workspace_id ws ≡ false
    → ((skill : String)
        → (publish_global_projection sha256 now source x s).0.directory.heads ws skill
          ≡ s.directory.heads ws skill)
      × ((skill v : String)
          → (publish_global_projection sha256 now source x s).0.directory.projections ws skill v
            ≡ s.directory.projections ws skill v)
copy-other sha256 now source x s ws n =
    publish_global_projection-ensures sha256 now x
      (λ s'.
        ((skill : String) → s'.directory.heads ws skill ≡ s.directory.heads ws skill)
        × ((skill v : String)
            → s'.directory.projections ws skill v ≡ s.directory.projections ws skill v))
      source s (λ skill. refl, λ skill v. refl) (λ key b. (λ skill. refl, λ skill v. refl))
      (λ key b d p h.
        publish-other now (record (x.input) { object_key = key }) s.directory d ws p n)

apply_projection-IsSameFor :
    (x : Surroundings) (e : RegionalEvent) (g : Global) (ws : String)
    → str_eq e.workspace_id ws ≡ false
    → IsSameFor ws g (apply_projection x e g).0
apply_projection-IsSameFor x e g ws n =
    apply_projection-ensures x e g (IsSameFor ws g) (IsSameFor-refl ws g)
      (λ r. record {
        placement = refl;
        heads = λ skill. refl;
        projections = λ skill v. refl;
        checkpoint = refl;
        counters = refl;
      })
      (λ i s same h.
        let kept = apply_checkpoint-other x.now i g.stats s ws h (cc (same, n)) in
        record {
          placement = refl;
          heads = λ skill. refl;
          projections = λ skill v. refl;
          checkpoint = kept.0;
          counters = kept.1;
        })
      (λ i d same h.
        let kept = unpublish-other x.now i g.exposed.directory d ws h (cc (same, n)) in
        record {
          placement = refl;
          heads = kept.0;
          projections = kept.1;
          checkpoint = refl;
          counters = refl;
        })
      (λ c same.
        let kept =
          copy-other x.platform.sha256 x.now x.regional_store c g.exposed ws (cc (same, n)) in
        record {
          placement = refl;
          heads = kept.0;
          projections = kept.1;
          checkpoint = refl;
          counters = refl;
        })

apply_projection-IsAdmitted :
    (x : Surroundings) (e : RegionalEvent) (g : Global)
    → IsAdmitted g e ⊎ ((f : Failure) × (apply_projection x e g ≡ (g, err f)))
unfolding apply_projection
apply_projection-IsAdmitted x e g = elim (Result-cases (get g.placements e.workspace_id)) [
  | inr (f, r) ↦ inr (placement_failed, rw (apply_projection, r) refl)
  | inl (none, r) ↦ inr (fencing_epoch_stale, rw (apply_projection, r) refl)
  | inl (some p, r) ↦ elim (Bool-cases (admits (some p) e)) [
    | inr n ↦ inr (fencing_epoch_stale, rw (apply_projection, r, n) refl)
    | inl y ↦ inl (record { placement = p; found = r; source = admits-source p e y })
  ]
]

-- An event either finds a placement of its workspace that is active in the region and at the epoch
-- of the event, or that moves away from them, or it throws and changes nothing at all; and in
-- either case no placement, and no projection, head, checkpoint or counter of another workspace
-- changes.
pub apply_projection-IsConfined :
    (x : Surroundings) (e : RegionalEvent) (g : Global)
    → (IsAdmitted g e ⊎ ((f : Failure) × (apply_projection x e g ≡ (g, err f))))
      × ((ws : String)
          → str_eq e.workspace_id ws ≡ false
          → IsSameFor ws g (apply_projection x e g).0)
apply_projection-IsConfined x e g =
    (apply_projection-IsAdmitted x e g, apply_projection-IsSameFor x e g)
