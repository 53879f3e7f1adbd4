-- ===== src/ControlPlane/Regional/Steps.antt =====
-- The steps that an event may take through the global tables, as a rule for what holds after it.
use skillplane.Common.{
  String, ◌≡◌, refl, Option, none, some, Bool-cases, Result-cases, inl, inr, eq_iff, str_eq, Result,
  ok, err,
}
use skillplane.Common.Int.{pos}
use skillplane.ControlPlane.Placement.{get}
use skillplane.ControlPlane.Publication.{Directory, Unpublish, unpublish}
use skillplane.ControlPlane.Objects.{Failure, Exposed, Copy, publish_global_projection}
use skillplane.ControlPlane.Resources.{Routes}
use skillplane.ControlPlane.Stats.{
  StatsInput, StatsState, agent_skill_used, skill_count_changed, apply_checkpoint,
}
use skillplane.ControlPlane.Regional.{
  RegionalEvent, RegionalEventType, skill_published, skill_unpublished, stats_used,
  stats_count_changed, route_upsert, Global, Surroundings, admits, apply_projection, apply_admitted,
  publish_input, stats_input, apply_routes, apply_used, apply_count, apply_stats, apply_unpublished,
  apply_published, is_slug, answered,
}
use skillplane.ControlPlane.Regional.Payloads.{
  PublishedPayload, UnpublishedPayload, StatsPayload, SkillCountPayload, RoutePayload,
  published_payload, unpublished_payload, stats_payload, skill_count_payload, route_payload,
}

module _ (x : Surroundings) (e : RegionalEvent) (g : Global) (P : Global → Type 0) (here : P g)
    (routed : (r : Routes) → P (record g { routes = r }))
    (counted : (i : StatsInput) (s : StatsState)
      → i.workspace_id ≡ e.workspace_id
      → apply_checkpoint x.now i g.stats ≡ ok s
      → P (record g { stats = s }))
    (withdrawn : (i : Unpublish) (d : Directory)
      → i.workspace_id ≡ e.workspace_id
      → unpublish x.now i g.exposed.directory ≡ ok d
      → P (record g { exposed = record (g.exposed) { directory = d } }))
    (copied : (c : Copy)
      → c.input.workspace_id ≡ e.workspace_id
      → P (record g {
        exposed =
            (publish_global_projection x.platform.sha256 x.now x.regional_store c g.exposed).0;
      })) where
  routes-ensures : (o : Option RoutePayload) → P (apply_routes x e g o).0
  routes-ensures none = here
  routes-ensures (some p) = elim (Bool-cases (str_eq p.workspace_id e.workspace_id)) [
    | inr n ↦ rw n here
    | inl y ↦ elim (Bool-cases x.has_resource_directory) [
      | inr n ↦ rw (y, n) here
      | inl h ↦ rw (y, h) (routed _)
    ]
  ]

  stats-ensures :
      (ws : String) (i : StatsInput) → i.workspace_id ≡ ws → P (apply_stats x e ws i g).0
  stats-ensures ws i same = elim (Bool-cases (str_eq ws e.workspace_id)) [
    | inr n ↦ rw n here
    | inl y ↦ elim (Bool-cases x.has_public_stats) [
      | inr n ↦ rw (y, n) here
      | inl h ↦ elim (Result-cases (apply_checkpoint x.now i g.stats)) [
        | inr (f, r) ↦ rw (y, h, r) here
        | inl (s, r) ↦ rw (y, h, r) (counted i s (cc (same, (eq_iff ws e.workspace_id).0 y)) r)
      ]
    ]
  ]

  used-ensures : (o : Option StatsPayload) → P (apply_used x e g o).0
  used-ensures none = here
  used-ensures (some p) =
      stats-ensures p.workspace_id (stats_input e p.workspace_id agent_skill_used p.count (pos 0))
        refl

  count-ensures : (o : Option SkillCountPayload) → P (apply_count x e g o).0
  count-ensures none = here
  count-ensures (some p) =
      stats-ensures p.workspace_id (stats_input e p.workspace_id skill_count_changed 0 p.delta) refl

  unpublished-ensures : (o : Option UnpublishedPayload) → P (apply_unpublished x e g o).0
  unpublished-ensures none = here
  unpublished-ensures (some p) = elim (Bool-cases (str_eq p.workspace_id e.workspace_id)) [
    | inr n ↦ rw n here
    | inl y ↦
        let i : Unpublish = record {
          workspace_id = p.workspace_id;
          skill_id = p.skill_id;
          version_id = p.version_id;
          sequence = e.sequence;
        } in
        elim (Result-cases (unpublish x.now i g.exposed.directory)) [
          | inr (f, r) ↦ rw (y, r) here
          | inl (d, r) ↦ rw (y, r) (withdrawn i d ((eq_iff p.workspace_id e.workspace_id).0 y) r)
        ]
  ]

  answered-ensures :
      (r : Exposed × Result Failure String) → P (record g { exposed = r.0 }) → P (answered g r).0
  answered-ensures (s, ok key) h = h
  answered-ensures (s, err f) h = h

  published-ensures : (o : Option PublishedPayload) → P (apply_published x e g o).0
  published-ensures none = here
  published-ensures (some p) = elim (Bool-cases (str_eq p.workspace_id e.workspace_id)) [
    | inr n ↦ rw n here
    | inl y ↦ elim (Bool-cases (is_slug (g.exposed.directory.workspaces p.workspace_id))) [
      | inr n ↦ rw (y, n) here
      | inl s ↦
          rw (y, s)
            (answered-ensures _ (
              copied (record { source_key = p.source_object_key; input = publish_input x e p })
                ((eq_iff p.workspace_id e.workspace_id).0 y)))
    ]
  ]

  admitted-ensures : (type : RegionalEventType) → P (apply_admitted x e type g).0
  admitted-ensures route_upsert = routes-ensures (route_payload e.payload)
  admitted-ensures stats_used = used-ensures (stats_payload e.payload)
  admitted-ensures stats_count_changed = count-ensures (skill_count_payload e.payload)
  admitted-ensures skill_unpublished = unpublished-ensures (unpublished_payload e.payload)
  admitted-ensures skill_published = published-ensures (published_payload x.platform e.payload)

  -- What holds before an event, and after each step that it may take, holds after the event.
  pub apply_projection-ensures : P (apply_projection x e g).0
  unfolding apply_projection
  apply_projection-ensures = elim (Result-cases (get g.placements e.workspace_id)) [
    | inr (f, r) ↦ rw (apply_projection, r) here
    | inl (p, r) ↦ elim (Bool-cases (admits p e)) [
      | inr n ↦ rw (apply_projection, r, n) here
      | inl y ↦ rw (apply_projection, r, y) (admitted-ensures e.event_type)
    ]
  ]
