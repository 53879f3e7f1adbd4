-- ===== src/ControlPlane/Regional/Tests.antt =====
-- A skill that a region publishes, and the same event after the workspace has moved.
use skillplane.Common.{
  ℕ, String, ◌≡◌, refl, eq_iff, str_eq, ◌⊎◌, none, some, true, false, List, [], ◌∷◌, arith, ok, err,
}
use skillplane.Common.Text.{js_length}
use skillplane.Common.Json.{str, obj, end, prop}
use skillplane.ControlPlane.Placement.{WorkspacePlacement, write, get, placement}
use skillplane.ControlPlane.Placement.Laws.{swap}
use skillplane.ControlPlane.Publication.{is_taken, publish, accepts}
use skillplane.ControlPlane.Objects.{
  Failure, fencing_epoch_stale, read, put_if_absent, is_safe, is_hex_digest, published_bundle_key,
  publish_global_projection,
}
use skillplane.ControlPlane.Objects.Laws.{IsVerified}
use skillplane.ControlPlane.Regional.{
  RegionalEvent, skill_published, Global, Surroundings, apply_projection, is_active_source,
  is_quiescing_source,
}
use skillplane.ControlPlane.Regional.Payloads.{published_payload, source_published_at}
use skillplane.ControlPlane.Regional.Laws.{IsAdmitted, IsSameFor, apply_projection-IsConfined}
use skillplane.ControlPlane.Regional.Happenings.{
  Happening, projected, placed, happen_all, happen_all-IsVerified,
}
use skillplane.ControlPlane.Regional.Fencing.{apply_projection-superseded}

abbrev digest : String
digest = "sha256:00000000000000000000000000000000000000000000000000000000000000ab"

abbrev surroundings : Surroundings
surroundings = record {
  platform = record {
    sha256 = λ bytes. digest;
    is_datetime = λ s. true;
    instant = λ s. some 7;
    json_text = λ fs. "{}";
  };
  has_resource_directory = true;
  has_public_stats = true;
  regional_store = λ key. some (1 ∷ 2 ∷ []);
  now = 9;
}

abbrev place : String → ℕ → WorkspacePlacement
place region epoch = record {
  namespace = "w";
  region_id = region;
  epoch = epoch;
  state = "active";
  updated_at = 1;
  cache_expires_at = none;
  destination_ref = none;
  moving_to_region_id = none;
  previous_region_id = none;
  migration = none;
}

abbrev global : Global
global = record {
  placements = write (λ ws. none) "w" (place "eu" 1);
  routes = λ t id. none;
  stats = record { events = []; checkpoints = λ ws. none; counters = λ ws. none };
  exposed = record {
    store = λ key. none;
    directory = record {
      workspaces = λ ws. some "team";
      heads = λ ws s. none;
      projections = λ ws s v. none;
      keys = [];
      withdrawn = λ v. none;
    };
  };
}

abbrev event : RegionalEvent
event = record {
  id = "e";
  region_id = "eu";
  event_type = skill_published;
  workspace_id = "w";
  fencing_epoch = 1;
  sequence = 3;
  payload = obj (
      prop "workspaceId" (str "w") (
        prop "skillId" (str "s") (
          prop "skillSlug" (str "skill") (
            prop "versionId" (str "v") (
              prop "currentVersionId" (str "v") (
                prop "semanticVersion" (str "1.0.0") (
                  prop "sourceObjectKey" (str "bundle") (
                    prop "digest" (str digest)
                      (prop "searchText" (str "") (prop "document" (obj end) end))))))))));
}

abbrev key : String
key =
    "public/workspaces/w/skills/s/versions/v/sha256/00000000000000000000000000000000000000000000000000000000000000ab.zip"

published_test : (apply_projection surroundings event global).1 ≡ ok (some key)
unfolding apply_projection published_payload source_published_at publish_global_projection read
    put_if_absent published_bundle_key is_safe is_hex_digest publish accepts get placement
    is_active_source is_quiescing_source js_length is_taken
published_test = refl

apply_projection-IsConfined_example :
    (IsAdmitted global event
      ⊎ ((f : Failure) × (apply_projection surroundings event global ≡ (global, err f))))
    × ((ws : String)
        → str_eq "w" ws ≡ false
        → IsSameFor ws global (apply_projection surroundings event global).0)
apply_projection-IsConfined_example = apply_projection-IsConfined surroundings event global

abbrev happenings : List Happening
happenings =
    projected event surroundings.regional_store 9
    ∷ placed (
        swap (record {
          namespace = "w";
          expected_epoch = 1;
          expected_state = none;
          next = place "us" 2;
        }))
    ∷ []

happen_all-IsVerified_example :
    IsVerified (λ bytes. digest) (happen_all surroundings happenings global).exposed
happen_all-IsVerified_example =
    happen_all-IsVerified surroundings happenings global
      (λ ws skill v p e. absurd (ground (arith, e)))

abbrev moved : Global
moved = record global { placements = write (λ ws. none) "w" (place "us" 2) }

apply_projection-superseded_example :
    apply_projection surroundings event
      (happen_all surroundings (projected event surroundings.regional_store 9 ∷ []) moved)
    ≡ (
      happen_all surroundings (projected event surroundings.regional_store 9 ∷ []) moved,
      err fencing_epoch_stale,
    )
unfolding happen_all apply_projection get placement is_active_source is_quiescing_source
apply_projection-superseded_example =
    apply_projection-superseded surroundings (projected event surroundings.regional_store 9 ∷ [])
      moved event (place "us" 2) (omega arith) refl
      (λ e. ground (arith, (eq_iff "active" "moving").1 e))
