-- ===== src/ControlPlane/Regional/Happenings.antt =====
-- Events of regions and writes of placements, in sequence.
use skillplane.Common.{List, [], ◌∷◌, Date}
use skillplane.ControlPlane.Objects.{Store}
use skillplane.ControlPlane.Objects.Laws.{
  IsVerified, publish_global_projection-IsVerified, unpublish-cases,
}
use skillplane.ControlPlane.Regional.Steps.{apply_projection-ensures}
use skillplane.ControlPlane.Placement.Laws.{Op, run_op}
use skillplane.ControlPlane.Regional.{RegionalEvent, Global, Surroundings, apply_projection}

-- What happens to the global tables: an event of a region, or a write of a placement.
pub data Happening : Type 0 where
  projected : RegionalEvent → Store → Date → Happening
  placed : Op → Happening

module _ (x : Surroundings) where
  abbrev pub happen : Happening → Global → Global
  happen (projected e source now) g =
      (apply_projection (record x { regional_store = source; now = now }) e g).0
  happen (placed o) g = record g { placements = run_op o g.placements }

  unfoldable pub happen_all : List Happening → Global → Global
  happen_all [] g = g
  happen_all (h ∷ hs) g = happen_all hs (happen h g)

  event-IsVerified :
      (e : RegionalEvent) (source : Store) (now : Date) (g : Global)
      → IsVerified x.platform.sha256 g.exposed
      → IsVerified x.platform.sha256 (happen (projected e source now) g).exposed
  event-IsVerified e source now g w =
      apply_projection-ensures (record x { regional_store = source; now = now }) e g
        (λ g'. IsVerified x.platform.sha256 g'.exposed) w (λ r. w) (λ i s same h. w)
        (λ i d same h ws skill v p there.
          let (q, old, key, digest) =
            unpublish-cases now i g.exposed.directory d ws skill v p h there in
          let found = w ws skill v q old in
          record {
            bytes = found.bytes;
            found = cc (found.found, key);
            matches = cc (found.matches, digest);
          })
        (λ c same. publish_global_projection-IsVerified x.platform.sha256 now source c g.exposed w)

  -- Through any sequence of events, whatever their payloads and the stores of their regions, and of
  -- writes of placements, every projection keeps its bundle in the public store, under the digest
  -- that it shows.
  pub happen_all-IsVerified :
      (hs : List Happening) (g : Global)
      → IsVerified x.platform.sha256 g.exposed
      → IsVerified x.platform.sha256 (happen_all hs g).exposed
  unfolding happen_all
  happen_all-IsVerified [] g w = w
  happen_all-IsVerified (projected e source now ∷ hs) g w =
      happen_all-IsVerified hs (happen (projected e source now) g)
        (event-IsVerified e source now g w)
  happen_all-IsVerified (placed o ∷ hs) g w = happen_all-IsVerified hs (happen (placed o) g) w
