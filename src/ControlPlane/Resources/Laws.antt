-- ===== src/ControlPlane/Resources/Laws.antt =====
-- The routing directory against what it promises.
use skillplane.Common.{
  String, ◌≡◌, refl, Option, none, some, Bool, true, false, Bool-cases, Option-cases, inl, inr,
  ◌&&◌, List, [], ◌∷◌, str_eq, if◌then◌else◌,
}
use skillplane.ControlPlane.Resources.{
  ResourceType, workspace, skill, skill_version, context, context_note, Routes, same_resource,
  resolve, upsert, tombstone,
}

pub data Write : Type 0 where
  routed : ResourceType → String → String → Write
  buried_at : ResourceType → String → Write

abbrev pub write : Write → Routes → Routes
write (routed t id ws) routes = upsert t id ws routes
write (buried_at t id) routes = tombstone t id routes

-- The last write comes first.
unfoldable pub write_all : List Write → Routes → Routes
write_all [] routes = routes
write_all (w ∷ ws) routes = write w (write_all ws routes)

-- Resources are told apart by what they are.
abbrev same_type : ResourceType → ResourceType → Bool
same_type workspace workspace = true
same_type skill skill = true
same_type skill_version skill_version = true
same_type context context = true
same_type context_note context_note = true
same_type t u = false

abbrev is_for : ResourceType → String → ResourceType → String → Bool
is_for t id u other = same_type t u && str_eq id other

-- What the directory promises: the workspace that the last write of the resource names, and none
-- after a tombstone.
abbrev pub promised : ResourceType → String → List Write → Option String → Option String
promised t id [] first = first
promised t id (routed u other ws ∷ writes) first =
    let earlier = promised t id writes first in if is_for u other t id then some ws else earlier
promised t id (buried_at u other ∷ writes) first =
    let earlier = promised t id writes first in if is_for u other t id then none else earlier

-- The names of the types tell the types apart.
same_resource-eq :
    (t u : ResourceType) (id other : String) → same_resource t id u other ≡ is_for t id u other
same_resource-eq workspace workspace id other = refl
same_resource-eq workspace skill id other = refl
same_resource-eq workspace skill_version id other = refl
same_resource-eq workspace context id other = refl
same_resource-eq workspace context_note id other = refl
same_resource-eq skill workspace id other = refl
same_resource-eq skill skill id other = refl
same_resource-eq skill skill_version id other = refl
same_resource-eq skill context id other = refl
same_resource-eq skill context_note id other = refl
same_resource-eq skill_version workspace id other = refl
same_resource-eq skill_version skill id other = refl
same_resource-eq skill_version skill_version id other = refl
same_resource-eq skill_version context id other = refl
same_resource-eq skill_version context_note id other = refl
same_resource-eq context workspace id other = refl
same_resource-eq context skill id other = refl
same_resource-eq context skill_version id other = refl
same_resource-eq context context id other = refl
same_resource-eq context context_note id other = refl
same_resource-eq context_note workspace id other = refl
same_resource-eq context_note skill id other = refl
same_resource-eq context_note skill_version id other = refl
same_resource-eq context_note context id other = refl
same_resource-eq context_note context_note id other = refl

resolve-upsert :
    (t u : ResourceType) (id other ws : String) (routes : Routes)
    → resolve t id (upsert u other ws routes)
      ≡ (if same_resource u other t id then some ws else resolve t id routes)
unfolding resolve upsert
resolve-upsert t u id other ws routes = elim (Bool-cases (same_resource u other t id)) [
  | inl y ↦ rw (resolve, upsert, y) refl
  | inr n ↦ rw (resolve, upsert, n) refl
]

resolve-tombstone :
    (t u : ResourceType) (id other : String) (routes : Routes)
    → resolve t id (tombstone u other routes)
      ≡ (if same_resource u other t id then none else resolve t id routes)
unfolding resolve tombstone
resolve-tombstone t u id other routes = elim (Bool-cases (same_resource u other t id)) [
  | inr n ↦ rw (resolve, tombstone, n) refl
  | inl y ↦ elim (Option-cases (routes t id)) [
    | inl absent ↦ rw (resolve, tombstone, y, absent) refl
    | inr (r, there) ↦ rw (resolve, tombstone, y, there) refl
  ]
]

-- Whatever was written, in any order, a resource is resolved to the workspace that the last write of
-- that very resource names, to none after a tombstone, and to its first route without a write.
pub resolve-write_all :
    (t : ResourceType) (id : String) (writes : List Write) (routes : Routes)
    → resolve t id (write_all writes routes) ≡ promised t id writes (resolve t id routes)
unfolding write_all
resolve-write_all t id [] routes = refl
resolve-write_all t id (routed u other ws ∷ writes) routes =
    rw (same_resource-eq u t other id, resolve-write_all t id writes routes) at
      (resolve-upsert t u id other ws (write_all writes routes))
resolve-write_all t id (buried_at u other ∷ writes) routes =
    rw (same_resource-eq u t other id, resolve-write_all t id writes routes) at
      (resolve-tombstone t u id other (write_all writes routes))
