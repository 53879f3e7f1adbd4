-- ===== src/ControlPlane/Objects/Laws.antt =====
-- The objects of the public store, against the directory that exposes them.
use skillplane.Common.{
  String, ◌≡◌, subst, some, true, Bool-cases, Option-cases, Result-cases, ◌⊎◌, inl, inr, arith,
  eq_iff, str_eq, ok, Date,
}
use skillplane.ControlPlane.Publication.{
  Directory, Projection, Publish, Unpublish, accepts, publish, unpublish,
}
use skillplane.ControlPlane.Objects.{
  Bytes, Store, Exposed, Copy, put_if_absent, read, verify_copy, published_bundle_key,
  publish_global_projection,
}

pub put_if_absent-keeps :
    (key k : String) (bytes old : Bytes) (t : Store)
    → t k ≡ some old
    → put_if_absent key bytes t k ≡ some old
unfolding put_if_absent
put_if_absent-keeps key k bytes old t h = elim (Option-cases (t key)) [
  | inr (there, e) ↦ rw (put_if_absent, e) h
  | inl e ↦ rw (put_if_absent, e) (ground (arith, eq_iff key k, e, h))
]

pub publish-cases :
    (now : Date) (i : Publish) (d d' : Directory) (ws skill v : String) (p : Projection)
    → publish now i d ≡ ok d'
    → d'.projections ws skill v ≡ some p
    → (d.projections ws skill v ≡ some p) ⊎ ((p.object_key ≡ i.object_key) × (p.digest ≡ i.digest))
unfolding publish accepts
publish-cases now i d d' ws skill v p h e = ground (arith, h, e)

pub unpublish-cases :
    (now : Date) (i : Unpublish) (d d' : Directory) (ws skill v : String) (p : Projection)
    → unpublish now i d ≡ ok d'
    → d'.projections ws skill v ≡ some p
    → (q : Projection) × (d.projections ws skill v ≡ some q)
      × (p.object_key ≡ q.object_key)
      × (p.digest ≡ q.digest)
unfolding unpublish accepts
unpublish-cases now i d d' ws skill v p h e = elim (Option-cases (d.projections ws skill v)) [
  | inl n ↦ absurd (ground (arith, h, e, n))
  | inr (q, n) ↦ (q, n, ground (arith, h, e, n), ground (arith, h, e, n))
]

module _ (sha256 : Bytes → String) where
  -- The object of a key has a digest.
  pub record HasDigest (t : Store) (key digest : String) : Type 0 where
    pub bytes : Bytes
    pub found : t key ≡ some bytes
    pub matches : sha256 bytes ≡ digest

  abbrev pub IsVerified : Exposed → Type 0
  IsVerified s =
      (ws skill v : String) (p : Projection)
      → s.directory.projections ws skill v ≡ some p
      → HasDigest s.store p.object_key p.digest

  put_if_absent-HasDigest :
      (k : String) (b : Bytes) (t : Store) (key digest : String)
      → HasDigest t key digest
      → HasDigest (put_if_absent k b t) key digest
  put_if_absent-HasDigest k b t key digest h = record {
    bytes = h.bytes;
    found = put_if_absent-keeps k key b h.bytes t h.found;
    matches = h.matches;
  }

  stored-IsVerified :
      (k : String) (b : Bytes) (s : Exposed)
      → IsVerified s
      → IsVerified (record s { store = put_if_absent k b s.store })
  stored-IsVerified k b s h ws skill v p e =
      put_if_absent-HasDigest k b s.store p.object_key p.digest (h ws skill v p e)

  read-HasDigest :
      (k digest : String) (t : Store) (b : Bytes)
      → read k t ≡ ok b
      → str_eq (sha256 b) digest ≡ true
      → HasDigest t k digest
  unfolding read
  read-HasDigest k digest t b r e = elim (Option-cases (t k)) [
    | inl n ↦ absurd (ground (arith, r, n))
    | inr (c, n) ↦
        let same : c ≡ b = ground (arith, r, n) in
        record {
          bytes = b;
          found = subst (λ x. t k ≡ some x) same n;
          matches = (eq_iff (sha256 b) digest).0 e;
        }
  ]

  -- What a publication adds has its object.
  exposed-IsVerified :
      (now : Date) (i : Publish) (s : Exposed) (d' : Directory)
      → publish now i s.directory ≡ ok d'
      → HasDigest s.store i.object_key i.digest
      → IsVerified s
      → IsVerified (record s { directory = d' })
  exposed-IsVerified now i s d' h g w ws skill v p e =
      elim (publish-cases now i s.directory d' ws skill v p h e) [
        | inl old ↦ w ws skill v p old
        | inr (key, digest) ↦ rw (key, digest) g
      ]

  -- A copy ends where it began, after it stored the object, or after it exposed the version as well.
  module _ (now : Date) (x : Copy) (P : Exposed → Type 0) where
    verified-ensures :
        (key : String) (s : Exposed)
        → P s
        → ((d : Directory)
            → publish now (record (x.input) { object_key = key }) s.directory ≡ ok d
            → HasDigest s.store key x.input.digest
            → P (record s { directory = d }))
        → P (verify_copy sha256 now x key s (read key s.store)).0
    verified-ensures key s here exposed = elim (Result-cases (read key s.store)) [
      | inr (e, r) ↦ rw r here
      | inl (b, r) ↦ elim (Bool-cases (str_eq (sha256 b) x.input.digest)) [
        | inr n ↦ rw (r, n) here
        | inl y ↦
            elim (Result-cases (publish now (record (x.input) { object_key = key }) s.directory)) [
              | inr (e, p) ↦ rw (r, y, p) here
              | inl (d, p) ↦
                  rw (r, y, p) (exposed d p (read-HasDigest key x.input.digest s.store b r y))
            ]
      ]
    ]

    pub publish_global_projection-ensures :
        (source : Store) (s : Exposed)
        → P s
        → ((key : String) (b : Bytes) → P (record s { store = put_if_absent key b s.store }))
        → ((key : String) (b : Bytes) (d : Directory)
            → publish now (record (x.input) { object_key = key }) s.directory ≡ ok d
            → HasDigest (put_if_absent key b s.store) key x.input.digest
            → P (record { store = put_if_absent key b s.store; directory = d }))
        → P (publish_global_projection sha256 now source x s).0
    unfolding publish_global_projection
    publish_global_projection-ensures source s here stored exposed =
        elim (Result-cases (read x.source_key source)) [
          | inr (e, r) ↦ rw (publish_global_projection, r) here
          | inl (bytes, r) ↦ elim (Bool-cases (str_eq (sha256 bytes) x.input.digest)) [
            | inr n ↦ rw (publish_global_projection, r, n) here
            | inl y ↦
                elim (Result-cases (
                  published_bundle_key x.input.workspace_id x.input.skill_id x.input.version_id
                    x.input.digest)) [
                      | inr (e, k) ↦ rw (publish_global_projection, r, y, k) here
                      | inl (key, k) ↦
                          rw (publish_global_projection, r, y, k)
                            (verified-ensures key
                              (record s { store = put_if_absent key bytes s.store })
                              (stored key bytes) (exposed key bytes))
                    ]
          ]
        ]

  -- Where every exposed version has its bundle under its digest, a copy, completed or broken off,
  -- leaves it so.
  pub publish_global_projection-IsVerified :
      (now : Date) (source : Store) (x : Copy) (s : Exposed)
      → IsVerified s
      → IsVerified (publish_global_projection sha256 now source x s).0
  publish_global_projection-IsVerified now source x s w =
      publish_global_projection-ensures now x IsVerified source s w
        (λ key b. stored-IsVerified key b s w)
        (λ key b d p g.
          exposed-IsVerified now (record (x.input) { object_key = key })
            (record s { store = put_if_absent key b s.store }) d p g (stored-IsVerified key b s w))
