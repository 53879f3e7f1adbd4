-- ===== src/ControlPlane/Objects.antt =====
-- The object stores of packages/control-plane/src/publication.ts: `createImmutableObjectPublicationStore`,
-- `globalPublishedBundleKey` and `publishGlobalProjection`, which copies a bundle and then exposes it.
pub mod Laws
use Prim.Native.String
use skillplane.Common.{
  ℕ, zero, suc, String, Option, none, some, Bool, not, ◌&&◌, ◌||◌, List, [], ◌∷◌, all, length,
  str_eq, leb, ◌==◌, Result, ok, err, if◌then◌else◌, Date,
}
use skillplane.Common.Text.{codes}
use skillplane.ControlPlane.Publication.{Directory, Publish, ProjectionError, publish}

-- What the projection of an event throws.
pub data Failure : Type 0 where
  placement_failed fencing_epoch_stale payload_invalid route_workspace_mismatch
        route_projector_unavailable workspace_mismatch stats_projector_unavailable
        workspace_not_found object_not_found source_digest_mismatch destination_digest_mismatch
        digest_invalid workspace_invalid skill_invalid version_invalid statement_failed :
      Failure

abbrev pub Bytes : Type 0
Bytes = List ℕ

-- The object of each key. Its metadata are not modelled.
abbrev pub Store : Type 0
Store = String → Option Bytes

-- `head`, and `put` only if there is no object: an object that is there stays.
abbrev pub put_object : String → Bytes → Option Bytes → Store → Store
put_object key bytes (some old) t = t
put_object key bytes none t = λ k. if str_eq key k then some bytes else t k

unfoldable pub put_if_absent : String → Bytes → Store → Store
put_if_absent key bytes t = put_object key bytes (t key) t

unfoldable pub read : String → Store → Result Failure Bytes
read key t = elim (t key) [ none ↦ err object_not_found | some bytes ↦ ok bytes ]

infixr 65 ◌+s◌
abbrev ◌+s◌ : String → String → String
a +s b = String.◌++◌ a b

-- `[A-Za-z0-9:_-]`
abbrev pub is_safe_code : ℕ → Bool
is_safe_code c =
    (leb 65 c && leb c 90)
    || (leb 97 c && leb c 122)
    || (leb 48 c && leb c 57)
    || c == 58
    || c == 95
    || c == 45

-- `/^[A-Za-z0-9:_-]{1,180}$/u`
unfoldable pub is_safe : String → Bool
is_safe s = all is_safe_code (codes s) && leb 1 (length (codes s)) && leb (length (codes s)) 180

-- `/^[a-f0-9]{64}$/u`
unfoldable pub is_hex_digest : String → Bool
is_hex_digest s =
    all (λ c. (leb 97 c && leb c 102) || (leb 48 c && leb c 57)) (codes s) && length (codes s) == 64

abbrev pub slice_from : ℕ → String → String
slice_from zero s = s
slice_from (suc n) String.[] = String.[]
slice_from (suc n) (String.◌∷◌ c s) = slice_from n s

-- Behind the schema of the payload a digest is ASCII, so that its units are its characters.
unfoldable pub published_bundle_key : String → String → String → String → Result Failure String
published_bundle_key workspace skill version digest =
    if not (is_hex_digest (slice_from 7 digest))
    then err digest_invalid
    else if not (is_safe workspace)
    then err workspace_invalid
    else if not (is_safe skill)
    then err skill_invalid
    else if not (is_safe version)
    then err version_invalid
    else ok (
        "public/workspaces/"
        +s workspace
        +s "/skills/"
        +s skill
        +s "/versions/"
        +s version
        +s "/sha256/"
        +s slice_from 7 digest
        +s ".zip")

-- The store of the public bundles and the directory that exposes them.
pub record Exposed : Type 0 where
  pub store : Store
  pub directory : Directory

-- The input of `publishGlobalProjection`, but for the stores and the directory. In the operations
-- below, `sha256` is the digest of the platform, with its prefix.
pub record Copy : Type 0 where
  pub source_key : String
  pub input : Publish

abbrev pub expose_in :
    Exposed → String → Result ProjectionError Directory → Exposed × Result Failure String
expose_in s key (ok directory) = (record s { directory = directory }, ok key)
expose_in s key (err e) = (s, err statement_failed)

abbrev pub verify_copy :
    (Bytes → String)
    → Date
    → Copy
    → String
    → Exposed
    → Result Failure Bytes
    → Exposed × Result Failure String
verify_copy sha256 now x key s (err e) = (s, err e)
verify_copy sha256 now x key s (ok verified) =
    if not (str_eq (sha256 verified) x.input.digest)
    then (s, err destination_digest_mismatch)
    else expose_in s key (publish now (record (x.input) { object_key = key }) s.directory)

abbrev store_copy :
    (Bytes → String)
    → Date
    → Copy
    → Bytes
    → Exposed
    → Result Failure String
    → Exposed × Result Failure String
store_copy sha256 now x bytes s (err e) = (s, err e)
store_copy sha256 now x bytes s (ok key) =
    let stored = record s { store = put_if_absent key bytes s.store } in
    verify_copy sha256 now x key stored (read key stored.store)

abbrev copy_bytes :
    (Bytes → String)
    → Date
    → Copy
    → Exposed
    → Result Failure Bytes
    → Exposed × Result Failure String
copy_bytes sha256 now x s (err e) = (s, err e)
copy_bytes sha256 now x s (ok bytes) =
    if not (str_eq (sha256 bytes) x.input.digest)
    then (s, err source_digest_mismatch)
    else store_copy sha256 now x bytes s (
        published_bundle_key x.input.workspace_id x.input.skill_id x.input.version_id
          x.input.digest)

-- What was written stays written when a later step throws.
unfoldable pub publish_global_projection :
    (Bytes → String) → Date → Store → Copy → Exposed → Exposed × Result Failure String
publish_global_projection sha256 now source x s =
    copy_bytes sha256 now x s (read x.source_key source)
