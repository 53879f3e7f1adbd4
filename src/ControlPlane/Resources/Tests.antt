-- ===== src/ControlPlane/Resources/Tests.antt =====
-- A skill that moves to another workspace, and a context that is tombstoned.
use skillplane.Common.{◌≡◌, refl, none, some, List, [], ◌∷◌}
use skillplane.ControlPlane.Resources.{Routes, skill, context, resolve, upsert, tombstone}
use skillplane.ControlPlane.Resources.Laws.{
  Write, routed, buried_at, write_all, promised, resolve-write_all,
}

abbrev none_routed : Routes
none_routed = λ t id. none

abbrev writes : List Write
writes =
    routed skill "s" "b"
    ∷ buried_at context "c"
    ∷ routed context "c" "a"
    ∷ routed skill "s" "a"
    ∷ []

skill_test : resolve skill "s" (write_all writes none_routed) ≡ some "b"
unfolding write_all resolve upsert tombstone
skill_test = refl

context_test : resolve context "c" (write_all writes none_routed) ≡ none
unfolding write_all resolve upsert tombstone
context_test = refl

resolve-write_all_example :
    resolve skill "s" (write_all writes none_routed)
    ≡ promised skill "s" writes (resolve skill "s" none_routed)
resolve-write_all_example = resolve-write_all skill "s" writes none_routed
