-- ===== src/ControlPlane/Publication/Tests.antt =====
-- A skill that is published, withdrawn, and published again too late.
use skillplane.Common.{ℕ, String, ◌≡◌, refl, none, some, false, [], ◌∷◌, err}
use skillplane.ControlPlane.Publication.{
  Directory, Publish, Unpublish, accepts, publish, is_taken, unique_violation,
}
use skillplane.ControlPlane.Publication.Laws.{
  expose, hide, run_op, run_ops, IsFenced, is_public, run_ops-IsFenced, unpublish-hides,
}

abbrev empty : Directory
empty = record {
  workspaces = λ ws. some "team";
  heads = λ ws s. none;
  projections = λ ws s v. none;
  keys = [];
  withdrawn = λ v. none;
}

empty-IsFenced : IsFenced "w" "s" empty
unfolding IsFenced
empty-IsFenced v = refl

abbrev sending : String → ℕ → Publish
sending version sequence = record {
  workspace_id = "w";
  skill_id = "s";
  skill_slug = "skill";
  version_id = version;
  current_version_id = version;
  semantic_version = version;
  digest = "sha256:0";
  object_key = version;
  sequence = sequence;
  published_at = none;
  document = none;
  search_text = none;
}

abbrev withdrawal : Unpublish
withdrawal = record { workspace_id = "w"; skill_id = "s"; version_id = "v"; sequence = 5 }

run_ops-IsFenced_example :
    IsFenced "w" "s" (run_ops (expose 9 (sending "v" 3) ∷ hide 10 withdrawal ∷ []) empty)
run_ops-IsFenced_example =
    run_ops-IsFenced "w" "s" (expose 9 (sending "v" 3) ∷ hide 10 withdrawal ∷ []) empty
      empty-IsFenced

-- The directory after one publication.
abbrev shown : Directory
shown = run_op (expose 9 (sending "v" 3)) empty

shown-IsFenced : IsFenced "w" "s" shown
unfolding run_ops
shown-IsFenced = run_ops-IsFenced "w" "s" (expose 9 (sending "v" 3) ∷ []) empty empty-IsFenced

unpublish-hides_example :
    is_public (
      (run_ops (expose 11 (sending "x" 4) ∷ []) (run_op (hide 10 withdrawal) shown)).projections "w"
        "s" "v")
    ≡ false
unfolding accepts publish is_taken
unpublish-hides_example =
    unpublish-hides 10 withdrawal "team" shown shown-IsFenced refl refl
      (expose 11 (sending "x" 4) ∷ []) (refl, tt) "v"

-- Another skill with the slug of one that is shown.
twice_test :
    publish 12 (record (sending "v" 1) { skill_id = "t"; object_key = "o" }) shown
    ≡ err unique_violation
unfolding publish accepts is_taken
twice_test = refl
