-- ===== src/Composition/Tests.antt =====
-- A diamond of four versions, and a cycle.
use skillplane.Common.{
  ℕ, String, ◌≡◌, ◌≢◌, refl, none, true, false, List, [], ◌∷◌, str_eq, Result, ok, err,
}
use skillplane.Common.Text.{str_lt, js_length, trim}
use skillplane.ControlPlane.Objects.{is_hex_digest}
use skillplane.Common.Sorting.{sort}
use skillplane.Composition.Resolve.{ordered_dependencies, search, visit, resolve_dependencies}
use skillplane.Composition.Merge.{DependencyChoice, merged}
use skillplane.Composition.Resolution.{IsResolution, resolve_dependencies-IsResolution}
use skillplane.Composition.{ids, is_fan_out, height, validate_lock}
use skillplane.Composition.Lock.{
  SkillDependency, Conflict, Semver, Root, both, include, DependencyNode, DependencyEdge,
  DependencyLock, composition_limits, cycle, fuel_out, is_selector, is_dependency, is_node, is_edge,
}
use skillplane.Composition.Bounds.{validate_lock-ends}
use skillplane.Composition.Sound.{validate_lock-IsSound}
use skillplane.Composition.Validity.{IsSound}

abbrev semver : Semver
semver = record {
  valid = λ s. true;
  valid_range = λ s. true;
  satisfies = str_eq;
  precedes = λ a b. false;
}

abbrev digest : String
digest = "sha256:00000000000000000000000000000000000000000000000000000000000000ab"

abbrev version : String → DependencyNode
version name = record {
  version_id = name;
  workspace_id = "w";
  skill_id = name;
  workspace = "team";
  skill = name;
  semantic_version = "1.0.0";
  digest = digest;
  closure_digest = digest;
  expanded_bytes = 10;
}

abbrev edge : String → String → ℕ → DependencyEdge
edge parent child ordinal = record {
  dependency = record {
    alias = child;
    workspace = "team";
    skill = child;
    version = "1.0.0";
    scope = both;
    mode = include;
    order = none;
    required = true;
  };
  parent = parent;
  child = child;
  ordinal = ordinal;
}

abbrev diamond : DependencyLock
diamond = record {
  format_version = 1;
  nodes = version "a" ∷ version "b" ∷ version "c" ∷ [];
  edges = edge "$root" "a" 0 ∷ edge "$root" "b" 1 ∷ edge "a" "c" 0 ∷ edge "b" "c" 0 ∷ [];
}

abbrev circle : DependencyLock
circle = record {
  format_version = 1;
  nodes = version "a" ∷ version "b" ∷ [];
  edges = edge "$root" "a" 0 ∷ edge "a" "b" 0 ∷ edge "b" "a" 0 ∷ [];
}

abbrev root : Root
root = record { workspace = "team"; skill = "top"; expanded_bytes = 5 }

diamond_test : validate_lock semver composition_limits root diamond ≡ ok tt
unfolding validate_lock height is_fan_out is_node is_edge is_dependency is_selector is_hex_digest
    js_length trim
diamond_test = refl

circle_test : validate_lock semver composition_limits root circle ≡ err cycle
unfolding validate_lock height is_fan_out is_node is_edge is_dependency is_selector is_hex_digest
    js_length trim
circle_test = refl

validate_lock-IsSound_example : IsSound semver composition_limits root diamond
validate_lock-IsSound_example =
    validate_lock-IsSound semver composition_limits diamond root diamond_test

validate_lock-ends_example : validate_lock semver composition_limits root circle ≢ err fuel_out
validate_lock-ends_example = validate_lock-ends semver composition_limits circle root

-- The two versions of the diamond that the root may choose, each with its own lock on the third.
abbrev choose : SkillDependency → List DependencyChoice
choose d =
    record {
      node = version d.alias;
      lock = record {
        format_version = 1;
        nodes = version "c" ∷ [];
        edges = edge "$root" "c" 0 ∷ [];
      };
    }
    ∷ []

abbrev needs : String → SkillDependency
needs name = (edge "$root" name 0).dependency

abbrev node_ids : Result Conflict DependencyLock → List String
node_ids (ok lock) = ids lock
node_ids (err c) = []

-- The shared version stands first.
resolve_test :
    node_ids
      (resolve_dependencies semver composition_limits root choose (needs "b" ∷ needs "a" ∷ []))
    ≡ "c" ∷ "a" ∷ "b" ∷ []
unfolding resolve_dependencies ordered_dependencies search merged visit sort str_lt validate_lock
    height is_fan_out is_node is_edge is_dependency is_selector is_hex_digest js_length trim
resolve_test = refl

resolve_dependencies-IsResolution_example :
    (resolve_dependencies semver composition_limits root choose (needs "b" ∷ []) ≢ err fuel_out)
    × ((lock : DependencyLock)
        → resolve_dependencies semver composition_limits root choose (needs "b" ∷ []) ≡ ok lock
        → IsResolution semver composition_limits root (needs "b" ∷ []) lock)
resolve_dependencies-IsResolution_example =
    resolve_dependencies-IsResolution semver composition_limits root choose (needs "b" ∷ [])
