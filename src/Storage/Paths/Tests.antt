-- ===== src/Storage/Paths/Tests.antt =====
-- Paths of a bundle.
use skillplane.Common.{ℕ, ◌≡◌, refl, true, false, List, [], ◌∷◌, arith, ok, err}
use skillplane.Common.Int.{pos}
use skillplane.Common.Text.{codes, split_on}
use skillplane.Storage.Paths.{
  normalize_bundle_path, check_path, is_misplaced, member, utf8, utf8_of, utf8_scalar, drop_slash,
  is_traversing, is_unsupported, bytewise_path_compare, difference,
}
use skillplane.Storage.Paths.Order.{sign_of, same, lexicographic, bytewise_path_compare-eq}
use skillplane.Storage.Paths.Safety.{IsBundlePath, normalize_bundle_path-IsBundlePath}

abbrev as_is : List ℕ → List ℕ
as_is path = path

file_test :
    normalize_bundle_path as_is (codes "references/é.md") false false ≡ ok (codes "references/é.md")
unfolding normalize_bundle_path check_path is_misplaced member utf8 utf8_of utf8_scalar drop_slash
    split_on
file_test = refl

directory_test : normalize_bundle_path as_is (codes "assets/") true false ≡ ok (codes "assets")
unfolding normalize_bundle_path check_path is_misplaced member utf8 utf8_of utf8_scalar drop_slash
    split_on
directory_test = refl

traversing_test : normalize_bundle_path as_is (codes "assets/../x") false false ≡ err is_traversing
unfolding normalize_bundle_path check_path is_misplaced member utf8 utf8_of utf8_scalar drop_slash
    split_on
traversing_test = refl

entrypoint_test : normalize_bundle_path as_is (codes "AGENTS.md") false false ≡ err is_unsupported
unfolding normalize_bundle_path check_path is_misplaced member utf8 utf8_of utf8_scalar drop_slash
    split_on
entrypoint_test = refl

normalize_bundle_path-IsBundlePath_example : IsBundlePath false false (codes "references/é.md")
normalize_bundle_path-IsBundlePath_example =
    normalize_bundle_path-IsBundlePath as_is (codes "references/é.md") false false
      (codes "references/é.md") file_test

-- Two unpaired surrogates compare as zero.
surrogates_test : bytewise_path_compare (55296 ∷ []) (55297 ∷ []) ≡ pos 0
unfolding bytewise_path_compare difference utf8 utf8_of
surrogates_test = refl

-- U+FFFD comes before U+10000, whose first UTF-16 unit is smaller.
bytewise_path_compare-eq_example :
    (sign_of (bytewise_path_compare (65533 ∷ []) (65536 ∷ []))
      ≡ lexicographic (65533 ∷ []) (65536 ∷ []))
    × (sign_of (bytewise_path_compare (65533 ∷ []) (65536 ∷ [])) ≡ same
        → ◌≡◌ {A = List ℕ} (65533 ∷ []) (65536 ∷ []))
bytewise_path_compare-eq_example =
    bytewise_path_compare-eq (65533 ∷ []) (65536 ∷ []) ((omega arith, refl), tt)
      ((omega arith, refl), tt)
