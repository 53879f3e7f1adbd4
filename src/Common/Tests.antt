-- ===== src/Common/Tests.antt =====
-- Texts as JavaScript reads them.
use mathlib.Core.Path.{◌≡◌, refl}
use mathlib.Core.Bool.{true}
use skillplane.Common.Text.{trim, js_length, str_lt}

trim_test : trim "  a b\t" ≡ "a b"
unfolding trim
trim_test = refl

js_length_test : js_length "a😀" ≡ 3
unfolding js_length
js_length_test = refl

str_lt_test : str_lt "contexts:read" "skills:amend" ≡ true
unfolding str_lt
str_lt_test = refl
