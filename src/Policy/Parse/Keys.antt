-- ===== src/Policy/Parse/Keys.antt =====
-- Which objects pass the check for keys that are not supported.
use skillplane.Common.{
  ◌≡◌, ◌≢◌, ◌↔◌, ◌⊎◌, inl, inr, refl, String, not, List, [], ◌∷◌, Any, find, arith, eq_iff,
  Bool-cases, ok,
}
use skillplane.Common.Json.{Json, str, obj, Fields, prop, end, keys}
use skillplane.Policy.{review_required}
use skillplane.Policy.Evaluate.Laws.{any-eq}
use skillplane.Policy.Parse.{
  Parsed, as_record, strict_keys, parse_review_required, parse_amendment_policy, allowed_key,
  refuse_key, is_text, is_undefined,
}

-- The keys that the key check lets through: up to the first one that is not allowed, which is
-- empty, or all of them.
abbrev pub Passes : List String → List String → Type 0
Passes allowed [] = Unit
Passes allowed (k ∷ ks) =
    (Any (λ a. a ≡ k) allowed × Passes allowed ks) ⊎ (¬ Any (λ a. a ≡ k) allowed × (k ≡ ""))

first_refused : List String → List String → String → Parsed (Unit {0})
first_refused allowed ks field = refuse_key (find (λ k. not (allowed_key allowed k)) ks) field

first_refused-Passes_iff :
    (allowed ks : List String) (field : String)
    → (first_refused allowed ks field ≡ ok tt) ↔ Passes allowed ks
unfolding first_refused refuse_key allowed_key
first_refused-Passes_iff allowed [] field = (λ h. tt, λ h. refl)
first_refused-Passes_iff allowed (k ∷ ks) field =
    let (to, from) = first_refused-Passes_iff allowed ks field in
    let (found, find') = any-eq k allowed in
    elim (Bool-cases (allowed_key allowed k)) [
      | inl e ↦ rw e (
        λ h. inl (found e, to h),
        λ h. elim h [ inl x ↦ from x.1 | inr x ↦ absurd (x.0 (found e)) ],
      )
      | inr e ↦ rw e (
        λ h. inr (λ x. cc (e, find' x), (eq_iff k "").0 (ground arith)),
        λ h. elim h [ inl x ↦ cc (e, find' x.0) | inr x ↦ ground (arith, x.1, (eq_iff k "").1) ],
      )
    ]

-- The key check lets an object through exactly if its keys are all allowed, up to the first that
-- is not; and that one, if there is one, is the empty text.
pub strict_keys-Passes_iff :
    (fields : Fields) (allowed : List String) (field : String)
    → (strict_keys fields allowed field ≡ ok tt) ↔ Passes allowed (keys fields)
unfolding strict_keys first_refused
strict_keys-Passes_iff fields allowed field = first_refused-Passes_iff allowed (keys fields) field

-- Behind an empty key, a key that no policy has is not refused: the object is parsed as if the
-- key were not there.
pub parse-empty_key :
    (x y : Json) (extra : String)
    → extra ≢ "mode"
    → extra ≢ "rules"
    → parse_amendment_policy
        (obj (prop "" x (prop extra y (prop "mode" (str "review_required") end))))
      ≡ ok review_required
unfolding parse_amendment_policy as_record strict_keys is_text parse_review_required is_undefined
parse-empty_key x y extra h k = ground (arith, eq_iff extra "mode", eq_iff extra "rules")
