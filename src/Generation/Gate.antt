-- ===== src/Generation/Gate.antt =====
-- The reducers of the state, the digest and the gate of composer/spec/cvl_generation.py, with
-- `merge_validation` of composer/core/state.py and `_merge_rule_skips` of
-- composer/spec/source/prover.py. The hash is a parameter.
use certora_aicomposer.Prelude.{
  String, Bool, false, List, [], ◌∷◌, Option, none, some, map, if◌then◌else◌,
}
use text.Mathlib.Text
use certora_aicomposer.Text.{◌++◌, is_empty}
use certora_aicomposer.Sets.{text_eq}
use certora_aicomposer.KeyMap.{get, put, put_all, values_of}
use certora_aicomposer.Sorting.{text_le, sorted_by}
use certora_aicomposer.Generation.Types.{SkippedProperty, GenerationState}

abbrev pub merge_validation :
    List (String × String) → List (String × String) → List (String × String)
merge_validation left right = put_all left right

abbrev pub delete_skip : String
delete_skip = "__delete_skip"

-- `del d[k]` if the key is there
unfoldable pub remove : String → List (String × String) → List (String × String)
remove k [] = []
remove k ((j, v) ∷ d) = if Text.◌==◌ j k then d else (j, v) ∷ remove k d

unfoldable pub merge_rule_skips :
    List (String × String) → List (String × String) → List (String × String)
merge_rule_skips left [] = left
merge_rule_skips left ((k, v) ∷ right) =
    merge_rule_skips (if Text.◌==◌ v delete_skip then remove k left else put k v left) right

abbrev pub titled : List SkippedProperty → List (String × SkippedProperty)
titled skips = map entry skips
  where
    entry : SkippedProperty → String × SkippedProperty
    entry s = (s.property_title, s)

-- `(s for s in skips if s.reason)`
unfoldable pub with_reason : List SkippedProperty → List SkippedProperty
with_reason [] = []
with_reason (s ∷ skips) =
    let rest = with_reason skips in if is_empty s.reason then rest else s ∷ rest

abbrev pub title_le : SkippedProperty → SkippedProperty → Bool
title_le s t = text_le s.property_title t.property_title

unfoldable pub merge_skips : List SkippedProperty → List SkippedProperty → List SkippedProperty
merge_skips left right =
    sorted_by title_le (with_reason (values_of (put_all (put_all [] (titled left)) (titled right))))

-- What the hash is fed after the text: each title and reason.
unfoldable pub skips_text : List SkippedProperty → String
skips_text [] = ""
skips_text (s ∷ skips) = (s.property_title ++ (":" ++ s.reason)) ++ skips_text skips

-- Why the completion is rejected.
pub data Rejection : Type 0 where
  no_spec : Rejection
  stale : String → Rejection

module _ (md5 : String → String) where
  abbrev pub compute_digest : String → List SkippedProperty → String
  compute_digest curr_spec skipped = md5 (curr_spec ++ skips_text skipped)

  -- `key not in validations or validations[key] != digest`
  abbrev pub satisfied : List (String × String) → String → String → Bool
  satisfied validations digest key = elim (get key validations) [
    | some stamp ↦ Text.◌==◌ stamp digest
    | none ↦ false
  ]

  unfoldable pub first_stale : List (String × String) → String → List String → Option Rejection
  first_stale validations digest [] = none
  first_stale validations digest (key ∷ required) =
      let rest = first_stale validations digest required in
      if satisfied validations digest key then rest else some (Rejection.stale key)

  abbrev pub gate :
      List (String × String) → List String → List SkippedProperty → Option String → Option Rejection
  gate validations required skipped none = some Rejection.no_spec
  gate validations required skipped (some spec) =
      first_stale validations (compute_digest spec skipped) required

  abbrev pub check_completion : GenerationState → Option Rejection
  check_completion state =
      gate state.validations state.required_validations state.skipped state.curr_spec

  abbrev pub text_or_empty : Option String → String
  text_or_empty none = ""
  text_or_empty (some text) = text

  -- `make_validation_stamper(key)`
  abbrev pub stamp : String → GenerationState → List (String × String)
  stamp key state = (key, compute_digest (text_or_empty state.curr_spec) state.skipped) ∷ []
