-- ===== src/Report/Coverage.antt =====
-- composer/spec/source/report/coverage.py: the check of a grouping against the properties. The texts
-- of the errors are left out: an error holds the keys that its text names.
use certora_aicomposer.Prelude.{
  ℕ, String, Bool, true, false, List, [], ◌∷◌, none, some, map, length, ltb, if◌then◌else◌,
}
use mathlib.Core.List.{flat_map}
use certora_aicomposer.Sets.{pair_eq, text_eq, add, set_of, minus}
use certora_aicomposer.KeyMap.{get, put, put_all, keys_of}
use certora_aicomposer.Counter.{count_all, repeated}
use certora_aicomposer.Sorting.{text_le, pair_le, sorted_by}
use certora_aicomposer.Report.Schema.{
  RuleRef, PropertyKey, RuleVerdict, FormalizedProperty, key, SkippedClaim, GaveUpComponent,
  PropertyGroup, CoverageReport,
}
use certora_aicomposer.Report.Grouping.{refs_of}

-- `raise ValidationError` or the report.
pub data Validation : Type 0 where
  multiple : List PropertyKey → Validation
  nonexistent : List PropertyKey → Validation
  valid : CoverageReport → Validation

-- The members of the groups in turn.
abbrev pub all_members : List PropertyGroup → List PropertyKey
all_members groups = flat_map members_of groups
  where
    members_of : PropertyGroup → List PropertyKey
    members_of g = g.members

-- `{p.key: p for p in properties}`
abbrev pub keyed : List FormalizedProperty → List (PropertyKey × FormalizedProperty)
keyed properties = put_all [] (map entry properties)
  where
    entry : FormalizedProperty → PropertyKey × FormalizedProperty
    entry p = (key p, p)

-- `groups_of_rule[ref].add(slug)` for each of the rules.
unfoldable pub add_slug :
    String → List (RuleRef × List String) → List RuleRef → List (RuleRef × List String)
add_slug slug d [] = d
add_slug slug d (ref ∷ refs) =
    add_slug slug (put ref (elim (get ref d) [ some slugs ↦ add slugs slug | none ↦ slug ∷ [] ]) d)
      refs

unfoldable pub slugs_by_rule :
    List (PropertyKey × FormalizedProperty)
    → List (RuleRef × List String)
    → List PropertyGroup
    → List (RuleRef × List String)
unfolding add_slug
slugs_by_rule props_by_key d [] = d
slugs_by_rule props_by_key d (g ∷ groups) =
    slugs_by_rule props_by_key (add_slug g.slug d (flat_map (refs_of props_by_key []) g.members))
      groups

-- The names of the rules with more than one slug.
unfoldable pub spread : List (RuleRef × List String) → List String
spread [] = []
spread ((ref, slugs) ∷ d) =
    let rest = spread d in if ltb 1 (length slugs) then ref.1 ∷ rest else rest

unfoldable pub smallest : ℕ → List ℕ → ℕ
smallest n [] = n
smallest n (m ∷ ms) = smallest (if ltb m n then m else n) ms

unfoldable pub largest : ℕ → List ℕ → ℕ
largest n [] = n
largest n (m ∷ ms) = largest (if ltb n m then m else n) ms

-- `min(sizes) if sizes else 0`
unfoldable pub min_size : List ℕ → ℕ
unfolding smallest
min_size [] = 0
min_size (n ∷ sizes) = smallest n sizes

unfoldable pub max_size : List ℕ → ℕ
unfolding largest
max_size [] = 0
max_size (n ∷ sizes) = largest n sizes

abbrev is_empty {ℓ} : {A : Type ℓ} → List A → Bool
is_empty [] = true
is_empty (_ ∷ _) = false

abbrev pub sizes_of : List PropertyGroup → List ℕ
sizes_of groups = map size groups
  where
    size : PropertyGroup → ℕ
    size g = length g.members

module _ {Seconds : Type 0} (properties : List FormalizedProperty)
    (rules : List (RuleVerdict Seconds)) (groups : List PropertyGroup) (skipped : List SkippedClaim)
    (gave_up : List GaveUpComponent) (dropped_orphan_rules : ℕ) where
  abbrev all_keys : List PropertyKey
  all_keys = set_of (map key properties)

  abbrev appearance : List (PropertyKey × ℕ)
  appearance = count_all [] (all_members groups)

  abbrev pub excess : List PropertyKey
  excess = sorted_by pair_le (minus (keys_of appearance) all_keys)

  abbrev pub missing : List PropertyKey
  missing = sorted_by pair_le (minus all_keys (keys_of appearance))

  abbrev pub spanning : List String
  spanning = sorted_by text_le (set_of (spread (slugs_by_rule (keyed properties) [] groups)))

  abbrev pub covered : CoverageReport
  covered = record {
    total_properties = length properties;
    total_rules = length rules;
    total_groups = length groups;
    properties_per_group_min = min_size (sizes_of groups);
    properties_per_group_max = max_size (sizes_of groups);
    property_coverage_complete = is_empty missing;
    properties_in_no_group = missing;
    rules_spanning_multiple_groups = spanning;
    skipped_count = length skipped;
    gave_up_component_count = length gave_up;
    dropped_orphan_rules = dropped_orphan_rules;
    warnings = [];
  }

  abbrev pub after_excess : List PropertyKey → Validation
  after_excess [] = Validation.valid covered
  after_excess (k ∷ ks) = Validation.nonexistent (k ∷ ks)

  abbrev pub after_multi : List PropertyKey → Validation
  after_multi [] = after_excess excess
  after_multi (k ∷ ks) = Validation.multiple (sorted_by pair_le (k ∷ ks))

  unfoldable pub validate : Validation
  validate = after_multi (repeated appearance)
