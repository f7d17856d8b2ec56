-- ===== src/Report/Grouping.antt =====
-- composer/spec/source/report/grouping.py: the status of a group, the groups of the drafts, and the
-- fallback. The call of the language model is a parameter of Report/Build.antt.
use certora_aicomposer.Prelude.{
  String, Bool, true, false, List, [], ◌∷◌, none, some, map, if◌then◌else◌,
}
use mathlib.Core.List.{flat_map}
use certora_aicomposer.Sets.{pair_eq}
use certora_aicomposer.KeyMap.{get}
use certora_aicomposer.Report.Verdict.{NodeStatus}
use certora_aicomposer.Report.Schema.{
  RuleRef, PropertyKey, GroupStatus, FormalizedProperty, key, PropertyGroup,
}

abbrev pub fallback_slug : String
fallback_slug = "general"

abbrev pub fallback_title : String
fallback_title = "General"

-- The loop, from what it knows of the statuses before.
unfoldable pub status_from : Bool → Bool → List NodeStatus → GroupStatus
status_from all_verified any_verified [] =
    if any_verified
    then (if all_verified then GroupStatus.verified else GroupStatus.partial)
    else GroupStatus.no_results
status_from all_verified any_verified (NodeStatus.violated ∷ statuses) = GroupStatus.violated
status_from all_verified any_verified (NodeStatus.verified ∷ statuses) =
    status_from all_verified true statuses
status_from all_verified any_verified (_ ∷ statuses) = status_from false any_verified statuses

unfoldable pub aggregate_status : List NodeStatus → GroupStatus
aggregate_status statuses = status_from true false statuses

pub record PropertyGroupDraft : Type 0 where
  pub slug : String
  pub title : String
  pub description : String
  pub members : List PropertyKey

module _ (props_by_key : List (PropertyKey × FormalizedProperty))
    (rule_status : List (RuleRef × NodeStatus)) where
  -- `rule_status.get(ref, NodeStatus.UNKNOWN)`
  abbrev pub status_of : RuleRef → NodeStatus
  status_of ref = elim (get ref rule_status) [ some s ↦ s | none ↦ NodeStatus.unknown ]

  -- The rules of a member of a group, none if there is no such property.
  abbrev pub refs_of : PropertyKey → List RuleRef
  refs_of k = elim (get k props_by_key) [ some p ↦ p.rule_refs | none ↦ [] ]

  abbrev pub build_group : PropertyGroupDraft → PropertyGroup
  build_group d = record {
    slug = d.slug;
    title = d.title;
    description = d.description;
    status = aggregate_status (map status_of (flat_map refs_of d.members));
    members = d.members;
  }

  abbrev pub build_groups : List PropertyGroupDraft → List PropertyGroup
  build_groups drafts = map build_group drafts

-- One group with every property.
abbrev pub build_fallback_grouping : List FormalizedProperty → List PropertyGroupDraft
build_fallback_grouping properties = draft ∷ []
  where
    draft : PropertyGroupDraft
    draft = record {
      slug = fallback_slug;
      title = fallback_title;
      description = "All properties.";
      members = map key properties;
    }
