-- ===== src/Examples/Generation.antt =====
-- The agent that writes specifications: composer/spec/cvl_generation.py and composer/spec/source. The
-- hash of these runs is the text itself.
use certora_aicomposer.Prelude.{String, true, false, List, [], ◌∷◌, none, some, ◌≡◌, refl, inl, inr}
use certora_aicomposer.Text.{strip, is_empty}
use certora_aicomposer.Sets.{contains, add, add_all}
use certora_aicomposer.KeyMap.{get, put, put_all}
use certora_aicomposer.Sorting.{sorted_by, insert_by, text_le}
use certora_aicomposer.Generation.Types.{SkippedProperty, PropertyRuleMapping, ProverConfig}
use certora_aicomposer.Generation.Gate.{merge_skips, with_reason, skips_text, first_stale}
use certora_aicomposer.Generation.Mapping.{
  any_named, check_mapping, check_mappings, check_titles, titles_of, validate_property_rules,
}
use certora_aicomposer.Generation.Mapped.{
  ValidMapping, validate_property_rules-ValidMapping, ValidMapping-validate_property_rules,
}
use certora_aicomposer.Generation.Tools.{SyntaxCheck, ProverRun, Action, all_verified, step, run}
use certora_aicomposer.Generation.Approvals.{approvals}
use certora_aicomposer.Generation.Published.{Published, begin, publish-Approved}
use certora_aicomposer.Generation.Config.{ConfigEdit, Outcome, parse_link, apply_edit}
use certora_aicomposer.Generation.Links.{LinkOf, apply_edit-remove_link}

abbrev titles : List String
titles = "solvency" ∷ "access" ∷ []

abbrev skips : List SkippedProperty
skips = record { property_title = "access"; reason = "no roles" } ∷ []

abbrev mapping : List PropertyRuleMapping
mapping = record { property_title = "solvency"; rules = "solvent" ∷ [] } ∷ []

no_problems : validate_property_rules mapping skips titles ≡ []
unfolding validate_property_rules check_mappings check_mapping check_titles any_named contains add
    add_all strip
no_problems = refl

validate_property_rules-ValidMapping_example : ValidMapping mapping (titles_of skips) titles
validate_property_rules-ValidMapping_example =
    validate_property_rules-ValidMapping skips titles mapping no_problems

named : is_empty (strip "solvent") ≡ false
unfolding strip
named = refl

ValidMapping-validate_property_rules_example : validate_property_rules mapping skips titles ≡ []
ValidMapping-validate_property_rules_example =
    ValidMapping-validate_property_rules skips titles mapping (record {
      once = (tt, tt);
      good = ((inl refl, ((λ e. cc e), tt), inl named), tt);
      accounted = (inr (inl refl), (inl (inl refl), tt));
    })

abbrev no_files : ProverConfig
no_files = record { files = none; link = none }

abbrev same_text : String → String
same_text s = s

abbrev calls : List Action
calls =
    Action.put_cvl_raw "rule solvent" SyntaxCheck.accepted
    ∷ Action.record_skip "access" "no roles"
    ∷ Action.feedback_tool true
    ∷ Action.verify_spec none (ProverRun.report none (("solvent", true) ∷ []))
    ∷ []

still_open : (run same_text titles calls (begin same_text titles no_files)).failed ≡ none
unfolding run step contains all_verified strip get
still_open = refl

accepted :
    (step same_text titles
      (Action.publish "done" mapping)
      (run same_text titles calls (begin same_text titles no_files))).failed
    ≡ some false
unfolding run step contains all_verified get put put_all merge_skips with_reason skips_text
    first_stale sorted_by insert_by text_le validate_property_rules check_mappings check_mapping
    check_titles any_named add add_all strip
accepted = refl

publish-Approved_example :
    Published same_text titles
      (approvals same_text titles calls (begin same_text titles no_files))
      (run same_text titles calls (begin same_text titles no_files))
      mapping
publish-Approved_example =
    publish-Approved same_text titles no_files calls "done" mapping still_open accepted

other_link : LinkOf false "Vault" "token" "Vault:oracle=Oracle"
unfolding parse_link
other_link = (("Vault", "oracle", "Oracle"), refl, refl)

this_link : LinkOf true "Vault" "token" "Vault:token=Token"
unfolding parse_link
this_link = (("Vault", "token", "Token"), refl, refl)

apply_edit-remove_link_example :
    apply_edit
      (ConfigEdit.remove_link "Vault" "token")
      (record { files = none; link = some ("Vault:oracle=Oracle" ∷ "Vault:token=Token" ∷ []) })
    ≡ Outcome.changed (record { files = none; link = some [] })
apply_edit-remove_link_example =
    apply_edit-remove_link "Vault" "token" ("Vault:oracle=Oracle" ∷ []) "Vault:token=Token" [] none
      (other_link, tt) this_link
