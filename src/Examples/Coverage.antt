-- ===== src/Examples/Coverage.antt =====
-- The report of composer/spec/source/report on a small project of two components.
use certora_aicomposer.Prelude.{
  ℕ, String, Bool, List, [], ◌∷◌, Option, none, some, ◌≡◌, refl, inl, ◌==◌, map,
}
use mathlib.Core.List.{flat_map}
use certora_aicomposer.Sets.{pair_eq, pair_same, contains→NotIn, In, Distinct, All, contains}
use certora_aicomposer.Report.Verdict.{NodeStatus, CheckResult}
use certora_aicomposer.Report.Schema.{
  PropertyType, Methods, PropertyFormulation, GroupStatus, FormalizedProperty, key, PropertyGroup,
  RuleVerdict,
}
use certora_aicomposer.Report.Grouping.{PropertyGroupDraft, aggregate_status}
use certora_aicomposer.Report.Status.{Summary, aggregate_status-Summary}
use certora_aicomposer.Report.Coverage.{Validation, all_members, covered, validate}
use certora_aicomposer.Report.Partition.{Partition, validate-Partition, validate-covered}
use certora_aicomposer.Report.Collect.{Outcome, ReportComponentInput, collect}
use certora_aicomposer.Report.Resolved.{Resolved, collect-Resolved}
use certora_aicomposer.Report.Build.{run_autoprove_report}
use certora_aicomposer.Report.Keys.{input_keys}
use certora_aicomposer.Report.Complete.{Built, run_autoprove_report-Built}

aggregate_status-Summary_example :
    Summary
      (aggregate_status (NodeStatus.verified ∷ NodeStatus.timeout ∷ []))
      (NodeStatus.verified ∷ NodeStatus.timeout ∷ [])
aggregate_status-Summary_example =
    aggregate_status-Summary (NodeStatus.verified ∷ NodeStatus.timeout ∷ [])

abbrev formulated : String → PropertyFormulation
formulated title = record {
  title = title;
  methods = Methods.invariant;
  sort = PropertyType.safety_property;
  description = "";
}

abbrev property : String → FormalizedProperty
property title = record {
  formulation = formulated title;
  component = "Vault";
  rule_refs = ("vault.spec", title) ∷ [];
}

abbrev properties : List FormalizedProperty
properties = property "solvency" ∷ property "access" ∷ []

abbrev groups : List PropertyGroup
groups =
    record {
      slug = "funds";
      title = "Funds";
      description = "";
      status = GroupStatus.no_results;
      members = ("Vault", "solvency") ∷ [];
    }
    ∷ []

abbrev no_rules : List (RuleVerdict ℕ)
no_rules = []

members_once : Distinct (all_members groups)
unfolding flat_map
members_once = (tt, tt)

members_known : All (λ k. In k (map key properties)) (all_members groups)
unfolding flat_map
members_known = (inl refl, tt)

accepted :
    validate properties no_rules groups [] [] 0
    ≡ Validation.valid (covered properties no_rules groups [] [] 0)
accepted = validate-covered properties no_rules groups [] [] 0 members_once members_known

validate-Partition_example :
    Partition properties groups (covered properties no_rules groups [] [] 0)
validate-Partition_example =
    validate-Partition properties no_rules groups [] [] 0
      (covered properties no_rules groups [] [] 0) accepted

abbrev vault : ReportComponentInput
vault = record {
  name = "Vault";
  spec_file = "vault.spec";
  props = formulated "solvency" ∷ formulated "access" ∷ [];
  result = Outcome.generated (record {
    commentary = "";
    cvl = "";
    skipped = record { property_title = "access"; reason = "no roles" } ∷ [];
    property_rules = record { property_title = "solvency"; rules = "solvent" ∷ " " ∷ [] } ∷ [];
    final_link = none;
  });
  prover_link = some "run";
}

abbrev token : ReportComponentInput
token = record {
  name = "Token";
  spec_file = "token.spec";
  props = formulated "supply" ∷ [];
  result = Outcome.gave_up "too large";
  prover_link = none;
}

abbrev components : List ReportComponentInput
components = vault ∷ token ∷ []

abbrev is_zero : ℕ → Bool
is_zero n = n == 0

abbrev no_path : String → String
no_path s = s

abbrev checks_of : String → Option (List (CheckResult ℕ))
checks_of link = none

abbrev raises : String → List FormalizedProperty → Option (List PropertyGroupDraft)
raises contract_name ps = none

collect-Resolved_example :
    Resolved ℕ
      (collect ℕ is_zero no_path checks_of components).properties
      (collect ℕ is_zero no_path checks_of components).rules
collect-Resolved_example = collect-Resolved ℕ is_zero no_path checks_of components

keys_Distinct : Distinct (input_keys components)
unfolding contains pair_same
keys_Distinct = (
  contains→NotIn ("Vault", "solvency") (("Vault", "access") ∷ ("Token", "supply") ∷ []) refl,
  (contains→NotIn ("Vault", "access") (("Token", "supply") ∷ []) refl, (tt, tt)),
)

run_autoprove_report-Built_example :
    Built ℕ (run_autoprove_report ℕ is_zero no_path checks_of raises "Vault" components)
run_autoprove_report-Built_example =
    run_autoprove_report-Built ℕ is_zero no_path checks_of raises "Vault" components keys_Distinct
