-- ===== src/Report/Schema.antt =====
-- The data of the report: composer/spec/source/report/schema.py and composer/spec/prop.py, and the
-- component inputs of composer/spec/source/report/collect.py.
use certora_aicomposer.Prelude.{ℕ, String, Bool, List, Option}
use certora_aicomposer.Dict.{Dict}
use certora_aicomposer.Report.Verdict.{NodeStatus}

-- `type RuleRef = tuple[str, RuleName]`: a rule's spec file and its name.
abbrev pub RuleRef : Type 0
RuleRef = String × String

-- `type PropertyKey = tuple[ComponentName, PropertyTitle]`
abbrev pub PropertyKey : Type 0
PropertyKey = String × String

pub data PropertyType : Type 0 where
  attack_vector safety_property invariant : PropertyType

-- `list[str] | Literal["invariant"]`
pub data Methods : Type 0 where
  methods : List String → Methods
  invariant : Methods

pub record PropertyFormulation : Type 0 where
  pub title : String
  pub methods : Methods
  pub sort : PropertyType
  pub description : String

pub data GroupStatus : Type 0 where
  verified violated partial no_results : GroupStatus

pub record RuleVerdict (Seconds : Type 0) : Type 0 where
  pub name : String
  pub spec_file : String
  pub status : NodeStatus
  pub line : Option ℕ
  pub duration_seconds : Option Seconds
  pub prover_link : Option String

-- `FormalizedProperty` extends `PropertyFormulation`.
pub record FormalizedProperty : Type 0 where
  pub formulation : PropertyFormulation
  pub component : String
  pub rule_refs : List RuleRef

abbrev pub key : FormalizedProperty → PropertyKey
key p = (p.component, p.formulation.title)

-- `SkippedClaim` extends `PropertyFormulation`.
pub record SkippedClaim : Type 0 where
  pub formulation : PropertyFormulation
  pub component : String
  pub reason : String

pub record GaveUpComponent : Type 0 where
  pub component : String
  pub properties : List PropertyFormulation

pub record PropertyGroup : Type 0 where
  pub slug : String
  pub title : String
  pub description : String
  pub status : GroupStatus
  pub members : List PropertyKey

pub record CoverageReport : Type 0 where
  pub total_properties : ℕ
  pub total_rules : ℕ
  pub total_groups : ℕ
  pub properties_per_group_min : ℕ
  pub properties_per_group_max : ℕ
  pub property_coverage_complete : Bool
  pub properties_in_no_group : List PropertyKey
  pub rules_spanning_multiple_groups : List String
  pub skipped_count : ℕ
  pub gave_up_component_count : ℕ
  pub dropped_orphan_rules : ℕ
  pub warnings : List String

-- The time stamp is left out.
pub record AutoProverReport (Seconds : Type 0) : Type 0 where
  pub contract_name : String
  pub prover_links : Dict String
  pub properties : List FormalizedProperty
  pub rules : List (RuleVerdict Seconds)
  pub groups : List PropertyGroup
  pub skipped : List SkippedClaim
  pub gave_up_components : List GaveUpComponent
  pub coverage : CoverageReport
