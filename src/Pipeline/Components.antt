-- ===== src/Pipeline/Components.antt =====
-- The end of `generate_all_component_cvl` of composer/spec/source/common_pipeline.py, with the names of files and
-- runs of composer/spec/source/artifacts.py: what is made of the results of the components. The report
-- is a parameter, without a result if it raises.
use certora_aicomposer.Prelude.{ℕ, ◌+◌, String, List, [], ◌∷◌, Option, none, some, length}
use mathlib.Core.List.{◌++◌ as append}
use certora_aicomposer.Text.{◌++◌, truthy}
use certora_aicomposer.Sets.{text_eq}
use certora_aicomposer.KeyMap.{get, put}
use certora_aicomposer.Prover.TreeView.CallTrace.{replace}
use certora_aicomposer.Generation.Types.{GeneratedCvl}
use certora_aicomposer.Report.Schema.{PropertyFormulation}
use certora_aicomposer.Report.Collect.{Outcome, ReportComponentInput}

-- A component with its slug, its properties and its result.
pub record ComponentBatch : Type 0 where
  pub name : String
  pub slug : String
  pub props : List PropertyFormulation
  pub result : Outcome

-- `ComponentSpec.spec_filename`
abbrev pub spec_filename : String → String
spec_filename slug = "autospec_" ++ (slug ++ ".spec")

-- `InvariantSpec.run_key`
abbrev pub invariant_key : String
invariant_key = "invariants"

unfoldable pub output_link : String → String
output_link link = replace link "/jobStatus/" "/output/"

abbrev pub rewritten : Option String → Option String
rewritten none = none
rewritten (some link) = some (output_link link)

-- The link of a result, if it has one.
abbrev pub link_of : Outcome → Option String
link_of (Outcome.generated cvl) = rewritten (truthy cvl.final_link)
link_of _ = none

abbrev pub put_link : String → Option String → List (String × String) → List (String × String)
put_link run_key none runs = runs
put_link run_key (some link) runs = put run_key link runs

unfoldable pub component_runs :
    List (String × String) → List ComponentBatch → List (String × String)
component_runs runs [] = runs
component_runs runs (b ∷ batches) = component_runs (put_link b.slug (link_of b.result) runs) batches

-- The structural invariants, if they were written.
pub record InvariantResult : Type 0 where
  pub props : List PropertyFormulation
  pub cvl : GeneratedCvl

abbrev pub put_invariants : Option InvariantResult → List (String × String) → List (String × String)
put_invariants none runs = runs
put_invariants (some inv) runs = put_link invariant_key (link_of (Outcome.generated inv.cvl)) runs

unfoldable pub all_runs : List ComponentBatch → Option InvariantResult → List (String × String)
all_runs batches inv = put_invariants inv (component_runs [] batches)

unfoldable pub report_inputs :
    List (String × String) → List ComponentBatch → List ReportComponentInput
report_inputs runs [] = []
report_inputs runs (b ∷ batches) =
    record {
      name = b.name;
      spec_file = spec_filename b.slug;
      props = b.props;
      result = b.result;
      prover_link = get b.slug runs;
    }
    ∷ report_inputs runs batches

abbrev pub invariant_input :
    List (String × String) → Option InvariantResult → List ReportComponentInput
invariant_input runs none = []
invariant_input runs (some inv) =
    record {
      name = "Structural Invariants";
      spec_file = "invariants.spec";
      props = inv.props;
      result = Outcome.generated inv.cvl;
      prover_link = get invariant_key runs;
    }
    ∷ []

unfoldable pub report_components :
    List ComponentBatch → Option InvariantResult → List ReportComponentInput
report_components batches inv =
    append (report_inputs (all_runs batches inv) batches)
      (invariant_input (all_runs batches inv) inv)

pub record AutoProveResult : Type 0 where
  pub n_components : ℕ
  pub n_properties : ℕ
  pub failures : List String

abbrev pub failure_of : String → Outcome → List String
failure_of name (Outcome.generated cvl) = []
failure_of name (Outcome.crashed error) = (name ++ (": " ++ error)) ∷ []
failure_of name (Outcome.gave_up reason) = (name ++ (": GAVE_UP: " ++ reason)) ∷ []

unfoldable pub failures_of : List ComponentBatch → List String
failures_of [] = []
failures_of (b ∷ batches) = append (failure_of b.name b.result) (failures_of batches)

unfoldable pub properties_of : List ComponentBatch → ℕ
properties_of [] = 0
properties_of (b ∷ batches) = length b.props + properties_of batches

-- What the phase writes, and its result.
pub record Finished (R : Type 0) : Type 0 where
  pub runs : List (String × String)
  pub report : Option R
  pub result : AutoProveResult

unfoldable pub generate_all_component_cvl :
    {R : Type 0}
    → (List ReportComponentInput → Option R)
    → List ComponentBatch
    → Option InvariantResult
    → Finished R
generate_all_component_cvl build_report batches inv = record {
  runs = all_runs batches inv;
  report = build_report (report_components batches inv);
  result = record {
    n_components = length batches;
    n_properties = properties_of batches;
    failures = failures_of batches;
  };
}
