-- ===== src/Examples/Pipeline.antt =====
-- The names of components and the links of their runs: composer/spec/system_model.py and
-- composer/spec/source/common_pipeline.py.
use certora_aicomposer.Prelude.{String, List, [], ◌∷◌, none, some, map, ◌≡◌, refl}
use certora_aicomposer.Text.{decimal, lstrip_of, rstrip_of}
use certora_aicomposer.Sets.{text_eq, All}
use certora_aicomposer.KeyMap.{get, put, same-ne}
use certora_aicomposer.Prover.TreeView.CallTrace.{replace}
use certora_aicomposer.Generation.Types.{GeneratedCvl}
use certora_aicomposer.Report.Collect.{Outcome}
use certora_aicomposer.Pipeline.Slugs.{is_safe, collapse, slugify_filename, count, slugified_name}
use certora_aicomposer.Pipeline.Components.{
  ComponentBatch, InvariantResult, output_link, component_runs, all_runs, report_inputs,
  report_components, failures_of, generate_all_component_cvl,
}
use certora_aicomposer.Pipeline.Linked.{HasOwnLink, report_components-HasOwnLink}

slug_of_method : slugify_filename "transfer(address,uint256)" ≡ "transfer_address_uint256"
unfolding slugify_filename collapse is_safe lstrip_of rstrip_of
slug_of_method = refl

abbrev names : List String
names = "a b" ∷ "a,b" ∷ "a b 1" ∷ []

-- The slug with an index is that of another component.
same_slugs : slugified_name names 1 "a,b" ≡ slugified_name names 2 "a b 1"
unfolding slugified_name slugify_filename collapse is_safe lstrip_of rstrip_of count decimal
same_slugs = refl

abbrev written : String → GeneratedCvl
written link = record {
  commentary = "";
  cvl = "";
  skipped = [];
  property_rules = [];
  final_link = some link;
}

abbrev batch : String → String → ComponentBatch
batch slug link = record {
  name = slug;
  slug = slug;
  props = [];
  result = Outcome.generated (written link);
}

abbrev batches : List ComponentBatch
batches =
    batch "vault" "https://p/jobStatus/1"
    ∷ record { name = "token"; slug = "token"; props = []; result = Outcome.gave_up "no rules" }
    ∷ []

abbrev invariants : InvariantResult
invariants = record { props = []; cvl = written "https://p/jobStatus/2" }

report_components-HasOwnLink_example : All HasOwnLink (report_components batches (some invariants))
report_components-HasOwnLink_example =
    report_components-HasOwnLink batches (some invariants)
      ((same-ne "token" "vault" refl, tt), (tt, tt))
      (same-ne "vault" "invariants" refl, (same-ne "token" "invariants" refl, tt))

-- A component whose slug is the key of the invariants gets the link of their run.
taken_over :
    map
      (λ i. i.prover_link)
      (report_components (batch "invariants" "https://p/jobStatus/1" ∷ []) (some invariants))
    ≡ some "https://p/output/2" ∷ some "https://p/output/2" ∷ []
unfolding report_components report_inputs all_runs component_runs output_link replace get put
taken_over = refl

failed :
    (generate_all_component_cvl (λ inputs. some inputs) batches none).result.failures
    ≡ "token: GAVE_UP: no rules" ∷ []
unfolding generate_all_component_cvl failures_of
failed = refl
