-- ===== src/Examples/Prover.antt =====
-- The tree view of composer/prover/results.py on a small run.
use certora_aicomposer.Prelude.{ℕ, String, false, List, [], ◌∷◌, Option, none, some, ◌≡◌, ◌⊎◌, refl}
use text.Mathlib.Text.{◌==◌}
use certora_aicomposer.Prover.Types.{
  rule_path, RuleNotificationMessages, StatusCodes, RuleResult, RuleNodeModel, NodeList,
  CallTraceModel,
}
use certora_aicomposer.Prover.TreeView.Flatten.{
  ok, result_of, flatten_tree_view_root, flatten_tree_view, node_results, to_status_string,
  failed_results, any_of, violated_result, effective_path,
}
use certora_aicomposer.Prover.TreeView.FlattenLaws.{AllFor, flatten_tree_view_root-AllFor}
use certora_aicomposer.Prover.TreeView.Messages.{In, Reports}
use certora_aicomposer.Prover.TreeView.Errors.{error_severity, flatten_error}
use certora_aicomposer.Prover.TreeView.Returns.{Failing, WellFormed, flatten_tree_view_root_returns}
use certora_aicomposer.Prover.TreeView.Final.{final_index}
use certora_aicomposer.Prover.TreeView.FinalLaws.{Bounds, Listed, Unnumbered, final_index-greatest}

abbrev no_dump : String → Option (Option CallTraceModel)
no_dump file = some none

-- One method of a rule is violated.
abbrev children_of_rule : NodeList
children_of_rule =
    NodeList.one_more
      (RuleNodeModel.node "deposit()" ("rule_output_1.json" ∷ [])
        (NodeList.one_more
          (RuleNodeModel.node "assert" [] NodeList.no_nodes (some "VIOLATED") "VIOLATED_ASSERT" [])
          NodeList.no_nodes)
        (some "VIOLATED") "METHOD_INSTANTIATION" [])
      NodeList.no_nodes

abbrev violated_deposit : RuleResult
violated_deposit =
    result_of
      (record { rule = "solvency"; contract = none; method = some "deposit()"; sanity = false })
      StatusCodes.violated

flattened :
    flatten_tree_view_root no_dump
      (RuleNodeModel.node "solvency" [] children_of_rule (some "VIOLATED") "ROOT" [])
    ≡ ok (violated_deposit ∷ [])
unfolding flatten_tree_view_root flatten_tree_view node_results to_status_string failed_results
    any_of violated_result effective_path
flattened = refl

flatten_tree_view_root-AllFor_example : AllFor "solvency" (violated_deposit ∷ [])
flatten_tree_view_root-AllFor_example =
    flatten_tree_view_root-AllFor no_dump "solvency" [] children_of_rule (some "VIOLATED") "ROOT" []
      (violated_deposit ∷ []) flattened

solvency-WellFormed :
    WellFormed no_dump
      (RuleNodeModel.node "solvency" [] children_of_rule (some "VIOLATED") "ROOT" [])
unfolding to_status_string any_of
solvency-WellFormed =
    let plain : (stat : StatusCodes) (type : String)
        → (type == "SANITY") ≡ false
        → Failing no_dump stat type [] NodeList.no_nodes =
      λ stat type other. record { violation = λ h. cc; sanity = λ h k. cc } in
    (
      record { violation = λ h. cc; sanity = λ h k. cc },
      (
        (
          record {
            violation = λ h. ("rule_output_1.json", [], none, refl, refl, refl);
            sanity = λ h k. cc;
          },
          ((plain StatusCodes.violated "VIOLATED_ASSERT" refl, tt), tt),
        ),
        tt,
      ),
    )

flatten_tree_view_root_returns_example :
    (results : List RuleResult) × (flatten_tree_view_root no_dump
        (RuleNodeModel.node "solvency" [] children_of_rule (some "VIOLATED") "ROOT" [])
      ≡ ok results)
flatten_tree_view_root_returns_example =
    flatten_tree_view_root_returns no_dump "solvency" [] children_of_rule (some "VIOLATED") []
      solvency-WellFormed

abbrev status_files : List (Option ℕ)
status_files = some 3 ∷ none ∷ some 12 ∷ some 7 ∷ []

chosen : final_index none status_files ≡ some 12
unfolding final_index
chosen = refl

final_index-greatest_example :
    (final_index none status_files ≡ none) × Unnumbered status_files
    ⊎ ((m : ℕ) × (final_index none status_files ≡ some m)
        × Bounds m status_files
        × Listed m status_files)
final_index-greatest_example = final_index-greatest status_files

abbrev result_in : String → StatusCodes → RuleResult
result_in contract status =
    result_of
      (record {
        rule = "solvency";
        contract = some contract;
        method = some "deposit()";
        sanity = false;
      })
      status

abbrev in_vault : RuleResult
in_vault = result_in "Vault" StatusCodes.violated

abbrev in_token : RuleResult
in_token = result_in "Token" StatusCodes.verified

abbrev compile_note : List RuleNotificationMessages
compile_note =
    record { severity = "error"; message = "stack too deep" }
    ∷ record { severity = "info"; message = "retried" }
    ∷ []

abbrev failed_children : NodeList
failed_children =
    NodeList.one_more
      (RuleNodeModel.node "deposit()" [] NodeList.no_nodes (some "ERROR") "METHOD_INSTANTIATION"
        compile_note)
      NodeList.no_nodes

failed_status : to_status_string (some "ERROR") ≡ StatusCodes.error
unfolding to_status_string
failed_status = refl

flatten_error_example :
    let tree = RuleNodeModel.node "solvency" [] failed_children (some "ERROR") "ROOT" [] in
    (r : RuleResult) × (flatten_tree_view_root no_dump tree ≡ ok (r ∷ []))
    × (r.path ≡ rule_path "solvency")
    × (r.status ≡ StatusCodes.error)
    × ((m : String) → In m r.error_messages → Reports error_severity m tree)
    × ((m : String) → Reports error_severity m tree → In m r.error_messages)
flatten_error_example =
    flatten_error no_dump "solvency" [] failed_children (some "ERROR") [] failed_status
