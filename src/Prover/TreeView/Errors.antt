-- ===== src/Prover/TreeView/Errors.antt =====
-- The result of a tree with an error, for composer/prover/results.py.
use text.Mathlib.Text.{◌==◌}
use certora_aicomposer.Prelude.{String, Bool, List, [], ◌∷◌, Option, none, ◌≡◌, inl, inr, refl}
use certora_aicomposer.Prover.Types.{
  StatusCodes, rule_path, RuleResult, RuleNotificationMessages, RuleNodeModel, NodeList,
  CallTraceModel,
}
use certora_aicomposer.Prover.TreeView.Flatten.{
  ok, to_status_string, collect_child_errors, node_results, effective_path, flatten_tree_view,
  flatten_tree_view_root,
}
use certora_aicomposer.Prover.TreeView.Messages.{In, Reports, collect-Reports, collect-from}

abbrev pub error_severity : String → Bool
error_severity sev = sev == "error"

-- A tree with the type ROOT whose root has the status ERROR gives exactly one result: it is for the
-- rule, has that status, and its messages are exactly those of severity error that are told by a
-- node which is reached from the root through nodes with the status ERROR, itself included.
pub flatten_error :
    (read_dump : String → Option (Option CallTraceModel)) (name : String) (output : List String)
    (children : NodeList) (status : Option String) (errors : List RuleNotificationMessages)
    → to_status_string status ≡ StatusCodes.error
    → let tree = RuleNodeModel.node name output children status "ROOT" errors in
      (r : RuleResult) × (flatten_tree_view_root read_dump tree ≡ ok (r ∷ []))
      × (r.path ≡ rule_path name)
      × (r.status ≡ StatusCodes.error)
      × ((m : String) → In m r.error_messages → Reports error_severity m tree)
      × ((m : String) → Reports error_severity m tree → In m r.error_messages)
unfolding flatten_tree_view_root flatten_tree_view effective_path node_results
flatten_error read_dump name output children status errors failed =
    let tree = RuleNodeModel.node name output children status "ROOT" errors in
    (
      record {
        path = rule_path name;
        cex_dump = none;
        status = StatusCodes.error;
        error_messages = collect_child_errors tree error_severity [];
      },
      rw failed,
      refl,
      refl,
      λ m h. elim (collect-from error_severity m tree [] h) [ inl k ↦ elim k [ ] | inr r ↦ r ],
      λ m r. collect-Reports error_severity m tree [] r,
    )
