-- ===== src/Prover/TreeView/FlattenLaws.antt =====
-- What `flatten_tree_view` of composer/prover/results.py reports of a rule's tree.
use text.Mathlib.Text.{◌==◌}
use mathlib.Core.List.{◌++◌}
use certora_aicomposer.Prelude.{
  String, List, [], ◌∷◌, Option, none, some, ◌≡◌, inl, inr, arith, Bool-cases, Option-cases, subst,
}
use certora_aicomposer.Prover.Types.{
  StatusCodes, RulePath, rule_path, RuleResult, RuleNotificationMessages, RuleNodeModel, NodeList,
  CallTraceModel,
}
use certora_aicomposer.Prover.TreeView.Flatten.{
  Result, ok, raise, ◌>>=◌, to_status_string, effective_path, any_other, any_of, violated_result,
  sanity_result, failed_results, node_results, flatten_tree_view, flatten_children,
  flatten_tree_view_root,
}

-- Every result is for the rule.
abbrev pub AllFor : String → List RuleResult → Type 0
AllFor rule [] = Unit {0}
AllFor rule (r ∷ results) = (r.path.rule ≡ rule) × AllFor rule results

AllFor-append :
    (rule : String) (xs ys : List RuleResult)
    → AllFor rule xs
    → AllFor rule ys
    → AllFor rule (xs ++ ys)
AllFor-append rule [] ys h k = k
AllFor-append rule (x ∷ xs) ys h k = (h.0, AllFor-append rule xs ys h.1 k)

-- If the run returns, its results are for the rule.
abbrev Returns : (List RuleResult → Type 0) → Result (List RuleResult) → Type 0
Returns P (ok results) = P results
Returns P (raise e) = Unit {0}

effective_path-rule :
    (path : RulePath) (name type : String) (parent_type : Option String)
    → (effective_path path name type parent_type).rule ≡ path.rule
unfolding effective_path
effective_path-rule path name type parent_type = ground arith

module _ (read_dump : String → Option (Option CallTraceModel)) where
  violated_result-For :
      (rule : String) (path : RulePath) (stat : StatusCodes) (output : List String)
      → path.rule ≡ rule
      → Returns (AllFor rule) (violated_result read_dump path stat output)
  unfolding violated_result
  violated_result-For rule path StatusCodes.violated (file ∷ _) h =
      elim (Option-cases (read_dump file)) [
        | inl e ↦ rw (e, violated_result) tt
        | inr (trace, e) ↦ rw (e, violated_result) (h, tt)
      ]
  violated_result-For rule path _ _ h = tt

  failed_results-For :
      (rule : String) (path : RulePath) (stat : StatusCodes) (type : String) (output : List String)
      (children : NodeList) (below : Result (List RuleResult))
      → path.rule ≡ rule
      → Returns (AllFor rule) below
      → Returns (AllFor rule) (failed_results read_dump path stat type output children below)
  unfolding failed_results
  failed_results-For rule path stat type output children below h k =
      elim (Bool-cases (any_of "VIOLATED_ASSERT" children)) [
        | inl assertion ↦ rw assertion (violated_result-For rule path stat output h)
        | inr other ↦ rw other (elim (Bool-cases (type == "SANITY")) [
          | inl sanity ↦ rw sanity (sanity_result-For stat)
          | inr plain ↦ rw plain k
        ])
      ]
    where
      sanity_result-For : (s : StatusCodes) → Returns (AllFor rule) (sanity_result read_dump path s)
      sanity_result-For StatusCodes.sanity_failed = (h, tt)
      sanity_result-For _ = tt

  node_results-For :
      (rule : String) (path : RulePath) (stat : StatusCodes) (type : String) (output : List String)
      (children : NodeList) (messages : List String) (errors : List RuleNotificationMessages)
      (below : Result (List RuleResult))
      → path.rule ≡ rule
      → Returns (AllFor rule) below
      → Returns
          (AllFor rule)
          (node_results read_dump path stat type output children messages errors below)
  unfolding node_results
  node_results-For rule path StatusCodes.error type output children messages errors below h k =
      (h, tt)
  node_results-For rule path StatusCodes.skipped type output children messages errors below h k =
      (h, tt)
  node_results-For rule path StatusCodes.verified type output children messages errors below h k =
      elim (Bool-cases (any_other "SANITY" children)) [
        | inl more ↦ rw more k
        | inr done ↦ rw done (h, tt)
      ]
  node_results-For rule path StatusCodes.timeout type output NodeList.no_nodes messages errors below
        h k =
      (h, tt)
  node_results-For rule path stat type output children messages errors below h k =
      failed_results-For rule path stat type output children below h k

  then-For :
      (rule : String) (first : Result (List RuleResult)) (rest : Result (List RuleResult))
      → Returns (AllFor rule) first
      → Returns (AllFor rule) rest
      → Returns (AllFor rule) (do results ← first; more ← rest; ok (results ++ more))
  then-For rule (ok xs) (ok ys) h k = AllFor-append rule xs ys h k
  then-For rule (ok xs) (raise e) h k = tt
  then-For rule (raise e) rest h k = tt

  mutual
    unfolding flatten_tree_view

    flatten-For :
        (tree : RuleNodeModel) (path : RulePath) (parent_type : Option String)
        → Returns (AllFor path.rule) (flatten_tree_view read_dump tree path parent_type)
    flatten-For (RuleNodeModel.node name output children status type errors) path parent_type =
        let here = effective_path path name type parent_type in
        node_results-For path.rule here (to_status_string status) type output children _ errors _
          (effective_path-rule path name type parent_type)
          (children-For children path.rule here type
            (effective_path-rule path name type parent_type))

    children-For :
        (children : NodeList) (rule : String) (path : RulePath) (type : String)
        → path.rule ≡ rule
        → Returns (AllFor rule) (flatten_children read_dump children path type)
    children-For NodeList.no_nodes rule path type h = tt
    children-For (NodeList.one_more c rest) rule path type h =
        then-For rule (flatten_tree_view read_dump c path (some type))
          (flatten_children read_dump rest path type)
          (subst (λ r. Returns (AllFor r) (flatten_tree_view read_dump c path (some type))) h
            (flatten-For c path (some type)))
          (children-For rest rule path type h)

  -- Every result of a rule's tree is for that rule, whatever paths the nodes below add to.
  pub flatten_tree_view_root-AllFor :
      (name : String) (output : List String) (children : NodeList) (status : Option String)
      (type : String) (errors : List RuleNotificationMessages) (results : List RuleResult)
      → flatten_tree_view_root read_dump
          (RuleNodeModel.node name output children status type errors)
        ≡ ok results
      → AllFor name results
  unfolding flatten_tree_view_root
  flatten_tree_view_root-AllFor name output children status type errors results h =
      elim (Bool-cases (type == "ROOT")) [
        | inl root ↦ subst (Returns (AllFor name)) (rw root at h) (
            flatten-For (RuleNodeModel.node name output children status type errors)
              (rule_path name) none)
        | inr other ↦ absurd (ground arith)
      ]
