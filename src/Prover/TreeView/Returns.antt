-- ===== src/Prover/TreeView/Returns.antt =====
-- When `flatten_tree_view` of composer/prover/results.py returns.
use text.Mathlib.Text.{◌==◌}
use mathlib.Core.List.{◌++◌}
use certora_aicomposer.Prelude.{
  String, true, false, List, [], ◌∷◌, Option, none, some, ◌≡◌, refl, Bool-cases, inl, inr,
}
use certora_aicomposer.Prover.Types.{
  StatusCodes, RulePath, rule_path, RuleResult, RuleNotificationMessages, RuleNodeModel, NodeList,
  CallTraceModel,
}
use certora_aicomposer.Prover.TreeView.Flatten.{
  Result, ok, ◌>>=◌, to_status_string, effective_path, any_other, any_of, violated_result,
  failed_results, node_results, flatten_tree_view, flatten_children, flatten_tree_view_root,
}

module _ (read_dump : String → Option (Option CallTraceModel)) where
  -- A node with a violated assertion is itself violated, and the dump that it names first can be
  -- read; another node of the type SANITY has failed its sanity check.
  pub record Failing (stat : StatusCodes) (type : String) (output : List String)
      (children : NodeList) : Type 0 where
    pub violation :
        any_of "VIOLATED_ASSERT" children ≡ true
        → (file : String) × (rest : List String) × (trace : Option CallTraceModel) × (output
            ≡ file ∷ rest)
          × (read_dump file ≡ some trace)
          × (stat ≡ StatusCodes.violated)
    pub sanity :
        any_of "VIOLATED_ASSERT" children ≡ false
        → (type == "SANITY") ≡ true
        → stat ≡ StatusCodes.sanity_failed

  -- Nodes that are verified, skipped or in error need nothing, nor does a timeout without children.
  abbrev Checked : StatusCodes → String → List String → NodeList → Type 0
  Checked StatusCodes.error type output children = Unit {0}
  Checked StatusCodes.skipped type output children = Unit {0}
  Checked StatusCodes.verified type output children = Unit {0}
  Checked StatusCodes.timeout type output NodeList.no_nodes = Unit {0}
  Checked stat type output children = Failing stat type output children

  abbrev mutual
    pub WellFormed : RuleNodeModel → Type 0
    WellFormed (RuleNodeModel.node name output children status type errors) =
        Checked (to_status_string status) type output children × AllWellFormed children

    pub AllWellFormed : NodeList → Type 0
    AllWellFormed NodeList.no_nodes = Unit {0}
    AllWellFormed (NodeList.one_more c rest) = WellFormed c × AllWellFormed rest

  abbrev Ends : Result (List RuleResult) → Type 0
  Ends r = (results : List RuleResult) × (r ≡ ok results)

  violated_result-Ends :
      (path : RulePath) (file : String) (rest : List String) (trace : Option CallTraceModel)
      → read_dump file ≡ some trace
      → Ends (violated_result read_dump path StatusCodes.violated (file ∷ rest))
  unfolding violated_result
  violated_result-Ends path file rest trace e = rw (e, violated_result) (_, refl)

  failed_results-Ends :
      (path : RulePath) (stat : StatusCodes) (type : String) (output : List String)
      (children : NodeList) (below : Result (List RuleResult))
      → Failing stat type output children
      → Ends below
      → Ends (failed_results read_dump path stat type output children below)
  unfolding failed_results
  failed_results-Ends path stat type output children below failing ends =
      elim (Bool-cases (any_of "VIOLATED_ASSERT" children)) [
        | inl assertion ↦
            let (file, rest, trace, e, read, s) = failing.violation assertion in
            rw (assertion, e, s) (violated_result-Ends path file rest trace read)
        | inr other ↦ elim (Bool-cases (type == "SANITY")) [
          | inl sanity ↦ rw (other, sanity, failing.sanity other sanity) (_, refl)
          | inr plain ↦ rw (other, plain) ends
        ]
      ]

  node_results-Ends :
      (path : RulePath) (stat : StatusCodes) (type : String) (output : List String)
      (children : NodeList) (messages : List String) (errors : List RuleNotificationMessages)
      (below : Result (List RuleResult))
      → Checked stat type output children
      → Ends below
      → Ends (node_results read_dump path stat type output children messages errors below)
  unfolding node_results
  node_results-Ends path StatusCodes.error type output children messages errors below h k =
      (_, refl)
  node_results-Ends path StatusCodes.skipped type output children messages errors below h k =
      (_, refl)
  node_results-Ends path StatusCodes.verified type output children messages errors below h k =
      elim (Bool-cases (any_other "SANITY" children)) [
        | inl more ↦ rw more k
        | inr done ↦ rw done (_, refl)
      ]
  node_results-Ends path StatusCodes.timeout type output NodeList.no_nodes messages errors below h
        k =
      (_, refl)
  node_results-Ends path StatusCodes.timeout type output (NodeList.one_more c rest) messages errors
        below h k =
      failed_results-Ends path StatusCodes.timeout type output _ below h k
  node_results-Ends path StatusCodes.violated type output children messages errors below h k =
      failed_results-Ends path StatusCodes.violated type output children below h k
  node_results-Ends path StatusCodes.sanity_failed type output children messages errors below h k =
      failed_results-Ends path StatusCodes.sanity_failed type output children below h k

  both-Ends :
      (first rest : Result (List RuleResult))
      → Ends first
      → Ends rest
      → Ends (do results ← first; more ← rest; ok (results ++ more))
  both-Ends first rest (xs, e) (ys, k) = (xs ++ ys, rw (e, k) refl)

  mutual
    unfolding flatten_tree_view

    flatten-Ends :
        (tree : RuleNodeModel) (path : RulePath) (parent_type : Option String)
        → WellFormed tree
        → Ends (flatten_tree_view read_dump tree path parent_type)
    flatten-Ends (RuleNodeModel.node name output children status type errors) path parent_type h =
        let here = effective_path path name type parent_type in
        node_results-Ends here (to_status_string status) type output children _ errors _ h.0
          (children-Ends children here type h.1)

    children-Ends :
        (children : NodeList) (path : RulePath) (type : String)
        → AllWellFormed children
        → Ends (flatten_children read_dump children path type)
    children-Ends NodeList.no_nodes path type h = ([], refl)
    children-Ends (NodeList.one_more c rest) path type h =
        both-Ends (flatten_tree_view read_dump c path (some type))
          (flatten_children read_dump rest path type) (flatten-Ends c path (some type) h.0)
          (children-Ends rest path type h.1)

  -- The flattening of a tree whose root has the type ROOT returns, with no failed assertion and no
  -- error of reading, if every node is well-formed: one with a violated assertion below it that is
  -- not verified, skipped or in error is violated and names a dump that can be read, and one of the
  -- type SANITY with no such child has failed its sanity check.
  pub flatten_tree_view_root_returns :
      (name : String) (output : List String) (children : NodeList) (status : Option String)
      (errors : List RuleNotificationMessages)
      → WellFormed (RuleNodeModel.node name output children status "ROOT" errors)
      → (results : List RuleResult) × (flatten_tree_view_root read_dump
            (RuleNodeModel.node name output children status "ROOT" errors)
          ≡ ok results)
  unfolding flatten_tree_view_root
  flatten_tree_view_root_returns name output children status errors h =
      flatten-Ends (RuleNodeModel.node name output children status "ROOT" errors) (rule_path name)
        none h
