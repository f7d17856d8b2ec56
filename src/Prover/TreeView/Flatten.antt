-- ===== src/Prover/TreeView/Flatten.antt =====
-- `flatten_tree_view` of composer/prover/results.py. What a counterexample's dump file holds is a
-- parameter: `none` if it cannot be read as a dictionary with a well-formed call trace or none,
-- `some none` if it has no call trace.
use text.Mathlib.Text.{◌==◌, find?}
use Prim.Native.String.{slice}
use mathlib.Core.List.{◌++◌}
use certora_aicomposer.Prelude.{
  zero, String, Bool, true, false, not, ◌&&◌, ◌||◌, List, [], ◌∷◌, Option, none, some,
  if◌then◌else◌,
}
use certora_aicomposer.Text
use certora_aicomposer.Prover.Types.{
  StatusCodes, RulePath, rule_path, RuleResult, RuleNotificationMessages, RuleNodeModel, NodeList,
  CallTraceModel,
}
use certora_aicomposer.Prover.TreeView.CallTrace.{calltrace_to_xml}

-- A failed `assert`, and an error of reading a dump.
pub data Error : Type 0 where
  assertion_error read_error : Error

pub data Result {ℓ} (A : Type ℓ) : Type ℓ where
  ok : A → Result A
  raise : Error → Result A

infixl 5 ◌>>=◌
abbrev pub ◌>>=◌ {ℓ κ} : {A : Type ℓ} {B : Type κ} → Result A → (A → Result B) → Result B
ok a >>= f = f a
raise e >>= f = raise e

unfoldable pub to_status_string : Option String → StatusCodes
to_status_string none = StatusCodes.error
to_status_string (some s) =
    if s == "VIOLATED"
    then StatusCodes.violated
    else if s == "VERIFIED"
    then StatusCodes.verified
    else if s == "TIMEOUT"
    then StatusCodes.timeout
    else if s == "SANITY_FAILED"
    then StatusCodes.sanity_failed
    else if s == "SKIPPED"
    then StatusCodes.skipped
    else StatusCodes.error

abbrev pub node_status : RuleNodeModel → StatusCodes
node_status (RuleNodeModel.node _ _ _ status _ _) = to_status_string status

abbrev pub node_type : RuleNodeModel → String
node_type (RuleNodeModel.node _ _ _ _ type _) = type

-- A set of messages, in the order in which they are added.
unfoldable pub set_add : List String → String → List String
set_add [] m = m ∷ []
set_add (x ∷ xs) m = let rest = set_add xs m in if x == m then x ∷ xs else x ∷ rest

unfoldable pub add_errors :
    (String → Bool) → List RuleNotificationMessages → List String → List String
add_errors sev_filter [] messages = messages
add_errors sev_filter (m ∷ errors) messages =
    add_errors sev_filter errors
      (if sev_filter m.severity then set_add messages m.message else messages)

abbrev pub is_error : StatusCodes → Bool
is_error StatusCodes.error = true
is_error _ = false

unfoldable mutual
  pub collect_child_errors : RuleNodeModel → (String → Bool) → List String → List String
  collect_child_errors (RuleNodeModel.node name output children status type errors) sev_filter
        messages =
      let collected =
        collect_from_children children sev_filter (add_errors sev_filter errors messages) in
      if is_error (to_status_string status) then collected else messages

  pub collect_from_children : NodeList → (String → Bool) → List String → List String
  collect_from_children NodeList.no_nodes sev_filter messages = messages
  collect_from_children (NodeList.one_more c rest) sev_filter messages =
      collect_from_children rest sev_filter (collect_child_errors c sev_filter messages)

-- `sub in s`
abbrev is_in : String → String → Bool
is_in sub s = elim (find? s sub) [ none ↦ false | some _ ↦ true ]

-- A node of an induction step: `Contract.method` sets both fields.
unfoldable pub step_path : RulePath → String → RulePath
step_path path name = elim (find? name ".") [
  | none ↦ record path { method = some name }
  | some dot ↦ record path { contract = some (slice name zero dot); method = some name }
]

abbrev is_custom_step : Option String → Bool
is_custom_step none = false
is_custom_step (some type) = type == "CUSTOM_INDUCTION_STEP"

unfoldable pub effective_path : RulePath → String → String → Option String → RulePath
unfolding step_path
effective_path path name type parent_type =
    if type == "METHOD_INSTANTIATION"
    then record path { method = some name }
    else if type == "CONTRACT"
    then record path { contract = some name }
    else if type == "INVARIANT_SUBCHECK"
    then (if is_in "constructor" name then record path { method = some "constructor" } else path)
    else if (type == "INDUCTION_STEPS") && is_custom_step parent_type
    then step_path path name
    else path

-- `any([c.nodeType != type for c in children])` and `any([c.nodeType == type …])`
unfoldable pub any_other : String → NodeList → Bool
any_other type NodeList.no_nodes = false
any_other type (NodeList.one_more c rest) = not (node_type c == type) || any_other type rest

unfoldable pub any_of : String → NodeList → Bool
any_of type NodeList.no_nodes = false
any_of type (NodeList.one_more c rest) = (node_type c == type) || any_of type rest

abbrev pub is_leaf : NodeList → Bool
is_leaf NodeList.no_nodes = true
is_leaf (NodeList.one_more _ _) = false

-- The messages of the severities that a skipped node reports.
unfoldable pub warnings : List RuleNotificationMessages → List String
warnings [] = []
warnings (m ∷ errors) =
    if (m.severity == "error") || (m.severity == "warning")
    then m.message ∷ warnings errors
    else warnings errors

abbrev pub result_of : RulePath → StatusCodes → RuleResult
result_of path status = record {
  path = path;
  cex_dump = none;
  status = status;
  error_messages = [];
}

module _ (read_dump : String → Option (Option CallTraceModel)) where
  cex_text : Option CallTraceModel → Option String
  cex_text none = none
  cex_text (some cex_node) =
      some
        (Text.◌++◌ "<counterexample>" (Text.◌++◌ (calltrace_to_xml cex_node) "</counterexample>"))

  -- The result of a violated assertion, from the dump that the node names first.
  unfoldable pub violated_result : RulePath → StatusCodes → List String → Result (List RuleResult)
  unfolding cex_text
  violated_result path StatusCodes.violated (output_file ∷ _) = elim (read_dump output_file) [
    | none ↦ raise read_error
    | some trace ↦
        ok (record (result_of path StatusCodes.violated) { cex_dump = cex_text trace } ∷ [])
  ]
  violated_result path _ _ = raise assertion_error

  abbrev pub sanity_result : RulePath → StatusCodes → Result (List RuleResult)
  sanity_result path StatusCodes.sanity_failed = ok (result_of path StatusCodes.sanity_failed ∷ [])
  sanity_result path _ = raise assertion_error

  -- The branches after the status checks, for a timeout, a violation or a failed sanity check.
  unfoldable pub failed_results :
      RulePath
      → StatusCodes
      → String
      → List String
      → NodeList
      → Result (List RuleResult)
      → Result (List RuleResult)
  failed_results path stat type output children below =
      if any_of "VIOLATED_ASSERT" children
      then violated_result path stat output
      else if type == "SANITY"
      then sanity_result path stat
      else below

  -- The branches of `flatten_tree_view`, given what the children give.
  unfoldable pub node_results :
      RulePath
      → StatusCodes
      → String
      → List String
      → NodeList
      → List String
      → List RuleNotificationMessages
      → Result (List RuleResult)
      → Result (List RuleResult)
  node_results path StatusCodes.error type output children messages errors below =
      ok (record (result_of path StatusCodes.error) { error_messages = messages } ∷ [])
  node_results path StatusCodes.skipped type output children messages errors below =
      ok (record (result_of path StatusCodes.skipped) { error_messages = warnings errors } ∷ [])
  node_results path StatusCodes.verified type output children messages errors below =
      if any_other "SANITY" children then below else ok (result_of path StatusCodes.verified ∷ [])
  node_results path StatusCodes.timeout type output children messages errors below =
      if is_leaf children
      then ok (result_of path StatusCodes.timeout ∷ [])
      else failed_results path StatusCodes.timeout type output children below
  node_results path stat type output children messages errors below =
      failed_results path stat type output children below

  unfoldable mutual
    pub flatten_tree_view : RuleNodeModel → RulePath → Option String → Result (List RuleResult)
    flatten_tree_view (RuleNodeModel.node name output children status type errors) path
          parent_type =
        let here = effective_path path name type parent_type in
        node_results here (to_status_string status) type output children
          (collect_child_errors (RuleNodeModel.node name output children status type errors)
            (λ sev. sev == "error") [])
          errors (flatten_children children here type)

    -- `_flat_yield` over the children, all of whose results are read.
    pub flatten_children : NodeList → RulePath → String → Result (List RuleResult)
    flatten_children NodeList.no_nodes path type = ok []
    flatten_children (NodeList.one_more c rest) path type = do
      results ← flatten_tree_view c path (some type)
      more ← flatten_children rest path type
      ok (results ++ more)

  unfoldable pub flatten_tree_view_root : RuleNodeModel → Result (List RuleResult)
  flatten_tree_view_root (RuleNodeModel.node name output children status type errors) =
      if type == "ROOT"
      then flatten_tree_view (RuleNodeModel.node name output children status type errors)
          (rule_path name) none
      else raise assertion_error
