-- ===== src/Printer/Method.antt =====
-- The printers of the `methods` block, of a top-level block and of the file in
-- composer/cvl/pretty_print.py.
use certora_aicomposer.Prelude.{
  zero, String, Bool, List, Option, none, some, map, length, if◌then◌else◌,
}
use certora_aicomposer.Text.{◌++◌, join, truthy}
use certora_aicomposer.Cvl.Block.{
  ImportSpec, ContractImport, ExpectClause, HavocKeyword, SummaryKeyword, CallSummary,
  PreReturnFlag, PostReturnFlags, MethodSignature, DispatchPattern, UnresolvedInTarget, MethodEntry,
}
use certora_aicomposer.Printer.Types.{print_vm_type, print_vm_param, maybe_contract, print_and_join}
use certora_aicomposer.Printer.Expression.{print_top}
use certora_aicomposer.Printer.Lines.{
  Printer, ◌>>◌, line, append, with_indent, with_line, for_each, for_enumerate, is_not_last,
  when_some,
}
use certora_aicomposer.Printer.Block.{is_nil}

unfoldable pub print_unresolved_target : UnresolvedInTarget → String
print_unresolved_target (UnresolvedInTarget.all_in_contract contract_name) = contract_name ++ "._"
print_unresolved_target UnresolvedInTarget.catch_all = "_._"
print_unresolved_target (UnresolvedInTarget.with_signature method_name params) =
    "_." ++ method_name ++ "(" ++ print_and_join params print_vm_param "" "" ++ ")"
print_unresolved_target (UnresolvedInTarget.specific_method host_contract param_types name) =
    maybe_contract host_contract
    ++ name
    ++ "("
    ++ print_and_join param_types print_vm_param "" ""
    ++ ")"

unfoldable pub to_cvl_bool : Bool → String
to_cvl_bool b = if b then "true" else "false"

unfoldable pub print_method_pattern : DispatchPattern → Bool → String
print_method_pattern (DispatchPattern.all_in_contract contract_name) add_comma =
    contract_name ++ "._" ++ (if add_comma then "," else "")
print_method_pattern (DispatchPattern.matching_signature host_contract method_name params)
      add_comma =
    maybe_contract host_contract
    ++ method_name
    ++ "("
    ++ print_and_join params print_vm_type "" ""
    ++ ")"
    ++ (if add_comma then "," else "")

-- `havoc_keyword.upper()`
unfoldable pub print_havoc_summary : HavocKeyword → String
print_havoc_summary HavocKeyword.nondet = "NONDET"
print_havoc_summary HavocKeyword.havoc_all = "HAVOC_ALL"
print_havoc_summary HavocKeyword.havoc_ecf = "HAVOC_ECF"
print_havoc_summary HavocKeyword.auto = "AUTO"
print_havoc_summary HavocKeyword.assert_false = "ASSERT_FALSE"

-- `summary_keyword.upper()`
unfoldable pub print_keyword_summary : SummaryKeyword → String
print_keyword_summary SummaryKeyword.constant = "CONSTANT"
print_keyword_summary SummaryKeyword.per_callee_constant = "PER_CALLEE_CONSTANT"

unfoldable pub print_dispatcher_summary : Bool → Bool → String
print_dispatcher_summary optimistic use_fallback =
    "DISPATCHER(use_fallback="
    ++ to_cvl_bool use_fallback
    ++ ", optimistic="
    ++ to_cvl_bool optimistic
    ++ ")"

expected : Option ExpectClause → String
expected none = ""
expected (some (ExpectClause.expect_type expected_types)) =
    print_and_join expected_types print_vm_type " expect (" ")"
expected (some ExpectClause.expect_void) = " expect void"

unfoldable pub print_summary : CallSummary → String
unfolding expected
print_summary (CallSummary.always expression) = "ALWAYS(" ++ print_top expression ++ ")"
print_summary (CallSummary.havocing havoc_keyword) = print_havoc_summary havoc_keyword
print_summary (CallSummary.keyword summary_keyword) = print_keyword_summary summary_keyword
print_summary (CallSummary.dispatcher optimistic use_fallback) =
    print_dispatcher_summary optimistic use_fallback
print_summary (CallSummary.expression expression expect_clause) =
    print_top expression ++ expected expect_clause

visibility_text : PreReturnFlag → String
visibility_text PreReturnFlag.internal = "internal"
visibility_text PreReturnFlag.external = "external"

flag_text : PostReturnFlags → String
flag_text PostReturnFlags.optional = "optional"
flag_text PostReturnFlags.envfree = "envfree"

unfoldable pub print_method_signature : MethodSignature → String
unfolding visibility_text flag_text
print_method_signature meth_sig =
    maybe_contract meth_sig.method_ref.contract
    ++ meth_sig.method_ref.method_name
    ++ print_and_join meth_sig.parameters print_vm_param "(" ")"
    ++ " "
    ++ visibility_text meth_sig.visibility
    ++ print_and_join meth_sig.return_types print_vm_param " returns (" ")"
    ++ (if is_nil meth_sig.post_flags
        then ""
        else " " ++ join " " (map flag_text meth_sig.post_flags))

unfoldable pub print_method_entry : MethodEntry → Printer
print_method_entry (MethodEntry.unresolved_dynamic method_ref summ) = with_line do
  append "unresolved external in "
  append (print_unresolved_target method_ref)
  append (
      "=> DISPATCH(use_fallback="
      ++ to_cvl_bool summ.use_fallback
      ++ ", optimistic="
      ++ to_cvl_bool summ.optimistic
      ++ ") [")
  with_indent (
      for_enumerate zero summ.patterns
        λ i elem. line (print_method_pattern elem (is_not_last i (length summ.patterns))))
  append "]"
  when_some summ.default_summary λ default. append (" default " ++ print_havoc_summary default)
  append ";"
print_method_entry (MethodEntry.catch_all contract_name summary) = with_line do
  append ("function " ++ contract_name ++ "._ external => ")
  append (print_havoc_summary summary)
  append ";"
print_method_entry (MethodEntry.imported_function signature summary with_env) = with_line do
  append "function "
  append (print_method_signature signature)
  when_some (truthy with_env) (λ env. append (" with (env " ++ env ++ ")"))
  when_some summary λ summ. do append " => "; append (print_summary summ)
  append ";"

unfoldable pub print_methods_block : List MethodEntry → Printer
print_methods_block method_entries = do
  line "methods {"
  with_indent (for_each method_entries print_method_entry)
  line "}"

unfoldable pub print_contract_import : ContractImport → String
print_contract_import imp = "using " ++ imp.contract_name ++ " as " ++ imp.as_name ++ ";"

unfoldable pub print_spec_import : ImportSpec → String
print_spec_import imp = "import \"" ++ imp.spec_file ++ "\";"
