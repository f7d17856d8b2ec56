-- ===== src/Printer/Layout/Parts.antt =====
-- The texts of the lines that the block printers of composer/cvl/pretty_print.py fill bit by bit.
use certora_aicomposer.Prelude.{String, Option, if◌then◌else◌}
use certora_aicomposer.Text.{◌++◌, truthy, is_empty}
use certora_aicomposer.Cvl.Block.{
  RuleBlock, SpecialMethod, ProofTarget, ProofBlock, Invariant, GhostType, GhostDef, LoadPattern,
  StorePattern, HookPattern, HavocKeyword, CallSummary, DispatchList, MethodSignature,
  UnresolvedInTarget,
}
use certora_aicomposer.Printer.Types.{
  print_cvl_type, print_type_and_id, print_namedvm_param, print_and_join,
}
use certora_aicomposer.Printer.Expression.{print_top}
use certora_aicomposer.Printer.Block.{
  is_nil, print_method_without_return, ghost_base_type, print_slot_pattern,
}
use certora_aicomposer.Printer.Method.{
  print_unresolved_target, to_cvl_bool, print_havoc_summary, print_method_signature, print_summary,
}
use certora_aicomposer.Printer.Appends.{optional}

unfoldable pub rule_head : RuleBlock → String
rule_head rule =
    let params = print_and_join rule.rule_params print_type_and_id "" "" in
    ("rule " ++ rule.rule_name) ++ (if is_empty params then "" else "(" ++ params ++ ")")

unfoldable pub target_text : ProofTarget → String
target_text (ProofTarget.special SpecialMethod.constructor) = " constructor()"
target_text (ProofTarget.special SpecialMethod.fallback) = "fallback()"
target_text ProofTarget.generic = ""
target_text (ProofTarget.specific_method sig) =
    " "
    ++ optional (truthy sig.host_contract) (λ host_contract. host_contract ++ ".")
    ++ print_method_without_return sig

unfoldable pub proof_head : ProofBlock → String
proof_head proof =
    "preserved"
    ++ target_text proof.target
    ++ optional proof.with_binding (λ binding. " with (env " ++ binding.id ++ ")")
    ++ " {"

unfoldable pub invariant_head : Invariant → String
invariant_head inv =
    ("invariant " ++ inv.name)
    ++ (if is_nil inv.invariant_params
        then ""
        else print_and_join inv.invariant_params print_type_and_id "(" ")")
    ++ " "
    ++ print_top inv.invariant_expression

unfoldable pub ghost_type_text : GhostDef → GhostType → String
ghost_type_text ghost (GhostType.ghost_fun params result_type) =
    ghost.ghost_name
    ++ "("
    ++ print_and_join params print_cvl_type "" ""
    ++ ") returns "
    ++ print_cvl_type result_type
ghost_type_text ghost (GhostType.ghost_type base_type) =
    print_cvl_type (ghost_base_type base_type) ++ " " ++ ghost.ghost_name

unfoldable pub ghost_head : GhostDef → String
ghost_head ghost =
    (if ghost.persistent then "persistent " else "")
    ++ "ghost "
    ++ ghost_type_text ghost ghost.ghost_type

unfoldable pub load_text : String → LoadPattern → String
load_text pattern_name patt =
    (pattern_name ++ " ")
    ++ (print_namedvm_param patt.value_param ++ " ")
    ++ print_slot_pattern patt.slot_pattern

unfoldable pub store_text : String → StorePattern → String
store_text pattern_name patt =
    (pattern_name ++ " ")
    ++ (print_slot_pattern patt.slot_pattern ++ " ")
    ++ print_namedvm_param patt.new_value_param
    ++ optional patt.old_value_param (λ old. " " ++ print_namedvm_param old)

unfoldable pub hook_text : HookPattern → String
hook_text (HookPattern.sstore patt) = store_text "Sstore" patt
hook_text (HookPattern.tstore patt) = store_text "Tstore" patt
hook_text (HookPattern.sload patt) = load_text "Sload" patt
hook_text (HookPattern.tload patt) = load_text "Tload" patt
hook_text (HookPattern.create param) = "CREATE (" ++ print_namedvm_param param ++ ")"
hook_text (HookPattern.opcode opcode_name input_params output_param) =
    opcode_name
    ++ (if is_nil input_params then "" else print_and_join input_params print_namedvm_param "(" ")")
    ++ optional output_param (λ output. " " ++ print_namedvm_param output)

unfoldable pub dispatch_head : UnresolvedInTarget → DispatchList → String
dispatch_head method_ref summ =
    "unresolved external in "
    ++ print_unresolved_target method_ref
    ++ "=> DISPATCH(use_fallback="
    ++ to_cvl_bool summ.use_fallback
    ++ ", optimistic="
    ++ to_cvl_bool summ.optimistic
    ++ ") ["

unfoldable pub dispatch_end : DispatchList → String
dispatch_end summ =
    "]" ++ optional summ.default_summary (λ d. " default " ++ print_havoc_summary d) ++ ";"

unfoldable pub catch_all_text : String → HavocKeyword → String
catch_all_text contract_name summary =
    ("function " ++ contract_name ++ "._ external => ") ++ print_havoc_summary summary ++ ";"

unfoldable pub imported_text : MethodSignature → Option CallSummary → Option String → String
imported_text signature summary with_env =
    "function "
    ++ print_method_signature signature
    ++ optional (truthy with_env) (λ env. " with (env " ++ env ++ ")")
    ++ optional summary (λ summ. " => " ++ print_summary summ)
    ++ ";"
