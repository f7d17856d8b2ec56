-- ===== src/Printer/Block.antt =====
-- The printers of top-level blocks other than `methods` in composer/cvl/pretty_print.py.
use certora_aicomposer.Prelude.{
  zero, String, Bool, true, false, List, [], ◌∷◌, Option, none, some, map, length, if◌then◌else◌,
}
use certora_aicomposer.Text.{◌++◌, join, truthy, is_empty}
use certora_aicomposer.Cvl.Types.{CvlType, PrimitiveType}
use certora_aicomposer.Cvl.Expression.{FilteredBlock}
use certora_aicomposer.Cvl.Block.{
  RuleBlock, FunctionDef, MethodWithoutReturn, SpecialMethod, ProofTarget, ProofBlock, Invariant,
  SortDef, GhostBase, GhostType, GhostAxiom, GhostDef, MacroDef, SlotPattern, LoadPattern,
  StorePattern, HookPattern, HookDef,
}
use certora_aicomposer.Printer.Types.{
  print_cvl_type, print_type_and_id, print_namedvm_param, print_and_join,
}
use certora_aicomposer.Printer.Expression.{print_top}
use certora_aicomposer.Printer.Lines.{
  Printer, ◌>>◌, skip, line, append, with_indent, with_line, for_each, for_enumerate, is_not_last,
  when, unless, when_some,
}
use certora_aicomposer.Printer.Command.{print_code_block}

unfoldable pub filtered_line : FilteredBlock → Bool → String
filtered_line filtered append_comma =
    let text = filtered.method_param ++ " -> " ++ print_top filtered.e in
    if append_comma then text ++ "," else text

unfoldable pub print_filtered_block : FilteredBlock → Bool → Printer
print_filtered_block filtered append_comma = line (filtered_line filtered append_comma)

-- An optional list that counts as absent when it is empty.
abbrev pub filled {ℓ} : {A : Type ℓ} → Option (List A) → List A
filled none = []
filled (some xs) = xs

abbrev pub is_nil {ℓ} : {A : Type ℓ} → List A → Bool
is_nil [] = true
is_nil (_ ∷ _) = false

abbrev pub print_filters : List FilteredBlock → Printer
print_filters filters = do
  append " filtered {"
  with_indent (
      for_enumerate zero filters
        λ ind filt. print_filtered_block filt (is_not_last ind (length filters)))
  append "}"

unfoldable pub print_rule_block : RuleBlock → Printer
print_rule_block rule =
    let params = print_and_join rule.rule_params print_type_and_id "" "" in
    do
      with_line do
        append ("rule " ++ rule.rule_name)
        unless (is_empty params) (append ("(" ++ params ++ ")"))
        unless (is_nil (filled rule.filtered_block)) (print_filters (filled rule.filtered_block))
        append " {"
      with_indent (print_code_block rule.block)
      line "}"

returns_text : List String → String
returns_text [] = " {"
returns_text (only ∷ []) = " returns " ++ only ++ " {"
returns_text types = " returns (" ++ join ", " types ++ ") {"

unfoldable pub function_open : FunctionDef → String
unfolding returns_text
function_open func =
    "function "
    ++ func.name
    ++ "("
    ++ print_and_join func.params print_type_and_id "" ""
    ++ ")"
    ++ returns_text (map print_cvl_type func.return_value)

unfoldable pub print_function_def : FunctionDef → Printer
print_function_def func = do
  line (function_open func)
  with_indent (print_code_block func.block)
  line "}"

unfoldable pub print_method_without_return : MethodWithoutReturn → String
print_method_without_return sig =
    print_and_join sig.params print_namedvm_param (sig.name ++ "(") ")"

-- What follows `preserved`.
unfoldable pub print_proof_target : ProofTarget → Printer
print_proof_target (ProofTarget.special SpecialMethod.constructor) = append " constructor()"
print_proof_target (ProofTarget.special SpecialMethod.fallback) = append "fallback()"
print_proof_target ProofTarget.generic = skip
print_proof_target (ProofTarget.specific_method sig) = do
  append " "
  when_some (truthy sig.host_contract) (λ host_contract. append (host_contract ++ "."))
  append (print_method_without_return sig)

unfoldable pub print_proof_block : ProofBlock → Printer
print_proof_block proof = do
  with_line do
    append "preserved"
    print_proof_target proof.target
    when_some proof.with_binding (λ binding. append (" with (env " ++ binding.id ++ ")"))
    append " {"
  with_indent (print_code_block proof.block)
  line "}"

-- The line of an invariant; its last part is written only if there are proofs.
unfoldable pub print_invariant_line : Invariant → Printer
print_invariant_line inv = do
  append ("invariant " ++ inv.name)
  unless (is_nil inv.invariant_params)
      (append (print_and_join inv.invariant_params print_type_and_id "(" ")"))
  append (" " ++ print_top inv.invariant_expression)
  when_some inv.filter
      λ filter. do append " filtered {"; with_indent (print_filtered_block filter false); append "}"

unfoldable pub print_invariant : Invariant → Printer
print_invariant inv = if is_nil inv.proofs then with_line (print_invariant_line inv) else do
  with_line do print_invariant_line inv; append " {"
  with_indent (for_each inv.proofs print_proof_block)
  line "}"

unfoldable pub print_sort_def : SortDef → Printer
print_sort_def sort = line ("sort " ++ sort.sort_name ++ ";")

unfoldable pub ghost_base_type : GhostBase → CvlType
ghost_base_type (GhostBase.primitive_ghost (PrimitiveType.primitive type_name)) =
    CvlType.primitive type_name
ghost_base_type (GhostBase.mapping_ghost key_type value_type) = CvlType.mapping key_type value_type

unfoldable pub print_ghost_type : GhostDef → GhostType → Printer
print_ghost_type ghost (GhostType.ghost_fun params result_type) = do
  append ghost.ghost_name
  append "("
  append (print_and_join params print_cvl_type "" "")
  append ") returns "
  append (print_cvl_type result_type)
print_ghost_type ghost (GhostType.ghost_type base_type) = do
  append (print_cvl_type (ghost_base_type base_type))
  append (" " ++ ghost.ghost_name)

unfoldable pub print_ghost_line : GhostDef → Printer
print_ghost_line ghost = do
  when ghost.persistent (append "persistent ")
  append "ghost "
  print_ghost_type ghost ghost.ghost_type

unfoldable pub ghost_axiom_line : GhostAxiom → String
ghost_axiom_line ax =
    (if ax.initial then "init_state " else "") ++ "axiom " ++ print_top ax.exp ++ ";"

unfoldable pub print_ghost_axiom : GhostAxiom → Printer
print_ghost_axiom ax = line (ghost_axiom_line ax)

unfoldable pub print_ghost_def : GhostDef → Printer
print_ghost_def ghost =
    if is_nil ghost.axioms then (with_line do print_ghost_line ghost; append ";") else do
      with_line do print_ghost_line ghost; append " {"
      with_indent (for_each ghost.axioms print_ghost_axiom)
      line "}"

unfoldable pub macro_line : MacroDef → String
macro_line macro =
    "definition "
    ++ macro.id
    ++ print_and_join macro.params print_type_and_id "(" ")"
    ++ " returns "
    ++ print_cvl_type macro.result_type
    ++ " = "
    ++ print_top macro.exp
    ++ ";"

unfoldable pub print_macro_def : MacroDef → Printer
print_macro_def macro = line (macro_line macro)

unfoldable pub print_slot_pattern : SlotPattern → String
print_slot_pattern (SlotPattern.array_access base_pattern index_param) =
    print_slot_pattern base_pattern ++ "[INDEX " ++ print_namedvm_param index_param ++ "]"
print_slot_pattern (SlotPattern.named name) = name
print_slot_pattern (SlotPattern.field_access base_pattern field_name) =
    print_slot_pattern base_pattern ++ "." ++ field_name
print_slot_pattern (SlotPattern.map_access base_pattern key_param) =
    print_slot_pattern base_pattern ++ "[KEY " ++ print_namedvm_param key_param ++ "]"

-- The first argument is `_type_to_pattern_name` of the hook's type, with a space.
unfoldable pub print_load_pattern : String → LoadPattern → Printer
print_load_pattern pattern_name patt = do
  append (pattern_name ++ " ")
  append (print_namedvm_param patt.value_param ++ " ")
  append (print_slot_pattern patt.slot_pattern)

unfoldable pub print_store_pattern : String → StorePattern → Printer
print_store_pattern pattern_name patt = do
  append (pattern_name ++ " ")
  append (print_slot_pattern patt.slot_pattern ++ " ")
  append (print_namedvm_param patt.new_value_param)
  when_some patt.old_value_param (λ old. append (" " ++ print_namedvm_param old))

unfoldable pub print_hook_kind : HookPattern → Printer
print_hook_kind (HookPattern.sstore patt) = print_store_pattern "Sstore" patt
print_hook_kind (HookPattern.tstore patt) = print_store_pattern "Tstore" patt
print_hook_kind (HookPattern.sload patt) = print_load_pattern "Sload" patt
print_hook_kind (HookPattern.tload patt) = print_load_pattern "Tload" patt
print_hook_kind (HookPattern.create param) = append ("CREATE (" ++ print_namedvm_param param ++ ")")
print_hook_kind (HookPattern.opcode opcode_name input_params output_param) = do
  append opcode_name
  unless (is_nil input_params) (append (print_and_join input_params print_namedvm_param "(" ")"))
  when_some output_param λ output. do append " "; append (print_namedvm_param output)

unfoldable pub print_hook_pattern : HookPattern → Printer
print_hook_pattern pattern = with_line do append "hook "; print_hook_kind pattern; append " {"

unfoldable pub print_hook_def : HookDef → Printer
print_hook_def hook = do
  print_hook_pattern hook.pattern
  with_indent (print_code_block hook.block)
  line "}"
