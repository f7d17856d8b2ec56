-- ===== src/Printer/Layout/Heads.antt =====
-- The open lines of the block printers of composer/cvl/pretty_print.py hold their texts.
use certora_aicomposer.Prelude.{String}
use certora_aicomposer.Text.{truthy}
use certora_aicomposer.Cvl.Block.{
  ProofTarget, SpecialMethod, GhostDef, GhostType, LoadPattern, StorePattern, HookPattern,
}
use certora_aicomposer.Printer.Block.{
  is_nil, print_proof_target, print_ghost_type, print_ghost_line, print_load_pattern,
  print_store_pattern, print_hook_kind,
}
use certora_aicomposer.Printer.Appends.{
  Appends, append-Appends, skip-Appends, seq-Appends, unless-Appends, when-Appends,
  when_some-Appends,
}
use certora_aicomposer.Printer.Layout.Parts.{
  target_text, ghost_type_text, ghost_head, load_text, store_text, hook_text,
}

-- A sequence that is not empty: its texts are appended one after the other.
pub target-Appends :
    (target : ProofTarget) → Appends (print_proof_target target) (target_text target)
unfolding print_proof_target target_text
target-Appends (ProofTarget.special SpecialMethod.constructor) = append-Appends _
target-Appends (ProofTarget.special SpecialMethod.fallback) = append-Appends _
target-Appends ProofTarget.generic = skip-Appends
target-Appends (ProofTarget.specific_method sig) = seq-Appends (append-Appends _) (
    seq-Appends (when_some-Appends (truthy sig.host_contract) (λ h. append-Appends _))
      (append-Appends _))

ghost_type-Appends :
    (ghost : GhostDef) (type : GhostType)
    → Appends (print_ghost_type ghost type) (ghost_type_text ghost type)
unfolding print_ghost_type ghost_type_text
ghost_type-Appends ghost (GhostType.ghost_fun params result_type) = seq-Appends (append-Appends _) (
    seq-Appends (append-Appends _)
      (seq-Appends (append-Appends _) (seq-Appends (append-Appends _) (append-Appends _))))
ghost_type-Appends ghost (GhostType.ghost_type base_type) =
    seq-Appends (append-Appends _) (append-Appends _)

pub ghost-Appends : (ghost : GhostDef) → Appends (print_ghost_line ghost) (ghost_head ghost)
unfolding print_ghost_line ghost_head
ghost-Appends ghost =
    seq-Appends (when-Appends ghost.persistent (append-Appends _))
      (seq-Appends (append-Appends _) (ghost_type-Appends ghost ghost.ghost_type))

load-Appends :
    (name : String) (patt : LoadPattern)
    → Appends (print_load_pattern name patt) (load_text name patt)
unfolding print_load_pattern load_text
load-Appends name patt =
    seq-Appends (append-Appends _) (seq-Appends (append-Appends _) (append-Appends _))

store-Appends :
    (name : String) (patt : StorePattern)
    → Appends (print_store_pattern name patt) (store_text name patt)
unfolding print_store_pattern store_text
store-Appends name patt = seq-Appends (append-Appends _) (
    seq-Appends (append-Appends _) (
      seq-Appends (append-Appends _)
        (when_some-Appends patt.old_value_param (λ old. append-Appends _))))

pub hook-Appends : (pattern : HookPattern) → Appends (print_hook_kind pattern) (hook_text pattern)
unfolding print_hook_kind hook_text
hook-Appends (HookPattern.sstore patt) = store-Appends "Sstore" patt
hook-Appends (HookPattern.tstore patt) = store-Appends "Tstore" patt
hook-Appends (HookPattern.sload patt) = load-Appends "Sload" patt
hook-Appends (HookPattern.tload patt) = load-Appends "Tload" patt
hook-Appends (HookPattern.create param) = append-Appends _
hook-Appends (HookPattern.opcode opcode_name input_params output_param) =
    seq-Appends (append-Appends _) (
      seq-Appends (unless-Appends (is_nil input_params) (append-Appends _)) (
        when_some-Appends output_param
          (λ output. seq-Appends (append-Appends _) (append-Appends _))))
