-- ===== src/Printer/Layout/RefinesBlock.antt =====
-- The block printers of composer/cvl/pretty_print.py write their layout.
use certora_aicomposer.Prelude.{
  String, Bool, true, false, List, [], ◌∷◌, ◌≡◌, refl, subst, if◌then◌else◌,
}
use certora_aicomposer.Text.{is_empty, truthy, is_empty-append, nil_text, text_assoc}
use certora_aicomposer.Text
use certora_aicomposer.Cvl.Block.{
  RuleBlock, ProofBlock, Invariant, GhostAxiom, GhostDef, HookDef, BasicBlock,
}
use certora_aicomposer.Printer.Lines.{◌>>◌, with_line, append}
use certora_aicomposer.Printer.Block.{
  filled, filtered_line, print_rule_block, print_function_def, print_proof_block,
  print_invariant_line, print_invariant, print_sort_def, print_ghost_line, print_ghost_axiom,
  print_ghost_def, print_macro_def, print_hook_pattern, print_hook_def,
}
use certora_aicomposer.Printer.Method.{print_methods_block}
use certora_aicomposer.Printer.File.{print_block_into}
use certora_aicomposer.Printer.Emits.{
  Emits, Fills, line-Emits, seq-Emits, indent-Emits, for_each-Emits, append-Fills, seq-Fills,
}
use certora_aicomposer.Printer.Appends.{
  append-Appends, seq-Appends, unless-Appends, when_some-Appends, line-Appends, separated,
}
use certora_aicomposer.Printer.Layout.Parts.{rule_head, proof_head, invariant_head, ghost_head}
use certora_aicomposer.Printer.Layout.Block.{
  one_filter, layout_rule, layout_proof, layout_invariant, layout_ghost, layout_hook, layout_block,
}
use certora_aicomposer.Printer.Layout.Refines.{print_commands-Emits}
use certora_aicomposer.Printer.Layout.Heads.{target-Appends, ghost-Appends, hook-Appends}
use certora_aicomposer.Printer.Layout.Filters.{
  filters-FilterPart, filter-FilterPart, filter_line-Emits, filter_only-Emits, from-Fills,
  filter_lines, filter_rest,
}
use certora_aicomposer.Printer.Layout.Starts.{starting_line-Emits, as_line-full, starts-with}
use certora_aicomposer.Printer.Layout.RefinesMethod.{entry-Emits}

rule-Emits : (rule : RuleBlock) → Emits (print_rule_block rule) (layout_rule rule)
unfolding print_rule_block layout_rule rule_head
rule-Emits rule =
    seq-Emits
      (filter_line-Emits (rule_head rule) (separated filtered_line (filled rule.filtered_block))
        " {" (starts-with _ _ (starts-with "rule " rule.rule_name refl))
        (seq-Fills (append-Fills _) (
          seq-Fills ((unless-Appends _ (append-Appends _)).fill _) (
            seq-Fills
              (from-Fills _ (rule_head rule) (simp nil_text)
                (filters-FilterPart (filled rule.filtered_block)))
              (append-Fills " {")))))
      (seq-Emits (indent-Emits (print_commands-Emits rule.block)) (line-Emits "}"))

proof-Emits : (proof : ProofBlock) → Emits (print_proof_block proof) (layout_proof proof)
unfolding print_proof_block layout_proof proof_head
proof-Emits proof =
    seq-Emits
      (starting_line-Emits "preserved" _ refl (
        seq-Appends (append-Appends _) (
          seq-Appends (target-Appends proof.target) (
            seq-Appends (when_some-Appends proof.with_binding (λ binding. append-Appends _))
              (append-Appends _)))))
      (seq-Emits (indent-Emits (print_commands-Emits proof.block)) (line-Emits "}"))

-- The invariant's line as far as its filter.
invariant_line-Fills :
    (inv : Invariant)
    → Fills
        (print_invariant_line inv)
        ""
        (filter_lines (invariant_head inv) (one_filter inv.filter))
        (filter_rest (invariant_head inv) (one_filter inv.filter))
unfolding print_invariant_line invariant_head
invariant_line-Fills inv = seq-Fills (append-Fills _) (
    seq-Fills ((unless-Appends _ (append-Appends _)).fill _) (
      seq-Fills (append-Fills _) (
        from-Fills _ (invariant_head inv) (simp (nil_text, text_assoc))
          (filter-FilterPart inv.filter))))

invariant_head-starts : (inv : Invariant) → is_empty (invariant_head inv) ≡ false
unfolding invariant_head
invariant_head-starts inv = starts-with _ _ (starts-with "invariant " inv.name refl)

-- Split on whether there are proofs.
invariant-Emits_by :
    (inv : Invariant) (proofs : List ProofBlock)
    → Emits
        (print_invariant (record inv { proofs = proofs }))
        (layout_invariant (record inv { proofs = proofs }))
unfolding print_invariant layout_invariant
invariant-Emits_by inv [] =
    let plain = record inv { proofs = [] } in
    filter_only-Emits (invariant_head plain) (one_filter inv.filter) (invariant_head-starts plain)
      (invariant_line-Fills plain)
invariant-Emits_by inv (proof ∷ proofs) =
    let proved = record inv { proofs = proof ∷ proofs } in
    seq-Emits
      (filter_line-Emits (invariant_head proved) (one_filter inv.filter) " {"
        (invariant_head-starts proved)
        (seq-Fills (invariant_line-Fills proved) (append-Fills " {")))
      (seq-Emits (indent-Emits (for_each-Emits (proof ∷ proofs) proof-Emits)) (line-Emits "}"))

invariant-Emits : (inv : Invariant) → Emits (print_invariant inv) (layout_invariant inv)
invariant-Emits inv = invariant-Emits_by inv inv.proofs

ghost_head-starts :
    (ghost : GhostDef) (t : String) → is_empty (Text.◌++◌ (ghost_head ghost) t) ≡ false
unfolding ghost_head
ghost_head-starts ghost t = starts-with _ t (either ghost.persistent _)
  where
    either :
        (b : Bool) (rest : String)
        → is_empty (Text.◌++◌ (if b then "persistent " else "") (Text.◌++◌ "ghost " rest)) ≡ false
    either true rest = starts-with "persistent " _ refl
    either false rest = rw nil_text (starts-with "ghost " rest refl)

ghost_line-Emits :
    (ghost : GhostDef) (t : String)
    → Emits (with_line (print_ghost_line ghost >> append t)) (Text.◌++◌ (ghost_head ghost) t ∷ [])
ghost_line-Emits ghost t =
    subst (Emits (with_line (print_ghost_line ghost >> append t)))
      (as_line-full _ (ghost_head-starts ghost t))
      (line-Appends (seq-Appends (ghost-Appends ghost) (append-Appends t)))

ghost-Emits_by :
    (ghost : GhostDef) (axioms : List GhostAxiom)
    → Emits
        (print_ghost_def (record ghost { axioms = axioms }))
        (layout_ghost (record ghost { axioms = axioms }))
unfolding print_ghost_def layout_ghost print_ghost_axiom
ghost-Emits_by ghost [] = ghost_line-Emits (record ghost { axioms = [] }) ";"
ghost-Emits_by ghost (ax ∷ axioms) =
    seq-Emits (ghost_line-Emits (record ghost { axioms = ax ∷ axioms }) " {")
      (seq-Emits (indent-Emits (for_each-Emits (ax ∷ axioms) (λ a. line-Emits _))) (line-Emits "}"))

hook-Emits : (hook : HookDef) → Emits (print_hook_def hook) (layout_hook hook)
unfolding print_hook_def layout_hook print_hook_pattern
hook-Emits hook =
    seq-Emits
      (starting_line-Emits "hook " _ refl (
        seq-Appends (append-Appends _)
          (seq-Appends (hook-Appends hook.pattern) (append-Appends _))))
      (seq-Emits (indent-Emits (print_commands-Emits hook.block)) (line-Emits "}"))

pub block-Emits : (block : BasicBlock) → Emits (print_block_into block) (layout_block block)
unfolding print_block_into layout_block print_function_def print_sort_def print_macro_def
    print_methods_block
block-Emits (BasicBlock.rule block) = rule-Emits block
block-Emits (BasicBlock.func_def block) =
    seq-Emits (line-Emits _)
      (seq-Emits (indent-Emits (print_commands-Emits block.block)) (line-Emits "}"))
block-Emits (BasicBlock.invariant block) = invariant-Emits block
block-Emits (BasicBlock.sort_decl block) = line-Emits _
block-Emits (BasicBlock.ghost_def block) = ghost-Emits_by block block.axioms
block-Emits (BasicBlock.macro_def block) = line-Emits _
block-Emits (BasicBlock.hook_def block) = hook-Emits block
block-Emits (BasicBlock.methods_block method_entries) =
    seq-Emits (line-Emits _)
      (seq-Emits (indent-Emits (for_each-Emits method_entries entry-Emits)) (line-Emits "}"))
