-- ===== src/Pipeline/Linked.antt =====
-- The inputs of the report in composer/spec/source/common_pipeline.py have the links of their own runs, if the
-- slugs are different.
use certora_aicomposer.Prelude.{String, List, [], ◌∷◌, Option, none, some, ◌≡◌, refl, sym, ◌∙◌}
use certora_aicomposer.Sets.{text_eq, NotIn, Distinct, All, All-append}
use certora_aicomposer.KeyMap.{get, get-put_self, get-put_ne}
use certora_aicomposer.Report.Collect.{Outcome, ReportComponentInput}
use certora_aicomposer.Pipeline.Components.{
  ComponentBatch, invariant_key, link_of, put_link, component_runs, InvariantResult, put_invariants,
  all_runs, report_inputs, invariant_input, report_components,
}

abbrev pub slugs : List ComponentBatch → List String
slugs [] = []
slugs (b ∷ batches) = b.slug ∷ slugs batches

put_link_self :
    (k : String) (o : Option String) (runs : List (String × String))
    → get k runs ≡ none
    → get k (put_link k o runs) ≡ o
put_link_self k none runs h = h
put_link_self k (some link) runs h = get-put_self k link runs

put_link_other :
    (k j : String) (o : Option String) (runs : List (String × String))
    → ¬ (k ≡ j)
    → get j (put_link k o runs) ≡ get j runs
put_link_other k j none runs n = refl
put_link_other k j (some link) runs n = get-put_ne k j link runs n

runs_other :
    (j : String) (batches : List ComponentBatch) (runs : List (String × String))
    → NotIn j (slugs batches)
    → get j (component_runs runs batches) ≡ get j runs
unfolding component_runs
runs_other j [] runs n = refl
runs_other j (b ∷ batches) runs n =
    runs_other j batches (put_link b.slug (link_of b.result) runs) n.1
    ∙ put_link_other b.slug j (link_of b.result) runs n.0

-- The link under each slug is that of the component's own result.
abbrev Own : List (String × String) → List ComponentBatch → Type 0
Own runs batches = All (λ b. get b.slug runs ≡ link_of b.result) batches

runs-Own :
    (batches : List ComponentBatch) (runs : List (String × String))
    → Distinct (slugs batches)
    → All (λ b. get b.slug runs ≡ none) batches
    → Own (component_runs runs batches) batches
unfolding component_runs
runs-Own [] runs d n = tt
runs-Own (b ∷ batches) runs d n =
    let next : List (String × String) = put_link b.slug (link_of b.result) runs in
    (
      runs_other b.slug batches next d.0 ∙ put_link_self b.slug (link_of b.result) runs n.0,
      runs-Own batches next d.1 (still batches d.0 n.1),
    )
  where
    still :
        (bs : List ComponentBatch)
        → NotIn b.slug (slugs bs)
        → All (λ c. get c.slug runs ≡ none) bs
        → All (λ c. get c.slug (put_link b.slug (link_of b.result) runs) ≡ none) bs
    still [] m a = tt
    still (c ∷ bs) m a = (
      put_link_other b.slug c.slug (link_of b.result) runs (λ e. m.0 (sym e)) ∙ a.0,
      still bs m.1 a.1,
    )

-- The invariants are written under their own key.
invariants-Own :
    (inv : Option InvariantResult) (runs : List (String × String)) (batches : List ComponentBatch)
    → NotIn invariant_key (slugs batches)
    → Own runs batches
    → Own (put_invariants inv runs) batches
invariants-Own none runs batches n o = o
invariants-Own (some inv) runs [] n o = tt
invariants-Own (some inv) runs (b ∷ batches) n o = (
  put_link_other invariant_key b.slug (link_of (Outcome.generated inv.cvl)) runs (λ e. n.0 (sym e))
      ∙ o.0,
  invariants-Own (some inv) runs batches n.1 o.1,
)

-- The input has the link of its own result.
abbrev pub HasOwnLink : ReportComponentInput → Type 0
HasOwnLink i = i.prover_link ≡ link_of i.result

inputs-HasOwnLink :
    (runs : List (String × String)) (batches : List ComponentBatch)
    → Own runs batches
    → All HasOwnLink (report_inputs runs batches)
unfolding report_inputs
inputs-HasOwnLink runs [] o = tt
inputs-HasOwnLink runs (b ∷ batches) o = (o.0, inputs-HasOwnLink runs batches o.1)

invariant-HasOwnLink :
    (inv : Option InvariantResult) (runs : List (String × String))
    → get invariant_key runs ≡ none
    → All HasOwnLink (invariant_input (put_invariants inv runs) inv)
invariant-HasOwnLink none runs n = tt
invariant-HasOwnLink (some inv) runs n =
    (put_link_self invariant_key (link_of (Outcome.generated inv.cvl)) runs n, tt)

none_yet : (batches : List ComponentBatch) → All (λ b. get {V = String} b.slug [] ≡ none) batches
unfolding get
none_yet [] = tt
none_yet (b ∷ batches) = (refl, none_yet batches)

-- If the slugs of the components are different, and none is the key of the structural invariants, then
-- every input of the report, that of the invariants included, has the link of its own result.
pub report_components-HasOwnLink :
    (batches : List ComponentBatch) (inv : Option InvariantResult)
    → Distinct (slugs batches)
    → NotIn invariant_key (slugs batches)
    → All HasOwnLink (report_components batches inv)
unfolding report_components all_runs get
report_components-HasOwnLink batches inv d n =
    let runs : List (String × String) = component_runs [] batches in
    All-append HasOwnLink (report_inputs (put_invariants inv runs) batches)
      (invariant_input (put_invariants inv runs) inv)
      (inputs-HasOwnLink (put_invariants inv runs) batches
        (invariants-Own inv runs batches n (runs-Own batches [] d (none_yet batches))))
      (invariant-HasOwnLink inv runs (runs_other invariant_key batches [] n))
