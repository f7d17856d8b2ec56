-- ===== src/Examples/Rounds.antt =====
-- Rounds of the extraction of properties, composer/spec/prop_inference.py.
use certora_aicomposer.Prelude.{ℕ, zero, suc, String, List, [], ◌∷◌, ◌≡◌, refl}
use mathlib.Core.List.{flat_map}
use certora_aicomposer.Sets.{contains, add, add_all}
use certora_aicomposer.Sorting.{sorted_by}
use certora_aicomposer.Report.Schema.{PropertyType, Methods, PropertyFormulation}
use certora_aicomposer.Pipeline.Rounds.{
  check_titles, unique_titles_validator, Extraction, first_valid, bug_rounds, run_bug_analysis,
}
use certora_aicomposer.Pipeline.Unique.{Unique, run_bug_analysis-Unique}

abbrev property : String → PropertyFormulation
property title = record {
  title = title;
  methods = Methods.invariant;
  sort = PropertyType.invariant;
  description = "";
}

-- The second round repeats a title, which is rejected, and then has another one; the third has none.
abbrev submitted : ℕ → List (List PropertyFormulation)
submitted zero = (property "a" ∷ property "b" ∷ []) ∷ []
submitted (suc zero) = (property "a" ∷ []) ∷ (property "c" ∷ []) ∷ []
submitted _ = [] ∷ []

three :
    run_bug_analysis submitted 3
    ≡ Extraction.extracted (property "a" ∷ property "b" ∷ property "c" ∷ [])
unfolding bug_rounds first_valid unique_titles_validator check_titles contains add add_all sorted_by
    flat_map
three = refl

run_bug_analysis-Unique_example : Unique (property "a" ∷ property "b" ∷ property "c" ∷ [])
run_bug_analysis-Unique_example =
    run_bug_analysis-Unique submitted 3 (property "a" ∷ property "b" ∷ property "c" ∷ []) three

-- A component without properties: the assertion fails.
none_found : run_bug_analysis (λ i. [] ∷ []) 3 ≡ Extraction.assertion_error
unfolding bug_rounds first_valid unique_titles_validator check_titles add_all flat_map
none_found = refl
