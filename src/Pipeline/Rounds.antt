-- ===== src/Pipeline/Rounds.antt =====
-- The rounds of composer/spec/prop_inference.py in which the properties of a component are extracted, with the
-- validator of their titles. What the agent submits in a round is a parameter: one result after the
-- other, of which the first one that the validator accepts is taken. The caches, the conversations and the
-- refinement with a user are left out.
use mathlib.Core.List.{◌++◌, flat_map}
use certora_aicomposer.Prelude.{
  ℕ, zero, suc, String, Bool, true, false, List, [], ◌∷◌, Option, none, some, map,
}
use certora_aicomposer.Sets.{text_eq, contains, add, set_of}
use certora_aicomposer.Sorting.{text_le, sorted_by}
use certora_aicomposer.Report.Schema.{PropertyFormulation}

pub record TitleCheck : Type 0 where
  pub seen : List String
  pub dupes : List String
  pub clashes : List String

abbrev pub noted : Bool → List String → String → List String
noted true xs title = add xs title
noted false xs title = xs

abbrev pub titles_in : List PropertyFormulation → List String
titles_in items = map (λ p. p.title) items

module _ (prior_titles : List String) where
  abbrev pub check_title : String → TitleCheck → TitleCheck
  check_title title st = record {
    seen = add st.seen title;
    dupes = noted (contains title st.seen) st.dupes title;
    clashes = noted (contains title prior_titles) st.clashes title;
  }

  unfoldable pub check_titles : List String → TitleCheck → TitleCheck
  check_titles [] st = st
  check_titles (t ∷ titles) st = check_titles titles (check_title t st)

  abbrev problems : List String → List String → Option (List String × List String)
  problems [] [] = none
  problems dupes clashes = some (sorted_by text_le dupes, sorted_by text_le clashes)

  abbrev pub checked : TitleCheck → Option (List String × List String)
  checked st = problems st.dupes st.clashes

  abbrev pub no_titles : TitleCheck
  no_titles = record { seen = []; dupes = []; clashes = [] }

-- The titles used twice and those of earlier rounds, if there are any.
unfoldable pub unique_titles_validator :
    List (List PropertyFormulation) → List PropertyFormulation → Option (List String × List String)
unique_titles_validator prev items =
    let prior : List String = set_of (titles_in (flat_map (λ r. r) prev)) in
    checked prior (check_titles prior (titles_in items) (no_titles prior))

-- The result of the extraction: a failed assertion, an agent that never submits an accepted result, or the
-- properties.
pub data Extraction : Type 0 where
  assertion_error unfinished : Extraction
  extracted : List PropertyFormulation → Extraction

-- The first result that the validator accepts.
abbrev pub taken :
    Option (List String × List String)
    → List PropertyFormulation
    → Option (List PropertyFormulation)
    → Option (List PropertyFormulation)
taken none items later = some items
taken (some titles) items later = later

unfoldable pub first_valid :
    List (List PropertyFormulation)
    → List (List PropertyFormulation)
    → Option (List PropertyFormulation)
first_valid prev [] = none
first_valid prev (items ∷ submitted) =
    taken (unique_titles_validator prev items) items (first_valid prev submitted)

-- `last_round_convo` is set exactly if there is a round before.
abbrev pub all_items : List (List PropertyFormulation) → Extraction
all_items [] = Extraction.assertion_error
all_items (r ∷ prev) = Extraction.extracted (flat_map (λ r. r) (r ∷ prev))

abbrev pub after_round :
    List (List PropertyFormulation)
    → Option (List PropertyFormulation)
    → (List (List PropertyFormulation) → Extraction)
    → Extraction
after_round prev none later = Extraction.unfinished
after_round prev (some []) later = all_items prev
after_round prev (some (p ∷ items)) later = later (prev ++ (p ∷ items) ∷ [])

module _ (submitted : ℕ → List (List PropertyFormulation)) where
  -- The loop of `_run_bug_analysis_inner` from the `i`-th round on, with the rounds before.
  unfoldable pub bug_rounds : ℕ → ℕ → List (List PropertyFormulation) → Extraction
  bug_rounds zero i prev = all_items prev
  bug_rounds (suc rounds) i prev =
      after_round prev (first_valid prev (submitted i)) (λ next. bug_rounds rounds (suc i) next)

  abbrev pub run_bug_analysis : ℕ → Extraction
  run_bug_analysis max_rounds = bug_rounds max_rounds 0 []
