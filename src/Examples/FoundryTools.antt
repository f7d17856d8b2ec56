-- ===== src/Examples/FoundryTools.antt =====
-- A batch of composer/foundry/author.py: calls of its tools to the result that it returns. The hash of
-- these runs is the text itself, and the output of `forge` is the report of one test or of another.
use text.Mathlib.Text
use certora_aicomposer.Prelude.{
  String, true, false, List, [], ◌∷◌, none, some, ◌≡◌, refl, if◌then◌else◌,
}
use certora_aicomposer.Text.{strip}
use certora_aicomposer.Sets.{contains, add, add_all, minus}
use certora_aicomposer.KeyMap.{get, put, put_all}
use certora_aicomposer.Sorting.{sorted_by}
use certora_aicomposer.Generation.Gate.{skips_text, first_stale, remove}
use certora_aicomposer.Foundry.State.{PropertyTestMapping, merge_expected_failures}
use certora_aicomposer.Foundry.Mapping.{
  names_of, claim, check_test_mapping, check_test_mappings, check_test_titles, report_untied,
  validate_property_tests,
}
use certora_aicomposer.Foundry.Runner.{
  Loaded, TestResult, before_paren, test_result, test_results_of, parse_loaded, parse_forge_json,
  unexpected_failures, unexpected_passes, format_summary, failed_line, skipped_lines, passed_names,
  failed_results, skipped_names,
}
use certora_aicomposer.Foundry.Tools.{
  ForgeRun, Action, step, run, init_state, BatchFoundryResult, batch_result,
}
use certora_aicomposer.Foundry.History.{history}
use certora_aicomposer.Foundry.Certified.{Certified, publish-Certified}
use certora_aicomposer.Text.{join, decimal}

abbrev same_text : String → String
same_text s = s

abbrev report_of : String → Loaded
report_of signature =
    Loaded.loaded (
      record { test_results = (signature, record { status = "Success"; reason = none }) ∷ [] } ∷ [])

-- The output `a` is the report of the first test, and `b` of the second.
abbrev loads : String → Loaded
loads text = if Text.◌==◌ text "a" then report_of "test_a(uint256)" else report_of "test_b()"

abbrev titles : List String
titles = "solvency" ∷ []

abbrev mapping : String → List PropertyTestMapping
mapping test = record { property_title = "solvency"; tests = test ∷ [] } ∷ []

abbrev calls : List Action
calls =
    Action.put_test_raw "draft a"
    ∷ Action.forge_test none (ForgeRun.finished true "a")
    ∷ Action.feedback_tool true
    ∷ []

still_open : (run same_text loads titles calls init_state).failed ≡ none
unfolding run step parse_forge_json parse_loaded test_results_of test_result before_paren strip
    unexpected_failures unexpected_passes contains
still_open = refl

accepted :
    (step same_text loads titles
      (Action.publish "done" (mapping "test_a"))
      (run same_text loads titles calls init_state)).failed
    ≡ some false
unfolding run step parse_forge_json parse_loaded test_results_of test_result before_paren strip
    unexpected_failures unexpected_passes contains get put put_all skips_text first_stale
    validate_property_tests check_test_mappings check_test_mapping check_test_titles report_untied
    names_of claim add add_all minus sorted_by
accepted = refl

publish-Certified_example :
    Certified same_text loads titles
      (history same_text loads titles calls init_state)
      "done"
      (mapping "test_a")
      (run same_text loads titles calls init_state)
      (step same_text loads titles
        (Action.publish "done" (mapping "test_a"))
        (run same_text loads titles calls init_state))
publish-Certified_example =
    publish-Certified same_text loads titles calls "done" (mapping "test_a") still_open accepted

-- Another draft is put and tested, and the first one is put back: the stamps are those of the first, and
-- the names of the tests those of the other.
abbrev put_back : List Action
put_back =
    Action.put_test_raw "draft a"
    ∷ Action.forge_test none (ForgeRun.finished true "a")
    ∷ Action.feedback_tool true
    ∷ Action.put_test_raw "draft b"
    ∷ Action.forge_test (some "seed") (ForgeRun.finished true "b")
    ∷ Action.put_test_raw "draft a"
    ∷ Action.publish "done" (mapping "test_b")
    ∷ []

put_back_result :
    batch_result (run same_text loads titles put_back init_state)
    ≡ BatchFoundryResult.generated (record {
      commentary = "done";
      test_source = "draft a";
      skipped = [];
      property_tests = mapping "test_b";
      expected_failures = [];
      ran_tests = "test_b" ∷ [];
    })
unfolding run step parse_forge_json parse_loaded test_results_of test_result before_paren strip
    unexpected_failures unexpected_passes contains get put put_all skips_text first_stale
    validate_property_tests check_test_mappings check_test_mapping check_test_titles report_untied
    names_of claim add add_all minus sorted_by batch_result
put_back_result = refl

-- A test that passed is marked as expected to fail after the stamps.
abbrev marked : List Action
marked =
    Action.put_test_raw "draft a"
    ∷ Action.forge_test none (ForgeRun.finished true "a")
    ∷ Action.feedback_tool true
    ∷ Action.expect_test_failure "test_a" "known"
    ∷ Action.publish "done" (mapping "test_a")
    ∷ []

marked_result :
    batch_result (run same_text loads titles marked init_state)
    ≡ BatchFoundryResult.generated (record {
      commentary = "done";
      test_source = "draft a";
      skipped = [];
      property_tests = mapping "test_a";
      expected_failures = ("test_a", "known") ∷ [];
      ran_tests = "test_a" ∷ [];
    })
unfolding run step parse_forge_json parse_loaded test_results_of test_result before_paren strip
    unexpected_failures unexpected_passes contains get put put_all skips_text first_stale
    validate_property_tests check_test_mappings check_test_mapping check_test_titles report_untied
    names_of claim add add_all minus sorted_by batch_result merge_expected_failures remove
marked_result = refl

abbrev failed_b : TestResult
failed_b = record { name = "test_b"; status = "Failure"; reason = some "revert" }

summary_b :
    format_summary (failed_b ∷ []) (("test_b", "known") ∷ [])
    ≡ "forge test: 0 passed, 1 failed\n  FAIL test_b [expected-fail] — revert"
unfolding format_summary passed_names failed_results skipped_names skipped_lines failed_line join
    decimal contains
summary_b = refl
