-- ===== src/Examples/Timing.antt =====
-- The accounts of a run of composer/diagnostics/timing.py, with times in seconds.
use certora_aicomposer.Prelude.{ℕ, ◌+◌, List, [], ◌∷◌, none, some, ◌≡◌, refl}
use certora_aicomposer.KeyMap.{get, put}
use certora_aicomposer.KeyTotals.{pop}
use certora_aicomposer.Timing.Summary.{
  TokenUsage, RunSummary, plus, from_dict, add_tokens, record_phase, add_prover_call,
  record_token_usage, record_prover_link, Action, step, run, empty_summary, sum_from, total_tokens,
  by_phase,
}
use certora_aicomposer.Timing.Amounts.{Field, stray_calls, stray_used, sum_of}
use certora_aicomposer.Timing.Accounts.{Agree, run-Agree}

abbrev seconds : ℕ → ℕ → ℕ
seconds a b = a + b

abbrev one_call : TokenUsage
one_call = record {
  model_name = some "opus";
  input_tokens = 10;
  output_tokens = 2;
  cache_read_input_tokens = 0;
  cache_creation_input_tokens = 1;
}

-- A task uses tokens, calls the prover and ends; another call has no task.
abbrev reports : List (Action 0 seconds)
reports =
    Action.tokens_used (some "t1") one_call none
    ∷ Action.prover_link (some "t1") "link" none
    ∷ Action.prover_call none 30 (some "t1")
    ∷ Action.phase_ends "t1" "Task" "cvl" 40 1 none
    ∷ Action.prover_call none 5 none
    ∷ Action.tokens_used none one_call (some "")
    ∷ []

abbrev summary : RunSummary ℕ
summary = run 0 seconds reports (empty_summary 0 seconds)

counted : (summary.prover_total_calls ≡ 2) × ((total_tokens summary).input ≡ 20)
unfolding run step add_prover_call record_token_usage record_prover_link record_phase add_tokens
    plus from_dict get put pop total_tokens sum_from
counted = (refl, refl)

one_phase :
    by_phase summary.phases
    ≡ record {
      task_id = "t1";
      phase = "cvl";
      tokens = record { input = 10; output = 2; cache_read = 0; cache_write = 1 };
    }
      ∷ []
unfolding run step add_prover_call record_token_usage record_prover_link record_phase add_tokens
    plus from_dict get put pop by_phase sum_from
one_phase = refl

run-Agree_example :
    Agree 0 seconds Field.input "opus"
      (sum_of 0 seconds (stray_calls 0 seconds) reports)
      (sum_of 0 seconds (stray_used 0 seconds Field.input "opus") reports)
      summary
run-Agree_example = run-Agree 0 seconds Field.input "opus" reports
