-- ===== src/Timing/Summary.antt =====
-- `RunSummary` of composer/diagnostics/timing.py: what the tasks of a run report of their prover calls and
-- their tokens. A time is of any type with a zero and a sum; the current task is an argument.
use certora_aicomposer.Prelude.{ℕ, ◌+◌, String, Bool, List, [], ◌∷◌, Option, none, some, ◌||◌, ltb}
use mathlib.Core.List.{◌++◌}
use certora_aicomposer.Text.{truthy}
use certora_aicomposer.Sets.{text_eq}
use certora_aicomposer.KeyMap.{get, put}
use certora_aicomposer.KeyTotals.{pop}

pub record TokenTotals : Type 0 where
  pub input : ℕ
  pub output : ℕ
  pub cache_read : ℕ
  pub cache_write : ℕ

abbrev pub no_tokens : TokenTotals
no_tokens = record { input = 0; output = 0; cache_read = 0; cache_write = 0 }

-- `TokenTotals.__add__`
unfoldable pub plus : TokenTotals → TokenTotals → TokenTotals
plus t u = record {
  input = t.input + u.input;
  output = t.output + u.output;
  cache_read = t.cache_read + u.cache_read;
  cache_write = t.cache_write + u.cache_write;
}

-- `TokenTotals.__bool__`
unfoldable pub any_tokens : TokenTotals → Bool
any_tokens t = ltb 0 t.input || ltb 0 t.output || ltb 0 t.cache_read || ltb 0 t.cache_write

-- The keys of a `TokenUsageDict` that are read.
pub record TokenUsage : Type 0 where
  pub model_name : Option String
  pub input_tokens : ℕ
  pub output_tokens : ℕ
  pub cache_read_input_tokens : ℕ
  pub cache_creation_input_tokens : ℕ

unfoldable pub from_dict : TokenUsage → TokenTotals
from_dict u = record {
  input = u.input_tokens;
  output = u.output_tokens;
  cache_read = u.cache_read_input_tokens;
  cache_write = u.cache_creation_input_tokens;
}

abbrev pub text_or : Option String → String → String
text_or none other = other
text_or (some s) other = s

abbrev pub model_of : TokenUsage → String
model_of usage = text_or (truthy usage.model_name) "unknown"

abbrev pub tokens_or_none : Option TokenTotals → TokenTotals
tokens_or_none none = no_tokens
tokens_or_none (some t) = t

-- `task_id or get_current_task_id()`
abbrev pub task_or_current : Option String → Option String → Option String
task_or_current task_id current = elim (truthy task_id) [ some t ↦ some t | none ↦ current ]

module _ (F : Type 0) where
  pub record PhaseRecord : Type 0 where
    pub task_id : String
    pub label : String
    pub phase : String
    pub wall_s : F
    pub queue_wait_s : F
    pub error : Option String
    pub prover_s : F
    pub prover_calls : ℕ
    pub final_link : Option String
    pub token_usage_by_model : List (String × TokenTotals)

  pub record RunSummary : Type 0 where
    pub phases : List PhaseRecord
    pub prover_total_s : F
    pub prover_total_calls : ℕ
    pub active_prover_by_task : List (String × (F × ℕ))
    pub latest_link_by_task : List (String × String)
    pub token_usage_by_model : List (String × TokenTotals)
    pub active_tokens_by_task : List (String × List (String × TokenTotals))

-- `bucket[model] = bucket.get(model, TokenTotals()) + update`
unfoldable pub add_tokens :
    String → TokenTotals → List (String × TokenTotals) → List (String × TokenTotals)
add_tokens model update bucket = put model (plus (tokens_or_none (get model bucket)) update) bucket

abbrev pub bucket_or_empty : Option (List (String × TokenTotals)) → List (String × TokenTotals)
bucket_or_empty none = []
bucket_or_empty (some bucket) = bucket

module _ {F : Type 0} (zero_s : F) (plus_s : F → F → F) where
  abbrev pub calls_or_none : Option (F × ℕ) → F × ℕ
  calls_or_none none = (zero_s, 0)
  calls_or_none (some c) = c

  unfoldable pub record_phase :
      String → String → String → F → F → Option String → RunSummary F → RunSummary F
  record_phase task_id label phase wall_s queue_wait_s error s =
      let (prover_s, prover_calls) = calls_or_none (get task_id s.active_prover_by_task) in
      record s {
        phases =
            s.phases
            ++ record {
              task_id = task_id;
              label = label;
              phase = phase;
              wall_s = wall_s;
              queue_wait_s = queue_wait_s;
              error = error;
              prover_s = prover_s;
              prover_calls = prover_calls;
              final_link = get task_id s.latest_link_by_task;
              token_usage_by_model = bucket_or_empty (get task_id s.active_tokens_by_task);
            }
              ∷ [];
        active_prover_by_task = pop task_id s.active_prover_by_task;
        latest_link_by_task = pop task_id s.latest_link_by_task;
        active_tokens_by_task = pop task_id s.active_tokens_by_task;
      }

  abbrev pub count_call : F → RunSummary F → RunSummary F
  count_call duration_s s = record s {
    prover_total_s = plus_s s.prover_total_s duration_s;
    prover_total_calls = s.prover_total_calls + 1;
  }

  abbrev pub active_call : F → F × ℕ → F × ℕ
  active_call duration_s (prev_s, prev_n) = (plus_s prev_s duration_s, prev_n + 1)

  abbrev pub call_for : F → Option String → RunSummary F → RunSummary F
  call_for duration_s none s = s
  call_for duration_s (some task_id) s = record s {
    active_prover_by_task =
        put task_id (active_call duration_s (calls_or_none (get task_id s.active_prover_by_task)))
          s.active_prover_by_task;
  }

  unfoldable pub add_prover_call : Option String → F → Option String → RunSummary F → RunSummary F
  add_prover_call current duration_s task_id s =
      call_for duration_s (task_or_current task_id current) (count_call duration_s s)

  abbrev pub tokens_for : String → TokenTotals → Option String → RunSummary F → RunSummary F
  tokens_for model update none s = s
  tokens_for model update (some task_id) s = record s {
    active_tokens_by_task =
        put task_id
          (add_tokens model update (bucket_or_empty (get task_id s.active_tokens_by_task)))
          s.active_tokens_by_task;
  }

  unfoldable pub record_token_usage :
      Option String → TokenUsage → Option String → RunSummary F → RunSummary F
  record_token_usage current usage task_id s =
      tokens_for (model_of usage) (from_dict usage) (task_or_current task_id current) (record s {
        token_usage_by_model = add_tokens (model_of usage) (from_dict usage) s.token_usage_by_model;
      })

  abbrev pub link_for : String → Option String → RunSummary F → RunSummary F
  link_for link none s = s
  link_for link (some task_id) s = record s {
    latest_link_by_task = put task_id link s.latest_link_by_task;
  }

  unfoldable pub record_prover_link :
      Option String → String → Option String → RunSummary F → RunSummary F
  record_prover_link current link task_id s = link_for link (task_or_current task_id current) s

  unfoldable pub get_latest_link : Option String → Option String → RunSummary F → Option String
  get_latest_link current task_id s = elim (task_or_current task_id current) [
    | none ↦ none
    | some t ↦ get t s.latest_link_by_task
  ]

  -- What a task reports, with the current task at that time.
  pub data Action : Type 0 where
    phase_ends : String → String → String → F → F → Option String → Action
    prover_call : Option String → F → Option String → Action
    tokens_used : Option String → TokenUsage → Option String → Action
    prover_link : Option String → String → Option String → Action

  unfoldable pub step : Action → RunSummary F → RunSummary F
  step (Action.phase_ends task_id label phase wall_s queue_wait_s error) s =
      record_phase task_id label phase wall_s queue_wait_s error s
  step (Action.prover_call current duration_s task_id) s =
      add_prover_call current duration_s task_id s
  step (Action.tokens_used current usage task_id) s = record_token_usage current usage task_id s
  step (Action.prover_link current link task_id) s = record_prover_link current link task_id s

  unfoldable pub run : List Action → RunSummary F → RunSummary F
  run [] s = s
  run (a ∷ actions) s = run actions (step a s)

  abbrev pub empty_summary : RunSummary F
  empty_summary = record {
    phases = [];
    prover_total_s = zero_s;
    prover_total_calls = 0;
    active_prover_by_task = [];
    latest_link_by_task = [];
    token_usage_by_model = [];
    active_tokens_by_task = [];
  }

-- `sum(d.values(), TokenTotals())`
unfoldable pub sum_from : TokenTotals → List (String × TokenTotals) → TokenTotals
sum_from total [] = total
sum_from total ((model, t) ∷ d) = sum_from (plus total t) d

unfoldable pub total_tokens : {F : Type 0} → RunSummary F → TokenTotals
total_tokens s = sum_from no_tokens s.token_usage_by_model

-- The entry `by_phase` of `token_usage_summary`.
pub record PhaseTokens : Type 0 where
  pub task_id : String
  pub phase : String
  pub tokens : TokenTotals

abbrev phase_tokens : {F : Type 0} → PhaseRecord F → List (String × TokenTotals) → List PhaseTokens
phase_tokens p [] = []
phase_tokens p (u ∷ usage) =
    record { task_id = p.task_id; phase = p.phase; tokens = sum_from no_tokens (u ∷ usage) } ∷ []

unfoldable pub by_phase : {F : Type 0} → List (PhaseRecord F) → List PhaseTokens
by_phase [] = []
by_phase (p ∷ phases) = phase_tokens p p.token_usage_by_model ++ by_phase phases
