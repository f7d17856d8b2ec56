-- ===== src/Timing/Accounts.antt =====
-- The accounts of composer/diagnostics/timing.py: what a run counts in all is what its phases, its tasks in
-- flight and the calls without a task have counted.
use certora_aicomposer.Prelude.{
  ℕ, ◌+◌, String, List, [], ◌∷◌, Option, none, some, ◌≡◌, refl, ◌∙◌, arith,
}
use certora_aicomposer.Sets.{text_eq}
use certora_aicomposer.KeyMap.{get}
use certora_aicomposer.KeyTotals.{total, total-pop}
use certora_aicomposer.Timing.Summary.{
  TokenTotals, TokenUsage, from_dict, model_of, task_or_current, PhaseRecord, RunSummary,
  add_tokens, bucket_or_empty, calls_or_none, record_phase, count_call, call_for, add_prover_call,
  tokens_for, record_token_usage, link_for, record_prover_link, Action, step, run, empty_summary,
}
use certora_aicomposer.Timing.Amounts.{
  Field, amount-no_tokens, used, added, added-used, calls_of, phase_calls, phase_used,
  phase_calls-snoc, phase_used-snoc, stray_call, stray_usage, stray_calls, stray_used, sum_of,
  popped-calls, active-calls, bucket-used, active-tokens,
}

-- A phase takes over what its task had in flight.
moved :
    (all phases active stray of_phase phases' active' popped : ℕ)
    → all ≡ (phases + active) + stray
    → phases' ≡ phases + of_phase
    → active' + popped ≡ active
    → of_phase ≡ popped
    → all ≡ (phases' + active') + stray
moved all phases active stray of_phase phases' active' popped h p a e = omega arith

-- A count for no task.
strayed : (all sum stray n : ℕ) → all ≡ sum + stray → all + n ≡ sum + (stray + n)
strayed all sum stray n h = omega arith

-- A count for a task in flight.
tasked :
    (all phases active stray n active' : ℕ)
    → all ≡ (phases + active) + stray
    → active' ≡ active + n
    → all + n ≡ (phases + active') + (stray + 0)
tasked all phases active stray n active' h a = omega arith

zero_in : (sum n : ℕ) → sum + (0 + n) ≡ sum + n
zero_in sum n = omega arith

plus_zero_in : (sum stray : ℕ) → sum + stray ≡ sum + (stray + 0)
plus_zero_in sum stray = omega arith

assoc_in : (sum a b c : ℕ) → sum + ((a + b) + c) ≡ sum + (a + (b + c))
assoc_in sum a b c = omega arith

module _ {F : Type 0} (zero_s : F) (plus_s : F → F → F) where
  -- The accounts agree, with what came for no task.
  pub record Agree (f : Field) (model : String) (calls tokens : ℕ) (s : RunSummary F) : Type 0 where
    pub calls_agree :
        s.prover_total_calls
        ≡ (phase_calls s.phases + total calls_of s.active_prover_by_task) + calls
    pub tokens_agree :
        used f model s.token_usage_by_model
        ≡ (phase_used f model s.phases + total (used f model) s.active_tokens_by_task) + tokens

  module _ (f : Field) (model : String) where
    phase-Agree :
        (task_id label phase : String) (wall_s queue_wait_s : F) (error : Option String)
        (calls tokens : ℕ) (s : RunSummary F)
        → Agree f model calls tokens s
        → Agree f model calls tokens
            (record_phase zero_s plus_s task_id label phase wall_s queue_wait_s error s)
    unfolding record_phase
    phase-Agree task_id label phase wall_s queue_wait_s error calls tokens s a =
        let old : Option (F × ℕ) = get task_id s.active_prover_by_task in
        let bucket : Option (List (String × TokenTotals)) = get task_id s.active_tokens_by_task in
        let p : PhaseRecord F = record {
          task_id = task_id;
          label = label;
          phase = phase;
          wall_s = wall_s;
          queue_wait_s = queue_wait_s;
          error = error;
          prover_s = (calls_or_none zero_s plus_s old).0;
          prover_calls = (calls_or_none zero_s plus_s old).1;
          final_link = get task_id s.latest_link_by_task;
          token_usage_by_model = bucket_or_empty bucket;
        } in
        record {
          calls_agree =
              moved _ _ _ calls _ _ _ _ a.calls_agree (phase_calls-snoc s.phases p)
                (total-pop calls_of task_id s.active_prover_by_task)
                (popped-calls zero_s plus_s old);
          tokens_agree =
              moved _ _ _ tokens _ _ _ _ a.tokens_agree (phase_used-snoc f model s.phases p)
                (total-pop (used f model) task_id s.active_tokens_by_task)
                (bucket-used zero_s plus_s f model bucket);
        }

    call-Agree :
        (o : Option String) (duration_s : F) (calls tokens : ℕ) (s : RunSummary F)
        → Agree f model calls tokens s
        → Agree f model
            (calls + stray_call zero_s plus_s o)
            (tokens + 0)
            (call_for zero_s plus_s duration_s o (count_call zero_s plus_s duration_s s))
    call-Agree none duration_s calls tokens s a = record {
      calls_agree = strayed _ _ calls 1 a.calls_agree;
      tokens_agree = a.tokens_agree ∙ plus_zero_in _ tokens;
    }
    call-Agree (some task_id) duration_s calls tokens s a = record {
      calls_agree =
          tasked _ _ _ calls 1 _ a.calls_agree
            (active-calls zero_s plus_s task_id duration_s s.active_prover_by_task);
      tokens_agree = a.tokens_agree ∙ plus_zero_in _ tokens;
    }

    usage-Agree :
        (o : Option String) (usage : TokenUsage) (calls tokens : ℕ) (s : RunSummary F)
        → Agree f model calls tokens s
        → Agree f model (calls + 0) (tokens + stray_usage zero_s plus_s o (added f model usage)) (
            tokens_for zero_s plus_s (model_of usage) (from_dict usage) o (record s {
              token_usage_by_model =
                  add_tokens (model_of usage) (from_dict usage) s.token_usage_by_model;
            }))
    usage-Agree none usage calls tokens s a = record {
      calls_agree = a.calls_agree ∙ plus_zero_in _ calls;
      tokens_agree =
          added-used f model usage s.token_usage_by_model
          ∙ strayed _ _ tokens (added f model usage) a.tokens_agree;
    }
    usage-Agree (some task_id) usage calls tokens s a = record {
      calls_agree = a.calls_agree ∙ plus_zero_in _ calls;
      tokens_agree =
          added-used f model usage s.token_usage_by_model
          ∙ tasked _ _ _ tokens (added f model usage) _ a.tokens_agree
              (active-tokens zero_s plus_s f model task_id usage s.active_tokens_by_task);
    }

    link-Agree :
        (o : Option String) (link : String) (calls tokens : ℕ) (s : RunSummary F)
        → Agree f model calls tokens s
        → Agree f model (calls + 0) (tokens + 0) (link_for zero_s plus_s link o s)
    link-Agree none link calls tokens s a = record {
      calls_agree = a.calls_agree ∙ plus_zero_in _ calls;
      tokens_agree = a.tokens_agree ∙ plus_zero_in _ tokens;
    }
    link-Agree (some task_id) link calls tokens s a = record {
      calls_agree = a.calls_agree ∙ plus_zero_in _ calls;
      tokens_agree = a.tokens_agree ∙ plus_zero_in _ tokens;
    }

    step-Agree :
        (a : Action zero_s plus_s) (calls tokens : ℕ) (s : RunSummary F)
        → Agree f model calls tokens s
        → Agree f model
            (calls + stray_calls zero_s plus_s a)
            (tokens + stray_used zero_s plus_s f model a)
            (step zero_s plus_s a s)
    unfolding step add_prover_call record_token_usage record_prover_link
    step-Agree (Action.phase_ends task_id label phase wall_s queue_wait_s error) calls tokens s h =
        let n : Agree f model calls tokens
            (record_phase zero_s plus_s task_id label phase wall_s queue_wait_s error s) =
          phase-Agree task_id label phase wall_s queue_wait_s error calls tokens s h in
        record {
          calls_agree = n.calls_agree ∙ plus_zero_in _ calls;
          tokens_agree = n.tokens_agree ∙ plus_zero_in _ tokens;
        }
    step-Agree (Action.prover_call current duration_s task_id) calls tokens s h =
        call-Agree (task_or_current task_id current) duration_s calls tokens s h
    step-Agree (Action.tokens_used current usage task_id) calls tokens s h =
        usage-Agree (task_or_current task_id current) usage calls tokens s h
    step-Agree (Action.prover_link current link task_id) calls tokens s h =
        link-Agree (task_or_current task_id current) link calls tokens s h

    steps-Agree :
        (actions : List (Action zero_s plus_s)) (calls tokens : ℕ) (s : RunSummary F)
        → Agree f model calls tokens s
        → Agree f model
            (calls + sum_of zero_s plus_s (stray_calls zero_s plus_s) actions)
            (tokens + sum_of zero_s plus_s (stray_used zero_s plus_s f model) actions)
            (run zero_s plus_s actions s)
    unfolding run
    steps-Agree [] calls tokens s h = record {
      calls_agree = h.calls_agree ∙ plus_zero_in _ calls;
      tokens_agree = h.tokens_agree ∙ plus_zero_in _ tokens;
    }
    steps-Agree (a ∷ actions) calls tokens s h =
        let n : Agree f model
            ((calls + stray_calls zero_s plus_s a)
              + sum_of zero_s plus_s (stray_calls zero_s plus_s) actions)
            ((tokens + stray_used zero_s plus_s f model a)
              + sum_of zero_s plus_s (stray_used zero_s plus_s f model) actions)
            (run zero_s plus_s actions (step zero_s plus_s a s)) =
          steps-Agree actions (calls + stray_calls zero_s plus_s a)
            (tokens + stray_used zero_s plus_s f model a) (step zero_s plus_s a s)
            (step-Agree a calls tokens s h) in
        record {
          calls_agree =
              n.calls_agree
              ∙ assoc_in _ calls (stray_calls zero_s plus_s a)
                  (sum_of zero_s plus_s (stray_calls zero_s plus_s) actions);
          tokens_agree =
              n.tokens_agree
              ∙ assoc_in _ tokens (stray_used zero_s plus_s f model a)
                  (sum_of zero_s plus_s (stray_used zero_s plus_s f model) actions);
        }

    -- After any reports of the tasks of a run, the calls of the prover that it has counted in all are those
    -- of its phases, of the tasks in flight and the ones for no task; and so are the tokens of each
    -- model, of each kind.
    pub run-Agree :
        (actions : List (Action zero_s plus_s))
        → Agree f model
            (sum_of zero_s plus_s (stray_calls zero_s plus_s) actions)
            (sum_of zero_s plus_s (stray_used zero_s plus_s f model) actions)
            (run zero_s plus_s actions (empty_summary zero_s plus_s))
    unfolding get
    run-Agree actions =
        let n : Agree f model (0 + sum_of zero_s plus_s (stray_calls zero_s plus_s) actions)
            (0 + sum_of zero_s plus_s (stray_used zero_s plus_s f model) actions)
            (run zero_s plus_s actions (empty_summary zero_s plus_s)) =
          steps-Agree actions 0 0 (empty_summary zero_s plus_s)
            (record { calls_agree = refl; tokens_agree = amount-no_tokens f }) in
        record {
          calls_agree =
              n.calls_agree ∙ zero_in _ (sum_of zero_s plus_s (stray_calls zero_s plus_s) actions);
          tokens_agree =
              n.tokens_agree
              ∙ zero_in _ (sum_of zero_s plus_s (stray_used zero_s plus_s f model) actions);
        }
