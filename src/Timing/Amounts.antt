-- ===== src/Timing/Amounts.antt =====
-- What composer/diagnostics/timing.py counts: the calls and the tokens of phases, of tasks in flight and for
-- no task, and what a report adds to them.
use mathlib.Core.List.{◌++◌}
use certora_aicomposer.Prelude.{
  ℕ, ◌+◌, String, Bool, true, false, List, [], ◌∷◌, Option, none, some, ◌≡◌, refl, ap, ◌∙◌, subst,
  arith, if◌then◌else◌,
}
use certora_aicomposer.Sets.{text_eq}
use certora_aicomposer.KeyMap.{get, put, get-put_self, get-put_ne, same-ne}
use certora_aicomposer.KeyTotals.{total, weight_of, total-put}
use certora_aicomposer.Timing.Summary.{
  TokenTotals, no_tokens, plus, TokenUsage, from_dict, model_of, tokens_or_none, task_or_current,
  PhaseRecord, add_tokens, bucket_or_empty, calls_or_none, active_call, Action,
}

pub data Field : Type 0 where
  input output cache_read cache_write : Field

abbrev pub amount : Field → TokenTotals → ℕ
amount Field.input t = t.input
amount Field.output t = t.output
amount Field.cache_read t = t.cache_read
amount Field.cache_write t = t.cache_write

amount-plus : (f : Field) (t u : TokenTotals) → amount f (plus t u) ≡ amount f t + amount f u
unfolding plus
amount-plus Field.input t u = refl
amount-plus Field.output t u = refl
amount-plus Field.cache_read t u = refl
amount-plus Field.cache_write t u = refl

pub amount-no_tokens : (f : Field) → amount f no_tokens ≡ 0
amount-no_tokens Field.input = refl
amount-no_tokens Field.output = refl
amount-no_tokens Field.cache_read = refl
amount-no_tokens Field.cache_write = refl

-- What a dictionary has counted for a model.
abbrev pub used : Field → String → List (String × TokenTotals) → ℕ
used f model d = amount f (tokens_or_none (get model d))

-- What a call adds to a model's count.
abbrev pub added : Field → String → TokenUsage → ℕ
added f model usage = if text_eq.same (model_of usage) model then amount f (from_dict usage) else 0

abbrev pub calls_of : {F : Type 0} → F × ℕ → ℕ
calls_of (s, n) = n

module _ {F : Type 0} where
  abbrev pub phase_calls : List (PhaseRecord F) → ℕ
  phase_calls [] = 0
  phase_calls (p ∷ phases) = p.prover_calls + phase_calls phases

  abbrev pub phase_used : Field → String → List (PhaseRecord F) → ℕ
  phase_used f model [] = 0
  phase_used f model (p ∷ phases) = used f model p.token_usage_by_model + phase_used f model phases

  pub phase_calls-snoc :
      (phases : List (PhaseRecord F)) (p : PhaseRecord F)
      → phase_calls (phases ++ p ∷ []) ≡ phase_calls phases + p.prover_calls
  phase_calls-snoc [] p = omega arith
  phase_calls-snoc (q ∷ phases) p =
      let ih : phase_calls (phases ++ p ∷ []) ≡ phase_calls phases + p.prover_calls =
        phase_calls-snoc phases p in
      omega arith

  pub phase_used-snoc :
      (f : Field) (model : String) (phases : List (PhaseRecord F)) (p : PhaseRecord F)
      → phase_used f model (phases ++ p ∷ [])
        ≡ phase_used f model phases + used f model p.token_usage_by_model
  phase_used-snoc f model [] p = omega arith
  phase_used-snoc f model (q ∷ phases) p =
      let ih : phase_used f model (phases ++ p ∷ [])
          ≡ phase_used f model phases + used f model p.token_usage_by_model =
        phase_used-snoc f model phases p in
      omega arith

plus_zero : (n : ℕ) → n ≡ n + 0
plus_zero n = omega arith

pub added-used :
    (f : Field) (model : String) (usage : TokenUsage) (d : List (String × TokenTotals))
    → used f model (add_tokens (model_of usage) (from_dict usage) d)
      ≡ used f model d + added f model usage
unfolding add_tokens
added-used f model usage d = either (text_eq.same name model) refl
  where
    name : String
    name = model_of usage

    more : TokenTotals
    more = plus (tokens_or_none (get name d)) (from_dict usage)

    either :
        (b : Bool)
        → text_eq.same name model ≡ b
        → used f model (put name more d)
          ≡ used f model d + (if b then amount f (from_dict usage) else 0)
    either true t =
        let own : name ≡ model = text_eq.same→eq name model t in
        let here : get model (put name more d) ≡ some more =
          subst (λ i. get i (put name more d) ≡ some more) own (get-put_self name more d) in
        ap (λ o. amount f (tokens_or_none o)) here
        ∙ (amount-plus f (tokens_or_none (get name d)) (from_dict usage)
            ∙ ap (λ i. used f i d + amount f (from_dict usage)) own)
    either false n =
        ap (λ o. amount f (tokens_or_none o)) (get-put_ne name model more d (same-ne name model n))
        ∙ plus_zero (used f model d)

module _ {F : Type 0} (zero_s : F) (plus_s : F → F → F) where
  abbrev pub stray_call : Option String → ℕ
  stray_call none = 1
  stray_call (some task_id) = 0

  abbrev pub stray_usage : Option String → ℕ → ℕ
  stray_usage none n = n
  stray_usage (some task_id) n = 0

  -- The calls for no task.
  abbrev pub stray_calls : Action zero_s plus_s → ℕ
  stray_calls (Action.prover_call current duration_s task_id) =
      stray_call (task_or_current task_id current)
  stray_calls _ = 0

  -- The tokens that a model has used for no task.
  abbrev pub stray_used : Field → String → Action zero_s plus_s → ℕ
  stray_used f model (Action.tokens_used current usage task_id) =
      stray_usage (task_or_current task_id current) (added f model usage)
  stray_used f model _ = 0

  abbrev pub sum_of : (Action zero_s plus_s → ℕ) → List (Action zero_s plus_s) → ℕ
  sum_of g [] = 0
  sum_of g (a ∷ actions) = g a + sum_of g actions

  next-calls :
      (duration_s : F) (o : Option (F × ℕ))
      → calls_of (active_call zero_s plus_s duration_s (calls_or_none zero_s plus_s o))
        ≡ weight_of calls_of o + 1
  next-calls duration_s none = refl
  next-calls duration_s (some (s, n)) = refl

  pub popped-calls : (o : Option (F × ℕ)) → (calls_or_none zero_s plus_s o).1 ≡ weight_of calls_of o
  popped-calls none = refl
  popped-calls (some (s, n)) = refl

  pub active-calls :
      (task_id : String) (duration_s : F) (d : List (String × (F × ℕ)))
      → total calls_of (
          put task_id
            (active_call zero_s plus_s duration_s (calls_or_none zero_s plus_s (get task_id d)))
            d)
        ≡ total calls_of d + 1
  active-calls task_id duration_s d =
      let next : F × ℕ =
        active_call zero_s plus_s duration_s (calls_or_none zero_s plus_s (get task_id d)) in
      let written : total calls_of (put task_id next d) + weight_of calls_of (get task_id d)
          ≡ total calls_of d + calls_of next =
        total-put calls_of task_id next d in
      let more : calls_of next ≡ weight_of calls_of (get task_id d) + 1 =
        next-calls duration_s (get task_id d) in
      omega arith

  pub bucket-used :
      (f : Field) (model : String) (o : Option (List (String × TokenTotals)))
      → used f model (bucket_or_empty o) ≡ weight_of (used f model) o
  unfolding get
  bucket-used f model none = amount-no_tokens f
  bucket-used f model (some bucket) = refl

  pub active-tokens :
      (f : Field) (model task_id : String) (usage : TokenUsage)
      (d : List (String × List (String × TokenTotals)))
      → total (used f model) (
          put task_id
            (add_tokens (model_of usage) (from_dict usage) (bucket_or_empty (get task_id d)))
            d)
        ≡ total (used f model) d + added f model usage
  active-tokens f model task_id usage d =
      let old : List (String × TokenTotals) = bucket_or_empty (get task_id d) in
      let new : List (String × TokenTotals) = add_tokens (model_of usage) (from_dict usage) old in
      let written : total (used f model) (put task_id new d)
            + weight_of (used f model) (get task_id d)
          ≡ total (used f model) d + used f model new =
        total-put (used f model) task_id new d in
      let grown : used f model new ≡ used f model old + added f model usage =
        added-used f model usage old in
      let same : used f model old ≡ weight_of (used f model) (get task_id d) =
        bucket-used f model (get task_id d) in
      sums (total (used f model) (put task_id new d)) (weight_of (used f model) (get task_id d))
        (total (used f model) d) (used f model new) (used f model old) (added f model usage) written
        grown same
    where
      sums : (a w t n o u : ℕ) → a + w ≡ t + n → n ≡ o + u → o ≡ w → a ≡ t + u
      sums a w t n o u h g e = omega arith
