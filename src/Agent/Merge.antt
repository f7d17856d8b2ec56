-- ===== src/Agent/Merge.antt =====
-- `asearch` of composer/spec/agent_index.py: the hits of the layers are merged by score. A pool is
-- what is left of a layer's hits from its pointer on. Fuel: the number of hits, and one more.
use certora_aicomposer.Prelude.{
  ℕ, zero, suc, ◌+◌, String, Bool, List, [], ◌∷◌, Option, none, some, if◌then◌else◌, length, ◌==◌,
  map,
}
use mathlib.Core.List.{◌++◌}
use certora_aicomposer.Sets.{contains, add, text_eq}
use certora_aicomposer.Agent.Index.{AgentResult, Hit, SearchStore, AgentIndex, read_pools, aget}

module _ (Score : Type 0) (greater : Score → Score → Bool) where
  -- `enumerate` of the pools, with the hit that each one peeks at.
  unfoldable pub peeks : ℕ → List (List (Hit Score)) → List (ℕ × Hit Score)
  peeks i [] = []
  peeks i ([] ∷ pools) = peeks (suc i) pools
  peeks i ((h ∷ rest) ∷ pools) = (i, h) ∷ peeks (suc i) pools

  -- `max` by the score keeps the first of equal ones.
  unfoldable pub best_from : ℕ × Hit Score → List (ℕ × Hit Score) → ℕ × Hit Score
  best_from m [] = m
  best_from m (x ∷ xs) = best_from (if greater x.1.score m.1.score then x else m) xs

  unfoldable pub best : List (ℕ × Hit Score) → Option (ℕ × Hit Score)
  best [] = none
  best (x ∷ xs) = some (best_from x xs)

  -- `pop` of the pool with the index.
  unfoldable pub pop_at : ℕ → List (List (Hit Score)) → List (List (Hit Score))
  pop_at i [] = []
  pop_at zero ([] ∷ pools) = [] ∷ pools
  pop_at zero ((h ∷ rest) ∷ pools) = rest ∷ pools
  pop_at (suc i) (pool ∷ pools) = pool ∷ pop_at i pools

  -- `none` if the fuel runs out.
  unfoldable pub merge_hits :
      ℕ → List (List (Hit Score)) → List String → List (Hit Score) → Option (List (Hit Score))
  merge_hits zero pools seen context = none
  merge_hits (suc f) pools seen context = elim (best (peeks zero pools)) [
    | none ↦ some context
    | some (i, h) ↦
        let again = merge_hits f (pop_at i pools) seen context in
        let context' = context ++ h ∷ [] in
        let more = merge_hits f (pop_at i pools) (add seen h.key) context' in
        if contains h.key seen then again else if length context' == 5 then some context' else more
  ]

  unfoldable pub total : List (List (Hit Score)) → ℕ
  total [] = 0
  total (pool ∷ pools) = length pool + total pools

  unfoldable pub merge_pools : List (List (Hit Score)) → Option (List (Hit Score))
  merge_pools pools = merge_hits (suc (total pools)) pools [] []

  pub data SearchResult : Type 0 where
    exact : (ref_string : String) → AgentResult → SearchResult
    similar : List (Hit Score) → SearchResult

  module _ (store : SearchStore Score) (question_key : String → String) where
    open store use {State}

    searched : Option (List (Hit Score)) → Option SearchResult
    searched none = none
    searched (some context) = some (SearchResult.similar context)

    after_lookup : State → AgentIndex → String → String → Option AgentResult → Option SearchResult
    unfolding searched
    after_lookup s ind question key (some cached) = some (SearchResult.exact key cached)
    after_lookup s ind question key none =
        searched (merge_pools (map (λ ns. store.asearch s ns question 5) (read_pools ind)))

    -- With `_UNSAFE_DISABLE_CACHE` false, as it is declared.
    unfoldable pub asearch : State → AgentIndex → String → Option SearchResult
    unfolding after_lookup
    asearch s ind question =
        let key = question_key question in
        after_lookup s ind question key (aget Score store question_key s ind key)
