-- ===== src/Examples/Agent.antt =====
-- The agent index of composer/spec/agent_index.py over a store in memory.
use text.Mathlib.Text.{◌==◌}
use certora_aicomposer.Prelude.{
  ℕ, String, Bool, true, false, List, [], ◌∷◌, Option, none, some, ◌≡◌, ◌≢◌, refl, ltb, arith,
  Bool-cases, if◌then◌else◌, inl, inr,
}
use certora_aicomposer.Registry.Store.{Namespace}
use certora_aicomposer.Sets.{All}
use certora_aicomposer.Agent.Index.{
  AgentResult, Hit, SearchStore, AgentIndexConfig, same_namespace, overlay, target, make_index,
  aput, aget,
}
use certora_aicomposer.Agent.Merge.{merge_pools}
use certora_aicomposer.Agent.Pools.{ScoreOrder, From, Descending}
use certora_aicomposer.Agent.Round.{Covered, Ranked}
use certora_aicomposer.Agent.Ranked.{merge_pools-Ranked}
use certora_aicomposer.Agent.Writes.{
  same_namespace→eq, same_namespace_refl, kept, aput-aget, aput-other,
}

-- A store that finds nothing by similarity.
abbrev Contents : Type 0
Contents = Namespace → String → Option AgentResult

abbrev write : Contents → Namespace → String → AgentResult → Contents
write s ns k v ms j = if same_namespace ns ms then (if k == j then some v else s ms j) else s ms j

write-same :
    (s : Contents) (ns : Namespace) (k j : String) (v : AgentResult)
    → write s ns k v ns j ≡ (if k == j then some v else s ns j)
write-same s ns k j v = rw (same_namespace_refl ns) refl

write-ne :
    (s : Contents) (ns ms : Namespace) (k j : String) (v : AgentResult)
    → ns ≢ ms
    → write s ns k v ms j ≡ s ms j
write-ne s ns ms k j v n = elim (Bool-cases (same_namespace ns ms)) [
  | inl t ↦ absurd (n (same_namespace→eq ns ms t))
  | inr f ↦ rw f refl
]

abbrev memory : SearchStore ℕ
memory = record {
  State = Contents;
  aget = λ s ns k. s ns k;
  aput = write;
  asearch = λ s ns question limit. [];
  aget-aput = write-same;
  aget-aput_ne = write-ne;
}

abbrev fresh : Contents
fresh ns k = none

abbrev by_text : String → String
by_text question = question

abbrev layered : AgentIndexConfig
layered = record {
  base_layer = "cvl" ∷ [];
  write_layer = some ("cvl" ∷ "run" ∷ []);
  read_only = false;
}

abbrev answered : AgentResult
answered = record { question = "what is a ghost?"; answer = "a variable of the spec" }

aput-aget_example :
    ((aput ℕ memory by_text fresh (make_index layered) answered).1 ≡ some "what is a ghost?")
    × (aget ℕ memory by_text
          (aput ℕ memory by_text fresh (make_index layered) answered).0
          (make_index layered)
          "what is a ghost?"
        ≡ some (
            kept
              (memory.aget fresh
                (target layered.base_layer (overlay layered.base_layer layered.write_layer))
                "what is a ghost?")
              answered))
aput-aget_example = aput-aget ℕ memory by_text fresh layered answered refl

aput-other_example :
    aget ℕ memory by_text
      (aput ℕ memory by_text fresh (make_index layered) answered).0
      (make_index layered)
      "what is a hook?"
    ≡ aget ℕ memory by_text fresh (make_index layered) "what is a hook?"
aput-other_example =
    aput-other ℕ memory by_text fresh layered answered "what is a hook?" (λ e. cc e)

abbrev greater : ℕ → ℕ → Bool
greater a b = ltb b a

numbers_asymm : (a b : ℕ) → greater a b ≡ true → greater b a ≡ false
numbers_asymm a b h = ground arith

numbers_trans : (a b c : ℕ) → greater a b ≡ false → greater b c ≡ false → greater a c ≡ false
numbers_trans a b c h k = ground arith

abbrev numbers : ScoreOrder ℕ greater
numbers = record { asymm = numbers_asymm; trans = numbers_trans }

abbrev hit : String → ℕ → Hit ℕ
hit k score = record { key = k; value = answered; score = score }

abbrev two_pools : List (List (Hit ℕ))
two_pools = (hit "a" 9 ∷ hit "b" 4 ∷ []) ∷ (hit "c" 7 ∷ hit "a" 5 ∷ hit "d" 1 ∷ []) ∷ []

two_pools-Descending : All (Descending ℕ greater) two_pools
two_pools-Descending = (((refl, tt), (tt, tt)), (((refl, (refl, tt)), ((refl, tt), (tt, tt))), tt))

merge_pools-Ranked_example :
    (ys : List (Hit ℕ)) × (merge_pools ℕ greater two_pools ≡ some ys)
    × Ranked ℕ greater ys
    × All (λ y. From ℕ greater y two_pools) ys
    × All (All (Covered ℕ greater ys)) two_pools
merge_pools-Ranked_example = merge_pools-Ranked ℕ greater numbers two_pools two_pools-Descending
