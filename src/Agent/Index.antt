-- ===== src/Agent/Index.antt =====
-- `AgentIndex` of composer/spec/agent_index.py. Parameters: the store with its search, the key of a
-- question (a hash of the normalised text), and scores with their comparison.
use text.Mathlib.Text.{◌==◌}
use certora_aicomposer.Prelude.{
  ℕ, String, Bool, true, false, List, [], ◌∷◌, Option, none, some, ◌≡◌, ◌≢◌, ◌&&◌, if◌then◌else◌,
}
use certora_aicomposer.Registry.Store.{Namespace}
use certora_aicomposer.Sets.{text_eq}

pub record AgentResult : Type 0 where
  pub question : String
  pub answer : String

-- An item that a search of the store gives.
pub record Hit (Score : Type 0) : Type 0 where
  pub key : String
  pub value : AgentResult
  pub score : Score

-- What the index uses of the store: a value that is put is the one that is got, and neither other
-- keys nor other namespaces change. A search gives at most `limit` items.
pub record SearchStore (Score : Type 0) : Type 1 where
  pub State : Type 0
  pub aget : State → Namespace → String → Option AgentResult
  pub aput : State → Namespace → String → AgentResult → State
  pub asearch : State → Namespace → String → (limit : ℕ) → List (Hit Score)
  pub aget-aput :
      (s : State) (ns : Namespace) (k j : String) (v : AgentResult)
      → aget (aput s ns k v) ns j ≡ (if k == j then some v else aget s ns j)
  pub aget-aput_ne :
      (s : State) (ns ms : Namespace) (k j : String) (v : AgentResult)
      → ns ≢ ms
      → aget (aput s ns k v) ms j ≡ aget s ms j

pub record AgentIndexConfig : Type 0 where
  pub base_layer : Namespace
  pub write_layer : Option Namespace
  pub read_only : Bool

unfoldable pub same_namespace : Namespace → Namespace → Bool
same_namespace [] [] = true
same_namespace (a ∷ as') (b ∷ bs) = (a == b) && same_namespace as' bs
same_namespace _ _ = false

pub record AgentIndex : Type 0 where
  pub base_layer : Namespace
  pub write_layer : Option Namespace
  pub read_only : Bool
  pub write_ns : Option Namespace

-- A write layer that is the base layer counts as none.
unfoldable pub overlay : Namespace → Option Namespace → Option Namespace
overlay base none = none
overlay base (some ns) = if same_namespace ns base then none else some ns

unfoldable pub target : Namespace → Option Namespace → Namespace
target base none = base
target base (some ns) = ns

unfoldable pub make_index : AgentIndexConfig → AgentIndex
unfolding overlay target
make_index config = record {
  base_layer = config.base_layer;
  write_layer = overlay config.base_layer config.write_layer;
  read_only = config.read_only;
  write_ns =
      if config.read_only
      then none
      else some (target config.base_layer (overlay config.base_layer config.write_layer));
}

unfoldable pub pools_of : Namespace → Option Namespace → List Namespace
pools_of base none = base ∷ []
pools_of base (some ns) = ns ∷ base ∷ []

unfoldable pub read_pools : AgentIndex → List Namespace
unfolding pools_of
read_pools ind = pools_of ind.base_layer ind.write_layer

module _ (Score : Type 0) (store : SearchStore Score) (question_key : String → String) where
  open store use {State}

  unfoldable pub put_new :
      State → Namespace → String → AgentResult → Option AgentResult → State × Option String
  put_new s ns key doc (some existing) = (s, some key)
  put_new s ns key doc none = (store.aput s ns key doc, some key)

  unfoldable pub put_in : State → Option Namespace → String → AgentResult → State × Option String
  unfolding put_new
  put_in s none key doc = (s, none)
  put_in s (some ns) key doc = put_new s ns key doc (store.aget s ns key)

  unfoldable pub aput : State → AgentIndex → AgentResult → State × Option String
  unfolding put_in
  aput s ind doc = put_in s ind.write_ns (question_key doc.question) doc

  unfoldable pub first_found : State → List Namespace → String → Option AgentResult
  first_found s [] key = none
  first_found s (ns ∷ pools) key =
      let rest = first_found s pools key in
      elim (store.aget s ns key) [ none ↦ rest | some r ↦ some r ]

  unfoldable pub aget : State → AgentIndex → String → Option AgentResult
  unfolding first_found
  aget s ind key = first_found s (read_pools ind) key
