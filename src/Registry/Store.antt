-- ===== src/Registry/Store.antt =====
-- What the registries of composer/spec/natspec/registry.py use of langgraph's `BaseStore`, which
-- is not part of the repository: a value put under a key of a namespace is the one that a read of
-- that key gives, and other keys of the namespace keep theirs.
use text.Mathlib.Text.{◌==◌}
use certora_aicomposer.Prelude.{String, List, Option, some, ◌≡◌, if◌then◌else◌}

abbrev pub Namespace : Type 0
Namespace = List String

pub record BaseStore (V : Type 0) : Type 1 where
  pub State : Type 0
  pub aget : State → Namespace → String → Option V
  pub aput : State → Namespace → String → V → State
  pub aget-aput :
      (s : State) (ns : Namespace) (k j : String) (v : V)
      → aget (aput s ns k v) ns j ≡ (if k == j then some v else aget s ns j)
