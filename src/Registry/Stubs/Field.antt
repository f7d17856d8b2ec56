-- ===== src/Registry/Stubs/Field.antt =====
-- `StubRegistry.request_field` of composer/spec/natspec/registry.py.
use text.Mathlib.Text.{◌==◌}
use mathlib.Core.List.{◌++◌}
use certora_aicomposer.Prelude.{String, List, [], ◌∷◌, none, some, if◌then◌else◌}
use certora_aicomposer.Text
use certora_aicomposer.Dict.{lookup, insert}
use certora_aicomposer.Registry.Stubs.{
  FieldSpec, RegistryResult, StubMemoryState, StubDurableState, StubUpdate, assertion_error, Result,
  ok, ◌>>=◌, or_raise, check, Outside, run_registry_agent, state_write, state_read, StubRegistry,
}

module _ (out : Outside) where
  -- What a request returns, the registry that it leaves, and the events that it writes.
  pub record Outcome : Type 0 where
    pub reply : String
    pub registry : StubRegistry out
    pub events : List StubUpdate

  abbrev unchanged : StubRegistry out → String → Outcome
  unchanged reg reply = record { reply = reply; registry = reg; events = [] }

  unfoldable pub new_field : RegistryResult → FieldSpec
  new_field result = record {
    name = result.field_name;
    type = result.field_type;
    description = result.description;
  }

  unfoldable pub new_durable : StubDurableState → RegistryResult → StubDurableState
  new_durable durable_state result = record {
    fields = durable_state.fields ++ new_field result ∷ [];
    content = result.updated_stub;
  }

  -- The durable state, the memory state, the mirror and the store with the new stub.
  unfoldable pub accept_new :
      StubRegistry out
      → String
      → StubMemoryState
      → StubDurableState
      → RegistryResult
      → StubRegistry out
  accept_new reg nm state durable_state result = record reg {
    state_by_id = insert nm (record state { content = result.updated_stub }) reg.state_by_id;
    mirror_by_path = insert state.path result.updated_stub reg.mirror_by_path;
    stored = state_write out reg.stored reg.namespace nm (new_durable durable_state result);
  }

  unfoldable pub apply_result :
      StubRegistry out → String → StubMemoryState → StubDurableState → RegistryResult → Outcome
  apply_result reg nm state durable_state result =
      if result.rejected
      then unchanged reg (Text.◌++◌ "Field request was rejected: " result.description)
      else if result.is_new
      then record {
        reply = Text.◌++◌ "Use field " result.field_name;
        registry = accept_new reg nm state durable_state result;
        events = record { contract_id = nm; stub = result.updated_stub } ∷ [];
      }
      else unchanged reg (Text.◌++◌ "Use field " result.field_name)

  -- The body under the contract's lock.
  unfoldable pub locked_request :
      StubRegistry out → String → String → StubMemoryState → Result Outcome
  locked_request reg nm purpose state = do
    durable_state ← or_raise (state_read out reg.stored reg.namespace nm) assertion_error
    ignored ← check (durable_state.content == state.content)
    result ← run_registry_agent out purpose state durable_state.fields
    ok (apply_result reg nm state durable_state result)

  unfoldable pub request_field : StubRegistry out → String → String → Result Outcome
  request_field reg nm purpose = elim (lookup nm reg.state_by_id) [
    | none ↦ ok (unchanged reg (Text.◌++◌ "Error: unknown contract identifier: " nm))
    | some state ↦ locked_request reg nm purpose state
  ]
