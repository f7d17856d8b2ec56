-- ===== src/Registry/Stubs/Create.antt =====
-- `StubRegistry.acreate` of composer/spec/natspec/registry.py. The initialisations that it gathers
-- touch one key each; they are run in the order of the dictionary.
use mathlib.Core.List.{◌++◌}
use certora_aicomposer.Prelude.{String, [], ◌∷◌, Option, none, some}
use certora_aicomposer.Dict.{Dict, lookup, insert}
use certora_aicomposer.Registry.Store.{Namespace}
use certora_aicomposer.Registry.Stubs.{
  StubMemoryState, StubDurableState, InitialStub, key_error, Result, ok, ◌>>=◌, or_raise, Outside,
  state_write, state_read, StubRegistry,
}

module _ (out : Outside) where
  open out use {store}
  open store use {State}

  -- The store and the memory state once it is known what the store had.
  unfoldable pub resume :
      State
      → Namespace
      → String
      → InitialStub
      → String
      → Option StubDurableState
      → State × StubMemoryState
  resume s ns id init_stub intf_source none = (
    state_write out s ns id (record { fields = []; content = init_stub.content }),
    record { path = init_stub.path; content = init_stub.content; interface = intf_source },
  )
  resume s ns id init_stub intf_source (some curr) =
      (s, record { path = init_stub.path; content = curr.content; interface = intf_source })

  unfoldable pub init_stub :
      State → Namespace → Dict String → String → InitialStub → Result (State × StubMemoryState)
  unfolding resume
  init_stub s ns interfaces id init = do
    intf_source ← or_raise (lookup id interfaces) key_error
    ok (resume s ns id init intf_source (state_read out s ns id))

  unfoldable pub init_stubs :
      State → Namespace → Dict String → Dict InitialStub → Result (State × Dict StubMemoryState)
  init_stubs s ns interfaces [] = ok (s, [])
  init_stubs s ns interfaces ((id, init) ∷ rest) = do
    (s₁, memory) ← init_stub s ns interfaces id init
    (s₂, memories) ← init_stubs s₁ ns interfaces rest
    ok (s₂, (id, memory) ∷ memories)

  -- `{s._path: s._content for s in state.values()}`
  unfoldable pub by_path : Dict StubMemoryState → Dict String → Dict String
  by_path [] mirror = mirror
  by_path ((_, state) ∷ rest) mirror = by_path rest (insert state.path state.content mirror)

  -- `stub_state_namespace`
  unfoldable pub stub_state_namespace : Namespace → Namespace
  stub_state_namespace ns = ns ++ "stub_state" ∷ []

  unfoldable pub acreate :
      State → Namespace → Dict String → Dict InitialStub → Result (StubRegistry out)
  acreate s namespace interfaces initial_stubs = do
    let ns = stub_state_namespace namespace
    (s', state) ← init_stubs s ns interfaces initial_stubs
    ok (record {
      stored = s';
      namespace = ns;
      mirror_by_path = by_path state [];
      state_by_id = state;
    })
