-- ===== src/Registry/Stubs/Created.antt =====
-- `StubRegistry.acreate` of composer/spec/natspec/registry.py makes a registry whose copies agree.
use certora_aicomposer.Prelude.{
  String, [], ◌∷◌, Option, none, some, ◌≡◌, ◌≢◌, refl, sym, ap, ◌∙◌, subst, inl, inr,
}
use certora_aicomposer.Dict.{Dict, lookup}
use certora_aicomposer.Registry.Store.{Namespace}
use certora_aicomposer.Registry.Stubs.{
  StubMemoryState, StubDurableState, InitialStub, ok, Outside, state_read, StubRegistry,
}
use certora_aicomposer.Registry.Stubs.Coherent.{
  Coherent, state_read-write_self, state_read-write_ne,
}
use certora_aicomposer.Registry.Stubs.Create.{
  resume, init_stub, init_stubs, by_path, stub_state_namespace, acreate,
}
use certora_aicomposer.Registry.Stubs.Keys.{
  stub_keys, memory_keys, AbsentId, Separate, Interfaced, lookup-cons, one_path, by_path-found,
}

module _ (out : Outside) where
  open out use {store}
  open store use {State}

  -- Once it is known what the store had, the store has a record with the content in memory, ...
  resume-durable :
      (s : State) (ns : Namespace) (id : String) (init : InitialStub) (source : String)
      (o : Option StubDurableState)
      → state_read out s ns id ≡ o
      → let r = resume out s ns id init source o in
        (d : StubDurableState) × (state_read out r.0 ns id ≡ some d) × (d.content ≡ r.1.content)
  unfolding resume
  resume-durable s ns id init source none h =
      (record { fields = []; content = init.content }, state_read-write_self out s ns id _, refl)
  resume-durable s ns id init source (some d) h = (d, h, refl)

  -- ... has what it had of the other contracts, ...
  resume-kept :
      (s : State) (ns : Namespace) (id j : String) (init : InitialStub) (source : String)
      (o : Option StubDurableState)
      → id ≢ j
      → state_read out (resume out s ns id init source o).0 ns j ≡ state_read out s ns j
  unfolding resume
  resume-kept s ns id j init source none ne = state_read-write_ne out s ns id j _ ne
  resume-kept s ns id j init source (some d) ne = refl

  -- ... and memory has the path that was given.
  resume-path :
      (s : State) (ns : Namespace) (id : String) (init : InitialStub) (source : String)
      (o : Option StubDurableState)
      → (resume out s ns id init source o).1.path ≡ init.path
  unfolding resume
  resume-path s ns id init source none = refl
  resume-path s ns id init source (some d) = refl

  -- How the initialisation of the stubs ends.
  record Inits (s : State) (ns : Namespace) (interfaces : Dict String) (stubs : Dict InitialStub)
      : Type 0 where
    after : State
    memories : Dict StubMemoryState
    run : init_stubs out s ns interfaces stubs ≡ ok (after, memories)
    keys : memory_keys memories ≡ stub_keys stubs
    kept :
        (j : String)
        → AbsentId j (stub_keys stubs)
        → state_read out after ns j ≡ state_read out s ns j
    durable :
        (id : String) (state : StubMemoryState)
        → lookup id memories ≡ some state
        → (d : StubDurableState) × (state_read out after ns id ≡ some d)
          × (d.content ≡ state.content)

  init_stubs-Inits :
      (s : State) (ns : Namespace) (interfaces : Dict String) (stubs : Dict InitialStub)
      → Separate (stub_keys stubs)
      → Interfaced interfaces stubs
      → Inits s ns interfaces stubs
  unfolding init_stubs init_stub lookup
  init_stubs-Inits s ns interfaces [] separate interfaced = record {
    after = s;
    memories = [];
    run = refl;
    keys = refl;
    kept = λ j absent. refl;
    durable = λ id state h. cc;
  }
  init_stubs-Inits s ns interfaces ((id, init) ∷ rest) separate ((source, found), interfaced) =
      let o = state_read out s ns id in
      let r = resume out s ns id init source o in
      let more = init_stubs-Inits r.0 ns interfaces rest separate.2 interfaced in
      record {
        after = more.after;
        memories = (id, r.1) ∷ more.memories;
        run = rw (found, more.run);
        keys = cc (resume-path s ns id init source o, more.keys);
        kept = λ j absent. more.kept j absent.1 ∙ resume-kept s ns id j init source o absent.0;
        durable = λ i state h. elim (lookup-cons id i r.1 state more.memories h) [
          | inl (e, f) ↦
              let (d, read, same) = resume-durable s ns id init source o refl in
              (
                d,
                subst (λ x. state_read out more.after ns x ≡ some d) e
                    (more.kept id separate.0 ∙ read),
                same ∙ ap (λ x. x.content) f,
              )
          | inr (ne, old) ↦ more.durable i state old
        ];
      }

  -- If no contract and no path stands twice among the stubs, and every contract has an interface,
  -- `acreate` returns, whatever the store had, with a registry whose store, memory and mirror agree.
  pub acreate-Coherent :
      (s : State) (namespace : Namespace) (interfaces : Dict String)
      (initial_stubs : Dict InitialStub)
      → Separate (stub_keys initial_stubs)
      → Interfaced interfaces initial_stubs
      → (reg : StubRegistry out) × (acreate out s namespace interfaces initial_stubs ≡ ok reg)
        × Coherent out reg
  unfolding acreate
  acreate-Coherent s namespace interfaces initial_stubs separate interfaced =
      let ns = stub_state_namespace out namespace in
      let inits = init_stubs-Inits s ns interfaces initial_stubs separate interfaced in
      let apart : Separate (memory_keys inits.memories) =
        subst Separate (sym inits.keys) separate in
      let reg : StubRegistry out = record {
        stored = inits.after;
        namespace = ns;
        mirror_by_path = by_path out inits.memories [];
        state_by_id = inits.memories;
      } in
      (
        reg,
        rw inits.run,
        record {
          durable = inits.durable;
          mirrored = λ id state h. by_path-found out id state inits.memories [] apart h;
          distinct = λ i j x y h k p. one_path i j x y inits.memories apart h k p;
        },
      )
