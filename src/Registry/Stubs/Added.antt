-- ===== src/Registry/Stubs/Added.antt =====
-- What `StubRegistry.request_field` of composer/spec/natspec/registry.py changes, and what not.
use mathlib.Core.List.{◌++◌}
use certora_aicomposer.Prelude.{
  String, true, false, List, [], ◌∷◌, none, some, ◌≡◌, ◌≢◌, ◌⊎◌, refl, sym, ap, arith, subst,
  Bool-cases, inl, inr,
}
use certora_aicomposer.Text.{is_empty}
use certora_aicomposer.Text
use certora_aicomposer.Dict.{lookup, lookup-insert_self, lookup-insert_ne}
use certora_aicomposer.Registry.Stubs.{
  FieldSpec, RegistryResult, StubMemoryState, StubDurableState, ok, Outside, validate_result,
  first_accepted, run_registry_agent, state_read, StubRegistry,
}
use certora_aicomposer.Registry.Stubs.Field.{
  Outcome, new_field, new_durable, accept_new, apply_result, request_field,
}
use certora_aicomposer.Registry.Stubs.Coherent.{state_read-write_self, state_read-write_ne}
use certora_aicomposer.Registry.Stubs.Request.{request_cases}

module _ (out : Outside) where
  first_accepted-valid :
      (path : String) (rs : List RegistryResult) (r : RegistryResult)
      → first_accepted out path rs ≡ ok r
      → validate_result out path r ≡ none
  unfolding first_accepted
  first_accepted-valid path [] r h = cc
  first_accepted-valid path (x ∷ rs) r h = ground (arith, first_accepted-valid path rs r)

  agent-valid :
      (request : String) (state : StubMemoryState) (fields : List FieldSpec) (r : RegistryResult)
      → run_registry_agent out request state fields ≡ ok r
      → validate_result out state.path r ≡ none
  unfolding run_registry_agent
  agent-valid request state fields r h = first_accepted-valid state.path _ r h

  valid_new :
      (path : String) (r : RegistryResult)
      → validate_result out path r ≡ none
      → r.is_new ≡ true
      → (out.compile_stub r.updated_stub path ≡ none)
        × (is_empty r.field_type ≡ false)
        × (is_empty r.description ≡ false)
  unfolding validate_result
  valid_new path r h new = ground arith

  -- A request that has added a field: the agent's result has a type and a description and its stub
  -- compiles; the store's record has a field with the name, the type and the description of the
  -- result behind the old ones, and the new stub; memory has the new stub; and one event tells of it.
  pub record Added (reg : StubRegistry out) (nm purpose : String) (o : Outcome out) : Type 0 where
    pub state : StubMemoryState
    pub before : StubDurableState
    pub result : RegistryResult
    pub known : lookup nm reg.state_by_id ≡ some state
    pub read : state_read out reg.stored reg.namespace nm ≡ some before
    pub answered : run_registry_agent out purpose state before.fields ≡ ok result
    pub not_rejected : result.rejected ≡ false
    pub is_new : result.is_new ≡ true
    pub compiles : out.compile_stub result.updated_stub state.path ≡ none
    pub has_type : is_empty result.field_type ≡ false
    pub has_description : is_empty result.description ≡ false
    pub written :
        state_read out o.registry.stored o.registry.namespace nm
        ≡ some (record {
          fields =
              before.fields
              ++ record {
                name = result.field_name;
                type = result.field_type;
                description = result.description;
              }
                ∷ [];
          content = result.updated_stub;
        })
    pub remembered :
        lookup nm o.registry.state_by_id ≡ some (record state { content = result.updated_stub })
    pub told : o.events ≡ record { contract_id = nm; stub = result.updated_stub } ∷ []

  -- A request that has added nothing: the contract is unknown, or the agent has rejected the request or
  -- named a field that is there.
  pub data Refused (reg : StubRegistry out) (nm purpose : String) : Type 0 where
    unknown : lookup nm reg.state_by_id ≡ none → Refused reg nm purpose
    answered :
        (state : StubMemoryState) (before : StubDurableState) (result : RegistryResult)
        → lookup nm reg.state_by_id ≡ some state
        → state_read out reg.stored reg.namespace nm ≡ some before
        → run_registry_agent out purpose state before.fields ≡ ok result
        → (result.rejected ≡ true) ⊎ (result.is_new ≡ false)
        → Refused reg nm purpose

  abbrev pub Requested : StubRegistry out → String → String → Outcome out → Type 0
  Requested reg nm purpose o =
      Refused reg nm purpose × (o.registry ≡ reg) × (o.events ≡ []) ⊎ Added reg nm purpose o

  module _ (reg : StubRegistry out) (nm purpose : String) (state : StubMemoryState)
      (d : StubDurableState) (result : RegistryResult) where
    abbrev add_outcome : Outcome out
    add_outcome = record {
      reply = Text.◌++◌ "Use field " result.field_name;
      registry = accept_new out reg nm state d result;
      events = record { contract_id = nm; stub = result.updated_stub } ∷ [];
    }

    apply_result-new :
        result.rejected ≡ false
        → result.is_new ≡ true
        → apply_result out reg nm state d result ≡ add_outcome
    unfolding apply_result
    apply_result-new e n = simp (e, n)

    module _ (known : lookup nm reg.state_by_id ≡ some state)
        (read : state_read out reg.stored reg.namespace nm ≡ some d)
        (accepted : run_registry_agent out purpose state d.fields ≡ ok result) where
      valid : validate_result out state.path result ≡ none
      valid = agent-valid purpose state d.fields result accepted

      add_outcome-Added :
          result.rejected ≡ false → result.is_new ≡ true → Added reg nm purpose add_outcome
      unfolding accept_new new_durable new_field
      add_outcome-Added e n =
          let (compiles, has_type, has_description) = valid_new state.path result valid n in
          record {
            state = state;
            before = d;
            result = result;
            known = known;
            read = read;
            answered = accepted;
            not_rejected = e;
            is_new = n;
            compiles = compiles;
            has_type = has_type;
            has_description = has_description;
            written = state_read-write_self out reg.stored reg.namespace nm _;
            remembered = lookup-insert_self nm _ reg.state_by_id;
            told = refl;
          }

      added : Requested reg nm purpose (apply_result out reg nm state d result)
      unfolding apply_result
      added = elim (Bool-cases result.rejected) [
        | inl refused ↦ inl (
          Refused.answered state d result known read accepted (inl refused),
          simp refused,
          simp refused,
        )
        | inr e ↦ elim (Bool-cases result.is_new) [
          | inl n ↦
              inr
                (subst (Added reg nm purpose) (sym (apply_result-new e n)) (add_outcome-Added e n))
          | inr old ↦ inl (
            Refused.answered state d result known read accepted (inr old),
            simp (e, old),
            simp (e, old),
          )
        ]
      ]

  -- What `apply_result` leaves of another contract.
  kept :
      (reg : StubRegistry out) (nm : String) (state : StubMemoryState) (d : StubDurableState)
      (result : RegistryResult) (other : String)
      → nm ≢ other
      → let after = (apply_result out reg nm state d result).registry in
        (lookup other after.state_by_id ≡ lookup other reg.state_by_id)
        × (state_read out after.stored after.namespace other
            ≡ state_read out reg.stored reg.namespace other)
  unfolding apply_result accept_new
  kept reg nm state d result other ne = ground (
    arith,
    lookup-insert_ne nm other (record state { content = result.updated_stub }) reg.state_by_id ne,
    state_read-write_ne out reg.stored reg.namespace nm other (new_durable out d result) ne,
  )

  -- A request that returns leaves the registry as it was and writes no event, where the contract is unknown
  -- or the agent has rejected the request or named no new field; or the agent has answered with a new
  -- field that has a type and a description and with a stub that compiles, the store has exactly that
  -- field, with this name, type and description, behind the old ones, and the new stub, memory has the
  -- new stub, and one event is written, with that stub.
  pub request_field-Added :
      (reg : StubRegistry out) (nm purpose : String) (o : Outcome out)
      → request_field out reg nm purpose ≡ ok o
      → Requested reg nm purpose o
  request_field-Added reg nm purpose o h = elim (request_cases out reg nm purpose o h) [
    | inl (none_known, same, quiet) ↦ inl (Refused.unknown none_known, same, quiet)
    | inr run ↦ subst (Requested reg nm purpose) (sym run.outcome) (
        added reg nm purpose run.state run.durable_state run.result run.known run.read run.accepted)
  ]

  -- A request for one contract that returns leaves what memory and store have of every other one.
  pub request_field-other :
      (reg : StubRegistry out) (nm purpose : String) (o : Outcome out) (other : String)
      → nm ≢ other
      → request_field out reg nm purpose ≡ ok o
      → (lookup other o.registry.state_by_id ≡ lookup other reg.state_by_id)
        × (state_read out o.registry.stored o.registry.namespace other
            ≡ state_read out reg.stored reg.namespace other)
  request_field-other reg nm purpose o other ne h = elim (request_cases out reg nm purpose o h) [
    | inl (_, same, _) ↦ (
      ap (λ r. lookup other r.state_by_id) same,
      ap (λ r. state_read out r.stored r.namespace other) same,
    )
    | inr run ↦ rw run.outcome (kept reg nm run.state run.durable_state run.result other ne)
  ]
