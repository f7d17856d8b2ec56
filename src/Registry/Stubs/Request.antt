-- ===== src/Registry/Stubs/Request.antt =====
-- What `StubRegistry.request_field` of composer/spec/natspec/registry.py guarantees.
use text.Mathlib.Text.{◌==◌}
use text.Mathlib.TextEquality.{eq_iff}
use certora_aicomposer.Prelude.{
  String, List, [], Option, none, some, ◌≡◌, ◌⊎◌, refl, sym, ap, subst, Option-cases, inl, inr,
}
use certora_aicomposer.Text.{is_empty}
use certora_aicomposer.Text
use certora_aicomposer.Dict.{lookup}
use certora_aicomposer.Registry.Stubs.{
  FieldSpec, RegistryResult, StubMemoryState, StubDurableState, Result, ok, raise, assertion_error,
  ◌>>=◌, Outside, run_registry_agent, state_read, StubRegistry, check, or_raise,
}
use certora_aicomposer.Registry.Stubs.Field.{Outcome, apply_result, locked_request, request_field}
use certora_aicomposer.Registry.Stubs.Coherent.{Coherent, apply_result-Coherent}

module _ (out : Outside) where
  -- How a request that returns has run.
  pub record Run (reg : StubRegistry out) (nm purpose : String) (o : Outcome out) : Type 0 where
    pub state : StubMemoryState
    pub durable_state : StubDurableState
    pub result : RegistryResult
    pub known : lookup nm reg.state_by_id ≡ some state
    pub read : state_read out reg.stored reg.namespace nm ≡ some durable_state
    pub accepted : run_registry_agent out purpose state durable_state.fields ≡ ok result
    pub outcome : o ≡ apply_result out reg nm state durable_state result

  -- A step that returned.
  bind_returned :
      {A B : Type 0} {b : B} (first : Result A) (next : A → Result B)
      → (first >>= next) ≡ ok b
      → (a : A) × (next a ≡ ok b) × (first ≡ ok a)
  bind_returned (raise e) next h = cc
  bind_returned (ok a) next h = (a, h, refl)

  ok-injective : {A : Type 0} {a b : A} → ok a ≡ ok b → a ≡ b
  ok-injective h = cc

  or_raise-eq-ok :
      {A : Type 0} (o : Option A) {a : A} → or_raise o assertion_error ≡ ok a → o ≡ some a
  or_raise-eq-ok none h = cc
  or_raise-eq-ok (some a) h = cc

  locked-Run :
      (reg : StubRegistry out) (nm purpose : String) (state : StubMemoryState) (o : Outcome out)
      → lookup nm reg.state_by_id ≡ some state
      → locked_request out reg nm purpose state ≡ ok o
      → Run reg nm purpose o
  unfolding locked_request
  locked-Run reg nm purpose state o known h =
      let (d, h₁, read) =
        bind_returned (or_raise (state_read out reg.stored reg.namespace nm) assertion_error) _ h in
      let (_, h₂, _) = bind_returned (check (d.content == state.content)) _ h₁ in
      let (result, h₃, accepted) =
        bind_returned (run_registry_agent out purpose state d.fields) _ h₂ in
      record {
        state = state;
        durable_state = d;
        result = result;
        known = known;
        read = or_raise-eq-ok _ read;
        accepted = accepted;
        outcome = sym (ok-injective h₃);
      }

  -- A request that returns is refused for an unknown contract, or has run under the lock.
  pub request_cases :
      (reg : StubRegistry out) (nm purpose : String) (o : Outcome out)
      → request_field out reg nm purpose ≡ ok o
      → (lookup nm reg.state_by_id ≡ none) × (o.registry ≡ reg) × (o.events ≡ [])
        ⊎ Run reg nm purpose o
  unfolding request_field
  request_cases reg nm purpose o h = elim (Option-cases (lookup nm reg.state_by_id)) [
    | inl unknown ↦
        let e = ok-injective (rw (unknown, request_field) at h) in
        inl (unknown, sym (ap (λ x. x.registry) e), sym (ap (λ x. x.events) e))
    | inr (state, known) ↦
        inr (locked-Run reg nm purpose state o known (rw (known, request_field) at h))
  ]

  -- A request that returns keeps the store, the memory and the mirror in agreement.
  pub request_field-Coherent :
      (reg : StubRegistry out) (nm purpose : String) (o : Outcome out)
      → Coherent out reg
      → request_field out reg nm purpose ≡ ok o
      → Coherent out o.registry
  request_field-Coherent reg nm purpose o coherent h = elim (request_cases reg nm purpose o h) [
    | inl (_, same, _) ↦ subst (Coherent out) (sym same) coherent
    | inr run ↦
        subst (λ x. Coherent out x.registry) (sym run.outcome)
          (apply_result-Coherent out reg nm run.state run.durable_state run.result coherent
            run.known)
  ]

  locked_request_returns :
      (reg : StubRegistry out) (nm purpose : String) (state : StubMemoryState)
      (d : StubDurableState) (result : RegistryResult)
      → state_read out reg.stored reg.namespace nm ≡ some d
      → d.content ≡ state.content
      → run_registry_agent out purpose state d.fields ≡ ok result
      → locked_request out reg nm purpose state ≡ ok (apply_result out reg nm state d result)
  unfolding locked_request
  locked_request_returns reg nm purpose state d result read same accepted =
      rw (read, (eq_iff d.content state.content).1 same, accepted)

  -- In an agreeing registry neither assertion of `request_field` fails: it returns for every
  -- contract, known or not, if the agent ends with an accepted result for every stub and fields.
  pub request_field_returns :
      (reg : StubRegistry out) (nm purpose : String)
      → Coherent out reg
      → ((state : StubMemoryState) (fields : List FieldSpec)
          → (result : RegistryResult) × (run_registry_agent out purpose state fields ≡ ok result))
      → (o : Outcome out) × (request_field out reg nm purpose ≡ ok o)
  unfolding request_field
  request_field_returns reg nm purpose coherent answers =
      elim (Option-cases (lookup nm reg.state_by_id)) [
        | inl unknown ↦ (
          record {
            reply = Text.◌++◌ "Error: unknown contract identifier: " nm;
            registry = reg;
            events = [];
          },
          rw (unknown, request_field),
        )
        | inr (state, known) ↦
            let (d, read, same) = coherent.durable nm state known in
            let (result, accepted) = answers state d.fields in
            (
              apply_result out reg nm state d result,
              rw (known, request_field)
                  (locked_request_returns reg nm purpose state d result read same accepted),
            )
      ]
