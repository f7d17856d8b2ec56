-- ===== src/Registry/Stubs/Coherent.antt =====
-- The three copies of a stub that `StubRegistry` of composer/spec/natspec/registry.py keeps agree.
use text.Mathlib.Text.{◌==◌}
use text.Mathlib.TextPositions.{eq_refl}
use certora_aicomposer.Prelude.{
  String, List, some, ◌≡◌, ◌≢◌, sym, ap, ◌∙◌, arith, subst, Bool-cases, inl, inr, if◌then◌else◌,
}
use certora_aicomposer.Dict.{lookup, lookup-insert_self, lookup-insert_ne, found-insert, test-ne}
use certora_aicomposer.Registry.Stubs.{
  RegistryResult, StubMemoryState, StubDurableState, Outside, state_write, state_read, StubRegistry,
}
use certora_aicomposer.Registry.Stubs.Field.{new_durable, accept_new, apply_result}

module _ (out : Outside) where
  open out use {store, validate-dump}
  open store use {aget-aput, State}

  -- Reading a state after a write to the same namespace.
  pub state_read-write :
      (s : State) (ns : List String) (k j : String) (d : StubDurableState)
      → state_read out (state_write out s ns k d) ns j
        ≡ (if k == j then some d else state_read out s ns j)
  unfolding state_read state_write
  state_read-write s ns k j d = elim (Bool-cases (k == j)) [
    | inl same ↦ rw (aget-aput s ns k j (out.model_dump d), same) (validate-dump d)
    | inr other ↦ rw (aget-aput s ns k j (out.model_dump d), other)
  ]

  -- For every contract the store has a record with the content in memory, and the mirror has that
  -- content under the contract's path; two contracts have two paths.
  pub record Coherent (reg : StubRegistry out) : Type 0 where
    pub durable :
        (id : String) (state : StubMemoryState)
        → lookup id reg.state_by_id ≡ some state
        → (d : StubDurableState) × (state_read out reg.stored reg.namespace id ≡ some d)
          × (d.content ≡ state.content)
    pub mirrored :
        (id : String) (state : StubMemoryState)
        → lookup id reg.state_by_id ≡ some state
        → lookup state.path reg.mirror_by_path ≡ some state.content
    pub distinct :
        (i j : String) (s t : StubMemoryState)
        → lookup i reg.state_by_id ≡ some s
        → lookup j reg.state_by_id ≡ some t
        → s.path ≡ t.path
        → i ≡ j

  pub state_read-write_self :
      (s : State) (ns : List String) (k : String) (d : StubDurableState)
      → state_read out (state_write out s ns k d) ns k ≡ some d
  state_read-write_self s ns k d = rw (state_read-write s ns k k d, eq_refl k)

  pub state_read-write_ne :
      (s : State) (ns : List String) (k j : String) (d : StubDurableState)
      → k ≢ j
      → state_read out (state_write out s ns k d) ns j ≡ state_read out s ns j
  state_read-write_ne s ns k j d ne = rw (state_read-write s ns k j d, test-ne k j ne)

  module _ (reg : StubRegistry out) (nm : String) (state : StubMemoryState)
      (durable_state : StubDurableState) (result : RegistryResult) (coherent : Coherent reg)
      (here : lookup nm reg.state_by_id ≡ some state) where
    abbrev written : StubDurableState
    written = new_durable out durable_state result

    abbrev after : State
    after = state_write out reg.stored reg.namespace nm written

    accept_new-Coherent : Coherent (accept_new out reg nm state durable_state result)
    unfolding accept_new new_durable
    accept_new-Coherent = record {
      durable = λ id st h. elim (found-insert nm id _ st reg.state_by_id h) [
        | inl (e, f) ↦ (
          written,
          subst (λ j. state_read out after reg.namespace j ≡ some written) e
              (state_read-write_self reg.stored reg.namespace nm written),
          ap (λ x. x.content) f,
        )
        | inr (ne, old) ↦
            let (d, read, same) = coherent.durable id st old in
            (d, state_read-write_ne reg.stored reg.namespace nm id _ ne ∙ read, same)
      ];
      mirrored = λ id st h. elim (found-insert nm id _ st reg.state_by_id h) [
        | inl (e, f) ↦
            rw (← f) (lookup-insert_self state.path result.updated_stub reg.mirror_by_path)
        | inr (ne, old) ↦
            lookup-insert_ne state.path st.path result.updated_stub reg.mirror_by_path
              (λ p. ne (coherent.distinct nm id state st here old p))
            ∙ coherent.mirrored id st old
      ];
      distinct = λ i j s t h k p. elim (found-insert nm i _ s reg.state_by_id h) [
        | inl (e, f) ↦ elim (found-insert nm j _ t reg.state_by_id k) [
          | inl (e', f') ↦ sym e ∙ e'
          | inr (ne', old') ↦
              sym e ∙ coherent.distinct nm j state t here old' (ap (λ x. x.path) f ∙ p)
        ]
        | inr (ne, old) ↦ elim (found-insert nm j _ t reg.state_by_id k) [
          | inl (e', f') ↦
              coherent.distinct i nm s state old here (p ∙ sym (ap (λ x. x.path) f')) ∙ e'
          | inr (ne', old') ↦ coherent.distinct i j s t old old' p
        ]
      ];
    }

    pub apply_result-Coherent :
        Coherent (apply_result out reg nm state durable_state result).registry
    unfolding apply_result
    apply_result-Coherent = ground (arith, accept_new-Coherent, coherent)
