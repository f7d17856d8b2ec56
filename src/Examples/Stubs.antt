-- ===== src/Examples/Stubs.antt =====
-- `StubRegistry` of composer/spec/natspec/registry.py on a small store; a dumped state is the state.
use certora_aicomposer.Prelude.{
  String, true, false, List, [], ◌∷◌, none, some, ◌≡◌, ◌≢◌, inl, inr, refl, sym, ap, ◌∙◌,
}
use text.Mathlib.TextEquality.{eq_iff}
use certora_aicomposer.Dict.{Dict, lookup, insert, found-insert}
use certora_aicomposer.Registry.Stubs.{
  FieldSpec, RegistryResult, StubMemoryState, StubDurableState, InitialStub, ok, Outside,
  run_registry_agent, state_read, StubRegistry, first_accepted, validate_result, state_write,
}
use certora_aicomposer.Registry.Stubs.Field.{
  Outcome, request_field, locked_request, apply_result, accept_new, new_durable, new_field,
}
use certora_aicomposer.Registry.Stubs.Create.{acreate}
use certora_aicomposer.Registry.Stubs.Keys.{stub_keys, Separate, Interfaced}
use certora_aicomposer.Registry.Stubs.Created.{acreate-Coherent}
use certora_aicomposer.Registry.Stubs.Coherent.{Coherent}
use certora_aicomposer.Registry.Stubs.Request.{request_field-Coherent, request_field_returns}
use certora_aicomposer.Registry.Stubs.Added.{Requested, request_field-Added}
use certora_aicomposer.Examples.Registry.{one_namespace}

abbrev proposed : RegistryResult
proposed = record {
  field_name = "total";
  is_new = true;
  field_type = "uint256";
  rejected = false;
  description = "the sum of all balances";
  updated_stub = "contract S { uint256 total; }";
}

abbrev world : Outside
world = record {
  V = StubDurableState;
  store = one_namespace StubDurableState;
  model_dump = λ s. s;
  model_validate = some;
  validate-dump = λ s. refl;
  compile_stub = λ source path. none;
  proposals = λ purpose state fields. proposed ∷ [];
}

abbrev one_stub : StubRegistry world
one_stub = record {
  stored = ("S", record { fields = []; content = "contract S {}" }) ∷ [];
  namespace = [];
  mirror_by_path = ("S.sol", "contract S {}") ∷ [];
  state_by_id =
      ("S", record { path = "S.sol"; content = "contract S {}"; interface = "interface I {}" })
      ∷ [];
}

abbrev stub : StubMemoryState
stub = record { path = "S.sol"; content = "contract S {}"; interface = "interface I {}" }

-- The only contract that the registry has.
only_stub :
    (id : String) (state : StubMemoryState)
    → lookup id one_stub.state_by_id ≡ some state
    → (id ≡ "S") × (state ≡ stub)
unfolding lookup insert
only_stub id state h = elim (found-insert "S" id stub state [] h) [
  | inl (e, f) ↦ (sym e, sym f)
  | inr (ne, old) ↦ cc
]

one_stub-Coherent : Coherent world one_stub
unfolding state_read lookup
one_stub-Coherent = record {
  durable = λ id state h.
      let (e, f) = only_stub id state h in
      (record { fields = []; content = "contract S {}" }, rw e refl, sym (ap (λ x. x.content) f));
  mirrored = λ id state h. let (e, f) = only_stub id state h in rw f refl;
  distinct = λ i j s t h k p. (only_stub i s h).0 ∙ sym (only_stub j t k).0;
}

accepts :
    (state : StubMemoryState) (fields : List FieldSpec)
    → (result : RegistryResult) × (run_registry_agent world "a total" state fields ≡ ok result)
unfolding run_registry_agent first_accepted validate_result
accepts state fields = (proposed, refl)

S-ne-T : ◌≢◌ {A = String} "S" "T"
S-ne-T = λ e. cc ((eq_iff "S" "T").1 e)

abbrev field_added : Outcome world
field_added = record {
  reply = "Use field total";
  registry = record {
    stored =
        (
          "S",
          record {
            fields =
                record { name = "total"; type = "uint256"; description = "the sum of all balances" }
                ∷ [];
            content = "contract S { uint256 total; }";
          },
        )
        ∷ [];
    namespace = [];
    mirror_by_path = ("S.sol", "contract S { uint256 total; }") ∷ [];
    state_by_id =
        (
          "S",
          record {
            path = "S.sol";
            content = "contract S { uint256 total; }";
            interface = "interface I {}";
          },
        )
        ∷ [];
  };
  events = record { contract_id = "S"; stub = "contract S { uint256 total; }" } ∷ [];
}

-- The request ends with the new field.
requested : request_field world one_stub "S" "a total" ≡ ok field_added
unfolding request_field lookup locked_request state_read run_registry_agent first_accepted
    validate_result apply_result accept_new state_write insert new_durable new_field
requested = refl

request_field-Coherent_example : Coherent world field_added.registry
request_field-Coherent_example =
    request_field-Coherent world one_stub "S" "a total" field_added one_stub-Coherent requested

request_field_returns_example :
    (o : Outcome world) × (request_field world one_stub "S" "a total" ≡ ok o)
request_field_returns_example =
    request_field_returns world one_stub "S" "a total" one_stub-Coherent accepts

request_field-Added_example : Requested world one_stub "S" "a total" field_added
request_field-Added_example = request_field-Added world one_stub "S" "a total" field_added requested

-- One contract is in the store already, the other one is new.
abbrev two_stubs : Dict InitialStub
two_stubs =
    ("S", record { path = "S.sol"; content = "contract S { }" })
    ∷ ("T", record { path = "T.sol"; content = "contract T {}" })
    ∷ []

abbrev interfaces : Dict String
interfaces = ("S", "interface I {}") ∷ ("T", "interface J {}") ∷ []

two_stubs-Separate : Separate (stub_keys two_stubs)
two_stubs-Separate =
    ((λ e. S-ne-T (sym e), tt), (λ e. cc ((eq_iff "T.sol" "S.sol").1 e), tt), (tt, tt, tt))

two_stubs-Interfaced : Interfaced interfaces two_stubs
unfolding lookup
two_stubs-Interfaced = (("interface I {}", refl), (("interface J {}", refl), tt))

acreate-Coherent_example :
    (reg : StubRegistry world) × (acreate world one_stub.stored ("demo" ∷ []) interfaces two_stubs
      ≡ ok reg)
    × Coherent world reg
acreate-Coherent_example =
    acreate-Coherent world one_stub.stored ("demo" ∷ []) interfaces two_stubs two_stubs-Separate
      two_stubs-Interfaced
