-- ===== src/Registry/Stubs.antt =====
-- `StubRegistry` and its registry agent in composer/spec/natspec/registry.py. Parameters: the
-- store, pydantic's dump and validation of `_StubDurableState`, the compiler's verdict on a stub,
-- and the results that the agent proposes, one after the other, until one is accepted.
pub mod Field
pub mod Coherent
pub mod Request
pub mod Added
pub mod Create
pub mod Keys
pub mod Created
use text.Mathlib.Text.{◌==◌}
use mathlib.Core.List.{◌++◌}
use certora_aicomposer.Prelude.{
  String, Bool, true, false, List, [], ◌∷◌, Option, none, some, ◌≡◌, if◌then◌else◌,
}
use certora_aicomposer.Text.{is_empty}
use certora_aicomposer.Text
use certora_aicomposer.Dict.{Dict, lookup, insert}
use certora_aicomposer.Registry.Store.{Namespace, BaseStore}

pub record FieldSpec : Type 0 where
  pub name : String
  pub type : String
  pub description : String

pub record RegistryResult : Type 0 where
  pub field_name : String
  pub is_new : Bool
  pub field_type : String
  pub rejected : Bool
  pub description : String
  pub updated_stub : String

-- `_lock` is not a field: a request holds it from its first read to its last write.
pub record StubMemoryState : Type 0 where
  pub path : String
  pub content : String
  pub interface : String

pub record StubDurableState : Type 0 where
  pub fields : List FieldSpec
  pub content : String

pub record StubUpdate : Type 0 where
  pub contract_id : String
  pub stub : String

-- The fields of `StubDeclarationModel` that the registry reads.
pub record InitialStub : Type 0 where
  pub path : String
  pub content : String

-- A failed `assert`, and a missing key.
pub data Error : Type 0 where
  assertion_error key_error : Error

pub data Result {ℓ} (A : Type ℓ) : Type ℓ where
  ok : A → Result A
  raise : Error → Result A

infixl 5 ◌>>=◌
abbrev pub ◌>>=◌ {ℓ κ} : {A : Type ℓ} {B : Type κ} → Result A → (A → Result B) → Result B
ok a >>= f = f a
raise e >>= f = raise e

abbrev pub or_raise {ℓ} : {A : Type ℓ} → Option A → Error → Result A
or_raise none e = raise e
or_raise (some a) e = ok a

abbrev pub check : Bool → Result (Unit {0})
check true = ok tt
check false = raise assertion_error

-- The world around the registry.
pub record Outside : Type 1 where
  pub V : Type 0
  pub store : BaseStore V
  pub model_dump : StubDurableState → V
  pub model_validate : V → Option StubDurableState
  pub validate-dump : (s : StubDurableState) → model_validate (model_dump s) ≡ some s
  -- The error of `_compile_stub` for a stub and its path.
  pub compile_stub : String → String → Option String
  -- What the agent proposes for a request, given the stub and the fields known so far.
  pub proposals : String → StubMemoryState → List FieldSpec → List RegistryResult

module _ (out : Outside) where
  open out use {V, store, model_dump, model_validate, compile_stub, proposals}
  open store use {State, aget, aput}

  -- `validate_result`; `none` accepts.
  unfoldable pub validate_result : String → RegistryResult → Option String
  validate_result stub_path res =
      if res.is_new
      then (if is_empty res.field_type
          then some "When proposing a new field, you must provide field_type (the Solidity type)."
          else if is_empty res.description
          then some "When proposing a new field, you must provide field_description."
          else if is_empty res.updated_stub
          then some
              "When proposing a new field, you must provide updated_stub (the complete source code)."
          else elim (compile_stub res.updated_stub stub_path) [
            | none ↦ none
            | some compile_err ↦ some (
                Text.◌++◌ "The updated stub does not compile. Fix the issue and try again.\n"
                  compile_err)
          ])
      else none

  -- The first proposal that the result tool accepts; with none there is no "result".
  unfoldable pub first_accepted : String → List RegistryResult → Result RegistryResult
  first_accepted stub_path [] = raise assertion_error
  first_accepted stub_path (res ∷ later) =
      let rest = first_accepted stub_path later in
      elim (validate_result stub_path res) [ none ↦ ok res | some err_msg ↦ rest ]

  unfoldable pub run_registry_agent :
      String → StubMemoryState → List FieldSpec → Result RegistryResult
  run_registry_agent request state field_metadata =
      first_accepted state.path (proposals request state field_metadata)

  unfoldable pub state_write : State → Namespace → String → StubDurableState → State
  state_write s ns id state = aput s ns id (model_dump state)

  validated : Option V → Option StubDurableState
  validated none = none
  validated (some value) = model_validate value

  unfoldable pub state_read : State → Namespace → String → Option StubDurableState
  unfolding validated
  state_read s ns id = validated (aget s ns id)

  pub record StubRegistry : Type 0 where
    pub stored : State
    pub namespace : Namespace
    pub mirror_by_path : Dict String
    pub state_by_id : Dict StubMemoryState
