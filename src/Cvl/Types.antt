-- ===== src/Cvl/Types.antt =====
-- CVL and VM types and the parameters that carry them (composer/cvl/schema.py).
use certora_aicomposer.Prelude.{ℕ, String, Option}

-- Python's `int`; `negsuc n` is -(n + 1).
pub data ℤ : Type 0 where
  pos : ℕ → ℤ
  negsuc : ℕ → ℤ

-- The type of the names, a union of 102 literals, is widened to texts.
pub data PrimitiveType : Type 0 where
  primitive : (type_name : String) → PrimitiveType

pub data CvlType : Type 0 where
  mapping : (key_type value_type : CvlType) → CvlType
  dyn_array : (base_type : CvlType) → CvlType
  static_array : (base_type : CvlType) (n : ℤ) → CvlType
  contract_type : (host_contract type_name : String) → CvlType
  storage_type : CvlType
  primitive : (type_name : String) → CvlType

pub data DataLocation : Type 0 where
  calldata memory storage : DataLocation

pub record VmType : Type 0 where
  pub base_type : CvlType
  pub location : Option DataLocation

pub record VmParam : Type 0 where
  pub ty : VmType
  pub name : Option String

pub record TypeAndId : Type 0 where
  pub decl_type : CvlType
  pub id : String

pub record NamedVmParam : Type 0 where
  pub param_type : CvlType
  pub name : String
