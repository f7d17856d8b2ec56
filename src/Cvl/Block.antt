-- ===== src/Cvl/Block.antt =====
-- The top-level blocks of a specification file, and the file (composer/cvl/schema.py).
use certora_aicomposer.Prelude.{String, Bool, List, Option}
use certora_aicomposer.Cvl.Types.{CvlType, PrimitiveType, VmType, VmParam, TypeAndId, NamedVmParam}
use certora_aicomposer.Cvl.Expression.{Expression, FilteredBlock, MethodReference}
use certora_aicomposer.Cvl.Command.{CodeBlock}

pub record ImportSpec : Type 0 where
  pub spec_file : String

pub record ContractImport : Type 0 where
  pub contract_name : String
  pub as_name : String

pub record RuleBlock : Type 0 where
  pub rule_name : String
  pub rule_params : List TypeAndId
  pub filtered_block : Option (List FilteredBlock)
  pub block : CodeBlock

pub record FunctionDef : Type 0 where
  pub name : String
  pub params : List TypeAndId
  pub return_value : List CvlType
  pub block : CodeBlock

pub record MethodWithoutReturn : Type 0 where
  pub host_contract : Option String
  pub name : String
  pub params : List NamedVmParam

pub data SpecialMethod : Type 0 where
  constructor fallback : SpecialMethod

pub data ProofTarget : Type 0 where
  special : (special_target : SpecialMethod) → ProofTarget
  generic : ProofTarget
  specific_method : (sig : MethodWithoutReturn) → ProofTarget

pub record WithBlock : Type 0 where
  pub id : String

pub record ProofBlock : Type 0 where
  pub target : ProofTarget
  pub block : CodeBlock
  pub with_binding : Option WithBlock

pub record Invariant : Type 0 where
  pub name : String
  pub invariant_params : List TypeAndId
  pub invariant_expression : Expression
  pub filter : Option FilteredBlock
  pub proofs : List ProofBlock

pub record SortDef : Type 0 where
  pub sort_name : String

-- The base type of a ghost variable is a primitive type or a mapping.
pub data GhostBase : Type 0 where
  primitive_ghost : PrimitiveType → GhostBase
  mapping_ghost : (key_type value_type : CvlType) → GhostBase

pub data GhostType : Type 0 where
  ghost_fun : (params : List CvlType) (result_type : CvlType) → GhostType
  ghost_type : (base_type : GhostBase) → GhostType

pub record GhostAxiom : Type 0 where
  pub initial : Bool
  pub exp : Expression

pub record GhostDef : Type 0 where
  pub ghost_name : String
  pub ghost_type : GhostType
  pub persistent : Bool
  pub axioms : List GhostAxiom

pub record MacroDef : Type 0 where
  pub id : String
  pub params : List TypeAndId
  pub result_type : CvlType
  pub exp : Expression

pub data SlotPattern : Type 0 where
  named : (name : String) → SlotPattern
  map_access : (base_pattern : SlotPattern) (key_param : NamedVmParam) → SlotPattern
  array_access : (base_pattern : SlotPattern) (index_param : NamedVmParam) → SlotPattern
  field_access : (base_pattern : SlotPattern) (field_name : String) → SlotPattern

-- The fields that `sload` and `tload` share, and those of `sstore` and `tstore`.
pub record LoadPattern : Type 0 where
  pub value_param : NamedVmParam
  pub slot_pattern : SlotPattern

pub record StorePattern : Type 0 where
  pub slot_pattern : SlotPattern
  pub new_value_param : NamedVmParam
  pub old_value_param : Option NamedVmParam

pub data HookPattern : Type 0 where
  sload tload : LoadPattern → HookPattern
  sstore tstore : StorePattern → HookPattern
  create : (param : NamedVmParam) → HookPattern
  opcode :
      (opcode_name : String) (input_params : List NamedVmParam) (output_param : Option NamedVmParam)
      → HookPattern

pub record HookDef : Type 0 where
  pub pattern : HookPattern
  pub block : CodeBlock

pub data ExpectClause : Type 0 where
  expect_type : (expected_types : List VmType) → ExpectClause
  expect_void : ExpectClause

pub data HavocKeyword : Type 0 where
  nondet havoc_all havoc_ecf auto assert_false : HavocKeyword

pub data SummaryKeyword : Type 0 where
  constant per_callee_constant : SummaryKeyword

pub data CallSummary : Type 0 where
  keyword : (summary_keyword : SummaryKeyword) → CallSummary
  always : (expression : Expression) → CallSummary
  expression : (expression : Expression) (expect_clause : Option ExpectClause) → CallSummary
  dispatcher : (optimistic use_fallback : Bool) → CallSummary
  havocing : (havoc_keyword : HavocKeyword) → CallSummary

pub data PreReturnFlag : Type 0 where
  internal external : PreReturnFlag

pub data PostReturnFlags : Type 0 where
  optional envfree : PostReturnFlags

pub record MethodSignature : Type 0 where
  pub method_ref : MethodReference
  pub parameters : List VmParam
  pub return_types : List VmParam
  pub visibility : PreReturnFlag
  pub post_flags : List PostReturnFlags

pub data DispatchPattern : Type 0 where
  matching_signature :
      (host_contract : Option String) (method_name : String) (params : List VmType)
      → DispatchPattern
  all_in_contract : (contract_name : String) → DispatchPattern

pub record DispatchList : Type 0 where
  pub optimistic : Bool
  pub use_fallback : Bool
  pub patterns : List DispatchPattern
  pub default_summary : Option HavocKeyword

pub data UnresolvedInTarget : Type 0 where
  catch_all : UnresolvedInTarget
  specific_method :
      (host_contract : Option String) (param_types : List VmParam) (name : String)
      → UnresolvedInTarget
  with_signature : (method_name : String) (params : List VmParam) → UnresolvedInTarget
  all_in_contract : (contract_name : String) → UnresolvedInTarget

pub data MethodEntry : Type 0 where
  imported_function :
      (signature : MethodSignature) (summary : Option CallSummary) (with_env : Option String)
      → MethodEntry
  catch_all : (contract_name : String) (summary : HavocKeyword) → MethodEntry
  unresolved_dynamic : (method_ref : UnresolvedInTarget) (summary : DispatchList) → MethodEntry

pub data BasicBlock : Type 0 where
  invariant : Invariant → BasicBlock
  func_def : FunctionDef → BasicBlock
  rule : RuleBlock → BasicBlock
  sort_decl : SortDef → BasicBlock
  ghost_def : GhostDef → BasicBlock
  macro_def : MacroDef → BasicBlock
  hook_def : HookDef → BasicBlock
  methods_block : (method_entries : List MethodEntry) → BasicBlock

pub record CvlFile : Type 0 where
  pub import_specs : List ImportSpec
  pub import_contract : List ContractImport
  pub blocks : List BasicBlock
