-- ===== src/Printer/Types.antt =====
-- The printers of types and parameters in composer/cvl/pretty_print.py.
use certora_aicomposer.Prelude.{suc, String, List, Option, none, some, map}
use certora_aicomposer.Text.{◌++◌, join, decimal, truthy}
use certora_aicomposer.Cvl.Types.{
  ℤ, CvlType, DataLocation, VmType, VmParam, TypeAndId, NamedVmParam,
}

-- `str(n)`
unfoldable pub int_text : ℤ → String
int_text (ℤ.pos n) = decimal n
int_text (ℤ.negsuc n) = "-" ++ decimal (suc n)

unfoldable pub print_cvl_type : CvlType → String
print_cvl_type (CvlType.mapping key_type value_type) =
    "mapping(" ++ print_cvl_type key_type ++ " => " ++ print_cvl_type value_type ++ ")"
print_cvl_type (CvlType.dyn_array base_type) = print_cvl_type base_type ++ "[]"
print_cvl_type (CvlType.static_array base_type n) =
    print_cvl_type base_type ++ "[" ++ int_text n ++ "]"
print_cvl_type (CvlType.primitive type_name) = type_name
print_cvl_type CvlType.storage_type = "storage"
print_cvl_type (CvlType.contract_type host_contract type_name) = host_contract ++ "." ++ type_name

location_text : DataLocation → String
location_text DataLocation.calldata = "calldata"
location_text DataLocation.memory = "memory"
location_text DataLocation.storage = "storage"

-- `r` if there is no location.
with_location : String → Option DataLocation → String
with_location r none = r
with_location r (some location) = r ++ " " ++ location_text location

unfoldable pub print_vm_type : VmType → String
unfolding with_location location_text
print_vm_type vmt = with_location (print_cvl_type vmt.base_type) vmt.location

unfoldable pub print_type_and_id : TypeAndId → String
print_type_and_id tai = print_cvl_type tai.decl_type ++ " " ++ tai.id

unfoldable pub print_namedvm_param : NamedVmParam → String
print_namedvm_param param = print_cvl_type param.param_type ++ " " ++ param.name

-- `prefix + x` or `x + postfix` for an optional text that counts as absent when it is empty.
abbrev pub prefixed : String → Option String → String
prefixed before none = ""
prefixed before (some s) = before ++ s

abbrev pub suffixed : Option String → String → String
suffixed none after = ""
suffixed (some s) after = s ++ after

unfoldable pub print_vm_param : VmParam → String
print_vm_param vm_param = print_vm_type vm_param.ty ++ prefixed " " (truthy vm_param.name)

unfoldable pub maybe_contract : Option String → String
maybe_contract contract = suffixed (truthy contract) "."

-- `print_and_join`, its delimiter the default one.
unfoldable pub print_and_join {ℓ} : {A : Type ℓ} → List A → (A → String) → String → String → String
print_and_join elems mapper before after = before ++ join ", " (map mapper elems) ++ after
