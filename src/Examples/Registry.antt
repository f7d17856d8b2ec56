-- ===== src/Examples/Registry.antt =====
-- `FileRegistry` of composer/spec/natspec/registry.py on a small store, which is a dictionary of the
-- keys of one namespace: a registry uses no other one.
use certora_aicomposer.Prelude.{
  String, List, [], ◌∷◌, Option, none, some, inl, inr, Bool-cases, if◌then◌else◌,
}
use text.Mathlib.Text.{◌==◌}
use certora_aicomposer.Dict.{Dict, lookup, insert, lookup-insert}
use certora_aicomposer.Registry.Store.{BaseStore}
use certora_aicomposer.Registry.Files.{FileEntry, read_contract, register}
use certora_aicomposer.Registry.Files.Laws.{DistinctPaths}
use certora_aicomposer.Registry.Files.Register.{register-DistinctPaths}

abbrev pub one_namespace : (V : Type 0) → BaseStore V
one_namespace V = record {
  State = Dict V;
  aget = λ s ns k. lookup k s;
  aput = λ s ns k v. insert k v s;
  aget-aput = λ s ns k j v. lookup-insert k j v s;
}

abbrev files_store : BaseStore (List FileEntry)
files_store = one_namespace (List FileEntry)

abbrev tree : String → Option String
tree path = if path == "src/Vault.sol" then some "contract Vault {}" else none

abbrev one_file : Dict (List FileEntry)
one_file = ("Vault", record { path = "src/Vault.sol"; solidity_identifier = none } ∷ []) ∷ []

abbrev after_register : Dict (List FileEntry)
after_register = (register files_store [] tree one_file "Vault" "src/Vault.sol" (some "V2")).0

one_file-DistinctPaths : (c : String) → DistinctPaths (read_contract files_store [] tree one_file c)
unfolding read_contract lookup
one_file-DistinctPaths c = elim (Bool-cases ("Vault" == c)) [
  | inl same ↦ rw same (tt, tt)
  | inr other ↦ rw other tt
]

register-DistinctPaths_example :
    DistinctPaths (read_contract files_store [] tree after_register "Vault")
register-DistinctPaths_example =
    register-DistinctPaths files_store [] tree one_file "Vault" "src/Vault.sol" (some "V2")
      one_file-DistinctPaths "Vault"
