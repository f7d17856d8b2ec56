-- ===== src/Registry/Files.antt =====
-- `FileEntry` and `FileRegistry` of composer/spec/natspec/registry.py. The store and the
-- materializer's `get` are parameters; an item of the store is the list under its key `files`.
pub mod Laws
pub mod Register
use text.Mathlib.Text.{◌==◌}
use certora_aicomposer.Prelude.{
  String, Bool, true, false, List, [], ◌∷◌, Option, none, some, map, ◌&&◌, if◌then◌else◌,
}
use mathlib.Core.List
use certora_aicomposer.Text.{◌++◌}
use certora_aicomposer.Registry.Store.{Namespace, BaseStore}

pub record FileEntry : Type 0 where
  pub path : String
  pub solidity_identifier : Option String

prover_arg : String → Option String → String
prover_arg path none = path
prover_arg path (some solidity_identifier) = path ++ ":" ++ solidity_identifier

unfoldable pub as_prover_arg : FileEntry → String
unfolding prover_arg
as_prover_arg e = prover_arg e.path e.solidity_identifier

abbrev pub same_identifier : Option String → Option String → Bool
same_identifier none none = true
same_identifier (some a) (some b) = a == b
same_identifier _ _ = false

-- `existing == new_entry` of the frozen dataclass.
unfoldable pub same_entry : FileEntry → FileEntry → Bool
same_entry a b = (a.path == b.path) && same_identifier a.solidity_identifier b.solidity_identifier

-- What the loop over the registered files finds: the entry is there, it replaces another one, or
-- there is none with its path.
pub data Found : Type 0 where
  already : Found
  updated : (existing : FileEntry) (files : List FileEntry) → Found
  absent : Found

-- Found behind one more entry in front.
abbrev behind : FileEntry → Found → Found
behind e already = already
behind e (updated existing files) = updated existing (e ∷ files)
behind e absent = absent

unfoldable pub find_path : FileEntry → List FileEntry → Found
find_path new_entry [] = absent
find_path new_entry (existing ∷ files) =
    let rest = find_path new_entry files in
    if existing.path == new_entry.path
    then (if same_entry existing new_entry then already else updated existing (new_entry ∷ files))
    else behind existing rest

module _ (store : BaseStore (List FileEntry)) (namespace : Namespace)
    (materializer_get : String → Option String) where
  open store use {State, aget, aput}

  abbrev or_empty : Option (List FileEntry) → List FileEntry
  or_empty none = []
  or_empty (some files) = files

  unfoldable pub read_contract : State → String → List FileEntry
  read_contract s contract_identifier = or_empty (aget s namespace contract_identifier)

  unfoldable pub write_contract : State → String → List FileEntry → State
  write_contract s contract_identifier files = aput s namespace contract_identifier files

  unfoldable pub read_all : State → String → List String
  read_all s contract_identifier = map as_prover_arg (read_contract s contract_identifier)

  -- The part of `register` under the lock: the store and the reply.
  unfoldable pub register_found :
      State → String → FileEntry → List FileEntry → Found → State × String
  register_found s contract_identifier new_entry files already =
      (s, as_prover_arg new_entry ++ " is already registered for " ++ contract_identifier ++ ".")
  register_found s contract_identifier new_entry files (updated existing files') = (
    write_contract s contract_identifier files',
    "Updated "
        ++ new_entry.path
        ++ " for "
        ++ contract_identifier
        ++ ": "
        ++ as_prover_arg existing
        ++ " -> "
        ++ as_prover_arg new_entry
        ++ ".",
  )
  register_found s contract_identifier new_entry files absent = (
    write_contract s contract_identifier (List.◌++◌ files (new_entry ∷ [])),
    "Registered " ++ as_prover_arg new_entry ++ " for " ++ contract_identifier ++ ".",
  )

  rejection : String → String
  rejection path =
      "Cannot register " ++ path
      ++ ": that file does not exist in the project tree. Use your source tools (`list_files`, "
      ++ "`grep_files`) to find the correct path before registering."

  unfoldable pub register : State → String → String → Option String → State × String
  unfolding rejection
  register s contract_identifier path solidity_identifier =
      let new_entry : FileEntry = record {
        path = path;
        solidity_identifier = solidity_identifier;
      } in
      let files = read_contract s contract_identifier in
      elim (materializer_get path) [
        | none ↦ (s, rejection path)
        | some _ ↦ register_found s contract_identifier new_entry files (find_path new_entry files)
      ]
