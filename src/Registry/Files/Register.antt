-- ===== src/Registry/Files/Register.antt =====
-- What `FileRegistry.register` of composer/spec/natspec/registry.py does to the store: it writes
-- the reference list, each path stands once, and to register again changes nothing.
use text.Mathlib.Text.{◌==◌}
use text.Mathlib.TextEquality.{eq_iff}
use text.Mathlib.TextPositions.{eq_refl}
use certora_aicomposer.Prelude.{
  String, true, ◌&&◌, List, [], ◌∷◌, Option, none, some, ◌≡◌, refl, ap, ◌∙◌, arith, Bool-cases,
  Option-cases, inl, inr, if◌then◌else◌,
}
use certora_aicomposer.Registry.Store.{Namespace, BaseStore}
use certora_aicomposer.Registry.Files.{
  FileEntry, same_identifier, same_entry, Found, already, updated, absent, find_path, read_contract,
  write_contract, register_found, register,
}
use certora_aicomposer.Registry.Files.Laws.{
  upsert, identifier_of, stored, find_path-upsert, identifier_of-upsert, DistinctPaths,
  DistinctPaths-upsert,
}

same_entry_refl : (e : FileEntry) → same_entry e e ≡ true
unfolding same_entry
same_entry_refl e = rw (eq_refl e.path) (same e.solidity_identifier)
  where
    same : (o : Option String) → same_identifier o o ≡ true
    same none = refl
    same (some a) = eq_refl a

-- What was just written is found.
find_path-upsert_self :
    (e : FileEntry) (files : List FileEntry) → find_path e (upsert e files) ≡ already
unfolding find_path upsert
find_path-upsert_self e [] = rw (eq_refl e.path, same_entry_refl e)
find_path-upsert_self e (x ∷ files) = elim (Bool-cases (x.path == e.path)) [
  | inl same ↦ rw (same, eq_refl e.path, same_entry_refl e)
  | inr other ↦ rw (other, other, find_path-upsert_self e files)
]

written : (c : String) (files others : List FileEntry) → (if c == c then files else others) ≡ files
written c files others = rw (eq_refl c)

module _ (store : BaseStore (List FileEntry)) (namespace : Namespace)
    (materializer_get : String → Option String) where
  open store use {State, aget-aput}

  abbrev entry : String → Option String → FileEntry
  entry path solidity_identifier = record { path = path; solidity_identifier = solidity_identifier }

  -- Reading after a write to the same namespace.
  read-write :
      (s : State) (c d : String) (files : List FileEntry)
      → read_contract store namespace materializer_get
          (write_contract store namespace materializer_get s c files)
          d
        ≡ (if c == d then files else read_contract store namespace materializer_get s d)
  unfolding read_contract write_contract
  read-write s c d files = elim (Bool-cases (c == d)) [
    | inl same ↦ rw (aget-aput s namespace c d files, same)
    | inr other ↦ rw (aget-aput s namespace c d files, other)
  ]

  read-found :
      (s : State) (c d : String) (new_entry : FileEntry) (found : Found)
      → read_contract store namespace materializer_get
          (register_found store namespace materializer_get s c new_entry
            (read_contract store namespace materializer_get s c)
            found).0
          d
        ≡ (if c == d
            then stored new_entry (read_contract store namespace materializer_get s c) found
            else read_contract store namespace materializer_get s d)
  unfolding register_found
  read-found s c d new_entry already = ground (arith, eq_iff c d)
  read-found s c d new_entry (updated existing files') = read-write s c d files'
  read-found s c d new_entry absent = read-write s c d _

  register-known :
      (s : State) (contract path content : String) (solidity_identifier : Option String)
      → materializer_get path ≡ some content
      → register store namespace materializer_get s contract path solidity_identifier ≡ (
          let e = entry path solidity_identifier in
          let files = read_contract store namespace materializer_get s contract in
          register_found store namespace materializer_get s contract e files (find_path e files))
  unfolding register
  register-known s contract path content solidity_identifier known = rw (known, register)

  register-unknown :
      (s : State) (contract path : String) (solidity_identifier : Option String)
      → materializer_get path ≡ none
      → (register store namespace materializer_get s contract path solidity_identifier).0 ≡ s
  unfolding register
  register-unknown s contract path solidity_identifier unknown = rw (unknown, register)

  register-already :
      (s : State) (contract path content : String) (solidity_identifier : Option String)
      → materializer_get path ≡ some content
      → find_path
          (entry path solidity_identifier)
          (read_contract store namespace materializer_get s contract)
        ≡ already
      → (register store namespace materializer_get s contract path solidity_identifier).0 ≡ s
  unfolding register_found
  register-already s contract path content solidity_identifier known found =
      rw (register-known s contract path content solidity_identifier known, found)

  -- `register` with a path that the materializer has writes the entry over the one of that
  -- contract with the path, or at its end, and leaves the files of the other contracts.
  pub register-upsert :
      (s : State) (contract path content : String) (solidity_identifier : Option String)
      → materializer_get path ≡ some content
      → (other : String)
      → read_contract store namespace materializer_get
          (register store namespace materializer_get s contract path solidity_identifier).0
          other
        ≡ (if contract == other
            then upsert
                (entry path solidity_identifier)
                (read_contract store namespace materializer_get s contract)
            else read_contract store namespace materializer_get s other)
  register-upsert s contract path content solidity_identifier known other =
      let new_entry = entry path solidity_identifier in
      let files = read_contract store namespace materializer_get s contract in
      rw (register-known s contract path content solidity_identifier known) (
        rw (find_path-upsert new_entry files) at
          (read-found s contract other new_entry (find_path new_entry files)))

  -- After `register` with a path that the materializer has, that path has the given identifier in
  -- that contract (the latest call wins); any other path, and any other contract, has the one
  -- that it had.
  pub register-identifier_of :
      (s : State) (contract path content : String) (solidity_identifier : Option String)
      → materializer_get path ≡ some content
      → (other asked : String)
      → identifier_of asked (
          read_contract store namespace materializer_get
            (register store namespace materializer_get s contract path solidity_identifier).0
            other)
        ≡ (if contract == other && path == asked
            then some solidity_identifier
            else identifier_of asked (read_contract store namespace materializer_get s other))
  register-identifier_of s contract path content solidity_identifier known other asked =
      rw (register-upsert s contract path content solidity_identifier known other)
        (elim (Bool-cases (contract == other)) [
          | inl same ↦ rw same (
              identifier_of-upsert asked (entry path solidity_identifier)
                (read_contract store namespace materializer_get s contract)
              ∙ ap
                  (λ c.
                    if path == asked
                    then some solidity_identifier
                    else identifier_of asked (read_contract store namespace materializer_get s c))
                  ((eq_iff contract other).0 same))
          | inr differs ↦ rw differs
        ])

  -- `register` keeps every path at most once in every contract, whether the materializer has the
  -- path or not.
  pub register-DistinctPaths :
      (s : State) (contract path : String) (solidity_identifier : Option String)
      → ((c : String) → DistinctPaths (read_contract store namespace materializer_get s c))
      → (c : String)
      → DistinctPaths (
          read_contract store namespace materializer_get
            (register store namespace materializer_get s contract path solidity_identifier).0
            c)
  register-DistinctPaths s contract path solidity_identifier distinct c =
      elim (Option-cases (materializer_get path)) [
        | inl unknown ↦
            rw (register-unknown s contract path solidity_identifier unknown) (distinct c)
        | inr (content, known) ↦
            rw (register-upsert s contract path content solidity_identifier known c)
              (elim (Bool-cases (contract == c)) [
                | inl same ↦ rw same (DistinctPaths-upsert _ _ (distinct contract))
                | inr differs ↦ rw differs (distinct c)
              ])
      ]

  -- To register a path again with the same identifier leaves the store of the first time.
  pub register_twice :
      (s : State) (contract path : String) (solidity_identifier : Option String)
      → let once =
          (register store namespace materializer_get s contract path solidity_identifier).0 in
        (register store namespace materializer_get once contract path solidity_identifier).0 ≡ once
  register_twice s contract path solidity_identifier = elim (Option-cases (materializer_get path)) [
    | inl unknown ↦ register-unknown _ contract path solidity_identifier unknown
    | inr (content, known) ↦ register-already _ contract path content solidity_identifier known (
        ap (find_path (entry path solidity_identifier)) (
          register-upsert s contract path content solidity_identifier known contract
          ∙ written contract _ _)
        ∙ find_path-upsert_self _ _)
  ]
