-- ===== src/Registry/Files/Laws.antt =====
-- What `FileRegistry.register` of composer/spec/natspec/registry.py does to the registered files,
-- against a reference: write the entry over the one with its path, or at the end.
use text.Mathlib.Text.{◌==◌}
use text.Mathlib.TextEquality.{eq_iff}
use mathlib.Core.List.{◌++◌}
use certora_aicomposer.Prelude.{
  String, true, List, [], ◌∷◌, Option, none, some, ◌≡◌, ◌≢◌, refl, sym, ap, arith, subst,
  Bool-cases, inl, inr, if◌then◌else◌,
}
use certora_aicomposer.Registry.Files.{
  FileEntry, same_identifier, same_entry, Found, already, updated, absent, behind, find_path,
}

-- The reference.
unfoldable pub upsert : FileEntry → List FileEntry → List FileEntry
upsert new_entry [] = new_entry ∷ []
upsert new_entry (existing ∷ files) =
    let rest = upsert new_entry files in
    if existing.path == new_entry.path then new_entry ∷ files else existing ∷ rest

-- The identifier under which a path is registered.
unfoldable pub identifier_of : String → List FileEntry → Option (Option String)
identifier_of path [] = none
identifier_of path (e ∷ files) =
    if e.path == path then some e.solidity_identifier else identifier_of path files

same_identifier→eq : (a b : Option String) → same_identifier a b ≡ true → a ≡ b
same_identifier→eq none none h = refl
same_identifier→eq none (some b) h = cc
same_identifier→eq (some a) none h = cc
same_identifier→eq (some a) (some b) h = ap some ((eq_iff a b).0 h)

same_entry→eq : (a b : FileEntry) → same_entry a b ≡ true → a ≡ b
unfolding same_entry
same_entry→eq a b h =
    ground
      (arith, eq_iff a.path b.path, same_identifier→eq a.solidity_identifier b.solidity_identifier)

-- What the loop leaves in the list.
abbrev pub stored : FileEntry → List FileEntry → Found → List FileEntry
stored new_entry files already = files
stored new_entry files (updated existing files') = files'
stored new_entry files absent = files ++ new_entry ∷ []

stored-behind :
    (new_entry e : FileEntry) (files : List FileEntry) (found : Found)
    → stored new_entry (e ∷ files) (behind e found) ≡ e ∷ stored new_entry files found
stored-behind new_entry e files already = refl
stored-behind new_entry e files (updated existing files') = refl
stored-behind new_entry e files absent = refl

pub find_path-upsert :
    (new_entry : FileEntry) (files : List FileEntry)
    → stored new_entry files (find_path new_entry files) ≡ upsert new_entry files
unfolding find_path upsert
find_path-upsert new_entry [] = refl
find_path-upsert new_entry (e ∷ files) = ground (
  arith,
  find_path-upsert new_entry files,
  stored-behind new_entry e files (find_path new_entry files),
  same_entry→eq e new_entry,
)

-- A write over a path changes the identifier of that path only.
pub identifier_of-upsert :
    (path : String) (new_entry : FileEntry) (files : List FileEntry)
    → identifier_of path (upsert new_entry files) ≡ (
        if new_entry.path == path
        then some new_entry.solidity_identifier
        else identifier_of path files)
unfolding identifier_of upsert
identifier_of-upsert path new_entry [] = refl
identifier_of-upsert path new_entry (e ∷ files) = ground (
  arith,
  identifier_of-upsert path new_entry files,
  eq_iff e.path new_entry.path,
  eq_iff e.path path,
  eq_iff new_entry.path path,
)

-- No path stands twice: no entry behind another one has its path.
abbrev pub Absent : String → List FileEntry → Type 0
Absent path [] = Unit {0}
Absent path (e ∷ files) = (e.path ≢ path) × Absent path files

abbrev pub DistinctPaths : List FileEntry → Type 0
DistinctPaths [] = Unit {0}
DistinctPaths (e ∷ files) = Absent e.path files × DistinctPaths files

Absent-upsert :
    (path : String) (new_entry : FileEntry) (files : List FileEntry)
    → new_entry.path ≢ path
    → Absent path files
    → Absent path (upsert new_entry files)
unfolding upsert
Absent-upsert path new_entry [] ne h = (ne, tt)
Absent-upsert path new_entry (e ∷ files) ne h = elim (Bool-cases (e.path == new_entry.path)) [
  | inl same ↦ rw same (ne, h.1)
  | inr other ↦ rw other (h.0, Absent-upsert path new_entry files ne h.1)
]

pub DistinctPaths-upsert :
    (new_entry : FileEntry) (files : List FileEntry)
    → DistinctPaths files
    → DistinctPaths (upsert new_entry files)
unfolding upsert
DistinctPaths-upsert new_entry [] h = (tt, tt)
DistinctPaths-upsert new_entry (e ∷ files) h = elim (Bool-cases (e.path == new_entry.path)) [
  | inl same ↦
      rw same (subst (λ p. Absent p files) ((eq_iff e.path new_entry.path).0 same) h.0, h.1)
  | inr other ↦ rw other (
    Absent-upsert e.path new_entry files (λ q. cc ((eq_iff e.path new_entry.path).1 (sym q))) h.0,
    DistinctPaths-upsert new_entry files h.1,
  )
]
