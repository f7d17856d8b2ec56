-- ===== src/Generation/Config.antt =====
-- The edits of the prover's configuration in composer/spec/source/author.py: `ConfigEditTool`. The
-- texts of the answers are left out. An `assert` that fails and an index out of range raise.
use Prim.Native.Char.{code}
use certora_aicomposer.Prelude.{
  ℕ, zero, suc, ◌==◌, String, Bool, true, false, List, [], ◌∷◌, Option, none, some, ◌&&◌, ◌||◌,
  if◌then◌else◌,
}
use mathlib.Core.List as Lists
use text.Mathlib.Text
use certora_aicomposer.Text.{◌++◌}
use certora_aicomposer.Generation.Types.{ProverConfig}
use certora_aicomposer.Generation.Edit.{after_prefix, count}

pub data ConfigEdit : Type 0 where
  remove_file : String → ConfigEdit
  add_file : String → Option String → ConfigEdit
  add_link : String → String → String → ConfigEdit
  remove_link : String → String → ConfigEdit

-- The edits are refused, one of them raises, or the configuration is a new one.
pub data Outcome {ℓ} (A : Type ℓ) : Type ℓ where
  raised : Outcome A
  refused : Outcome A
  changed : A → Outcome A

abbrev pub starts_with : String → String → Bool
starts_with s start = elim (after_prefix start s) [ some _ ↦ true | none ↦ false ]

-- `s.split(c, 1)`: what stands before the first of the characters, and after it if it is there.
unfoldable pub split_at : ℕ → String → String × Option String
split_at sep String.[] = ("", none)
split_at sep (String.◌∷◌ c s) =
    let rest = split_at sep s in
    if code c == sep then ("", some s) else (String.◌∷◌ c rest.0, rest.1)

-- `_parse_link`: the characters are `=` and `:`.
unfoldable pub parse_link : String → Option (String × String × String)
unfolding split_at
parse_link l = fields (split_at 61 l).0 (split_at 61 l).1
  where
    named : String → Option String → String → Option (String × String × String)
    named contract none target = none
    named contract (some field) target = some (contract, field, target)

    fields : String → Option String → Option (String × String × String)
    fields base none = none
    fields base (some target) = named (split_at 58 base).0 (split_at 58 base).1 target

-- The loop of `RemoveFile`: the first file that starts with the path goes.
unfoldable pub remove_from_files : String → List String → List String → Outcome (List String)
remove_from_files path new_files [] = Outcome.refused
remove_from_files path new_files (f ∷ files) =
    let rest = remove_from_files path (Lists.◌++◌ new_files (f ∷ [])) files in
    if starts_with f path then Outcome.changed (Lists.◌++◌ new_files files) else rest

unfoldable pub any_starts : String → List String → Bool
any_starts path [] = false
any_starts path (f ∷ files) =
    let rest = any_starts path files in if starts_with f path then true else rest

-- Whether the parts of a link are those of the field.
abbrev pub is_link_of : String → String → String × String × String → Bool
is_link_of src fld (curr_src, curr_fld, curr_dst) = Text.◌==◌ curr_src src && Text.◌==◌ curr_fld fld

-- The body of a loop over the links: what it does at a link of the field, and at another one.
abbrev pub at_link :
    String
    → String
    → Option (String × String × String)
    → Outcome (List String)
    → Outcome (List String)
    → Outcome (List String)
at_link src fld none found other = Outcome.raised
at_link src fld (some parts) found other = if is_link_of src fld parts then found else other

-- The loop of `AddLink`: whether a link of the field is there.
unfoldable pub check_links :
    String → String → List String → Outcome (List String) → Outcome (List String)
check_links src fld [] done = done
check_links src fld (l ∷ links) done =
    at_link src fld (parse_link l) Outcome.refused (check_links src fld links done)

-- The loop of `RemoveLink`.
unfoldable pub remove_from_links :
    String → String → List String → List String → Outcome (List String)
remove_from_links src fld new_links [] = Outcome.refused
remove_from_links src fld new_links (l ∷ links) =
    at_link src fld (parse_link l) (Outcome.changed (Lists.◌++◌ new_links links))
      (remove_from_links src fld new_links links)

-- `".sol" in name`
abbrev pub has_extension : String → Bool
has_extension name = elim (count name ".sol") [ zero ↦ false | suc _ ↦ true ]

abbrev with_files : ProverConfig → Outcome (List String) → Outcome ProverConfig
with_files config (Outcome.changed files) = Outcome.changed (record config { files = some files })
with_files config Outcome.refused = Outcome.refused
with_files config Outcome.raised = Outcome.raised

abbrev with_links : ProverConfig → Outcome (List String) → Outcome ProverConfig
with_links config (Outcome.changed links) = Outcome.changed (record config { link = some links })
with_links config Outcome.refused = Outcome.refused
with_links config Outcome.raised = Outcome.raised

abbrev named_file : String → Option String → String
named_file to_add none = to_add
named_file to_add (some contract) = to_add ++ (":" ++ contract)

abbrev pub remove_file_from : String → Option (List String) → Outcome (List String)
remove_file_from path none = Outcome.raised
remove_file_from path (some files) = remove_from_files path [] files

abbrev pub add_file_to : String → Option String → Option (List String) → Outcome (List String)
add_file_to to_add contract none = Outcome.raised
add_file_to to_add contract (some files) =
    if any_starts to_add files
    then Outcome.refused
    else Outcome.changed (Lists.◌++◌ files (named_file to_add contract ∷ []))

abbrev links_of : Option (List String) → List String
links_of none = []
links_of (some links) = links

abbrev pub add_link_to : String → String → String → Option (List String) → Outcome (List String)
add_link_to src fld tgt link =
    if has_extension src || has_extension tgt
    then Outcome.refused
    else check_links src fld (links_of link) (
        Outcome.changed (Lists.◌++◌ (links_of link) ((src ++ (":" ++ (fld ++ ("=" ++ tgt)))) ∷ [])))

abbrev pub remove_link_from : String → String → Option (List String) → Outcome (List String)
remove_link_from src fld none = Outcome.refused
remove_link_from src fld (some links) = remove_from_links src fld [] links

unfoldable pub apply_edit : ConfigEdit → ProverConfig → Outcome ProverConfig
apply_edit (ConfigEdit.remove_file path) config =
    with_files config (remove_file_from path config.files)
apply_edit (ConfigEdit.add_file path contract) config =
    with_files config (add_file_to path contract config.files)
apply_edit (ConfigEdit.add_link src fld tgt) config =
    with_links config (add_link_to src fld tgt config.link)
apply_edit (ConfigEdit.remove_link src fld) config =
    with_links config (remove_link_from src fld config.link)

-- All the edits or none.
unfoldable pub apply_edits : List ConfigEdit → ProverConfig → Outcome ProverConfig
apply_edits [] config = Outcome.changed config
apply_edits (e ∷ edits) config = elim (apply_edit e config) [
  | Outcome.changed next ↦ apply_edits edits next
  | Outcome.refused ↦ Outcome.refused
  | Outcome.raised ↦ Outcome.raised
]
