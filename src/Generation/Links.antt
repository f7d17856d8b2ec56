-- ===== src/Generation/Links.antt =====
-- What the edits of composer/spec/source/author.py do to the files and the links.
use certora_aicomposer.Prelude.{
  String, Bool, true, false, List, [], ◌∷◌, Option, some, ◌≡◌, refl, ap, ◌∙◌, append_assoc,
  if◌then◌else◌,
}
use mathlib.Core.List.{◌++◌}
use certora_aicomposer.Sets.{All}
use certora_aicomposer.Generation.Config.{
  ConfigEdit, Outcome, starts_with, parse_link, is_link_of, at_link, remove_from_files,
  remove_from_links, apply_edit,
}

-- A link of a field, and a link of another one.
abbrev pub LinkOf : Bool → String → String → String → Type 0
LinkOf same src fld l =
    (parts : String × String × String) × (parse_link l ≡ some parts)
    × (is_link_of src fld parts ≡ same)

at_link-LinkOf :
    (same : Bool) (src fld l : String) (found other : Outcome (List String))
    → LinkOf same src fld l
    → at_link src fld (parse_link l) found other ≡ (if same then found else other)
at_link-LinkOf same src fld l found other h =
    ap (λ o. at_link src fld o found other) h.1 ∙ ap (λ b. if b then found else other) h.2

remove_from_files-first :
    (path : String) (new_files before : List String) (f : String) (after : List String)
    → All (λ g. starts_with g path ≡ false) before
    → starts_with f path ≡ true
    → remove_from_files path new_files (before ++ f ∷ after)
      ≡ Outcome.changed (new_files ++ (before ++ after))
unfolding remove_from_files
remove_from_files-first path new_files [] f after other here = rw here refl
remove_from_files-first path new_files (g ∷ before) f after other here = rw other.0 (
    remove_from_files-first path (new_files ++ g ∷ []) before f after other.1 here
    ∙ ap Outcome.changed (append_assoc new_files (g ∷ []) (before ++ after)))

remove_from_links-first :
    (src fld : String) (new_links before : List String) (l : String) (after : List String)
    → All (LinkOf false src fld) before
    → LinkOf true src fld l
    → remove_from_links src fld new_links (before ++ l ∷ after)
      ≡ Outcome.changed (new_links ++ after)
unfolding remove_from_links
remove_from_links-first src fld new_links [] l after other here = rw (here.1, here.2) refl
remove_from_links-first src fld new_links (k ∷ before) l after other here =
    at_link-LinkOf false src fld k _ _ other.0
    ∙ remove_from_links-first src fld new_links before l after other.1 here

-- To remove a file takes the first file that starts with the path from the list, and keeps the files
-- before and after it in their order.
apply_edit-remove_file :
    (path : String) (before : List String) (f : String) (after : List String)
    (link : Option (List String))
    → All (λ g. starts_with g path ≡ false) before
    → starts_with f path ≡ true
    → apply_edit
        (ConfigEdit.remove_file path)
        (record { files = some (before ++ f ∷ after); link = link })
      ≡ Outcome.changed (record { files = some (before ++ after); link = link })
unfolding apply_edit
apply_edit-remove_file path before f after link other here =
    rw (remove_from_files-first path [] before f after other here) refl

-- To remove a link takes with it every link before it: only those after it are kept.
pub apply_edit-remove_link :
    (src fld : String) (before : List String) (l : String) (after : List String)
    (files : Option (List String))
    → All (LinkOf false src fld) before
    → LinkOf true src fld l
    → apply_edit
        (ConfigEdit.remove_link src fld)
        (record { files = files; link = some (before ++ l ∷ after) })
      ≡ Outcome.changed (record { files = files; link = some after })
unfolding apply_edit
apply_edit-remove_link src fld before l after files other here =
    rw (remove_from_links-first src fld [] before l after other here) refl
