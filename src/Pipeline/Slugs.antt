-- ===== src/Pipeline/Slugs.antt =====
-- `slugify_filename` of composer/spec/util.py and `slugified_name` of composer/spec/system_model.py.
use text.Mathlib.Text.{◌==◌}
use Prim.Native.Char.{Char, code}
use certora_aicomposer.Prelude.{
  ℕ, suc, String, Bool, true, false, List, [], ◌∷◌, map, ◌&&◌, ◌||◌, leb, ltb, if◌then◌else◌,
  ◌==◌ as same_number,
}
use certora_aicomposer.Text.{◌++◌, is_empty, decimal, lstrip_of, rstrip_of}

-- `[A-Za-z0-9_-]`, by the number of the character
unfoldable pub is_safe : Char → Bool
is_safe c =
    (leb 48 (code c) && leb (code c) 57)
    || (leb 65 (code c) && leb (code c) 90)
    || (leb 97 (code c) && leb (code c) 122)
    || same_number (code c) 95
    || same_number (code c) 45

-- `re.sub(r"[^A-Za-z0-9_-]+", "_", name)`; the first argument says that a run has begun.
unfoldable pub collapse : Bool → String → String
collapse in_run String.[] = ""
collapse in_run (String.◌∷◌ c s) =
    let kept = collapse false s in
    let left_out = collapse true s in
    if is_safe c then String.◌∷◌ c kept else if in_run then left_out else "_" ++ left_out

abbrev or_unnamed : String → String
or_unnamed slug = if is_empty slug then "unnamed" else slug

unfoldable pub slugify_filename : String → String
slugify_filename name = or_unnamed (rstrip_of 95 (lstrip_of 95 (collapse false name)))

-- `xs.count(x)`
unfoldable pub count : String → List String → ℕ
count x [] = 0
count x (y ∷ xs) = let rest = count x xs in if y == x then suc rest else rest

-- The component with the index and the name, among the names of its contract's components.
unfoldable pub slugified_name : List String → ℕ → String → String
slugified_name names ind name =
    if ltb 1 (count (slugify_filename name) (map slugify_filename names))
    then slugify_filename name ++ ("_" ++ decimal ind)
    else slugify_filename name
