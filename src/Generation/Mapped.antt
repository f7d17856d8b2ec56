-- ===== src/Generation/Mapped.antt =====
-- What the mapping of properties to rules is that composer/spec/cvl_generation.py accepts.
use certora_aicomposer.Prelude.{
  String, Bool, true, false, List, [], ◌∷◌, ◌≡◌, ◌⊎◌, inl, inr, refl, sym, subst, ◌||◌, Bool-cases,
  append_assoc,
}
use mathlib.Core.List.{◌++◌}
use certora_aicomposer.Sets.{
  text_eq, In, NotIn, Distinct, All, NotIn_of_not, In-NotIn, In-append_right, contains, contains→In,
  contains→NotIn, In→contains, NotIn→contains, set_of, add_all-new, add_all-cases,
}
use certora_aicomposer.Generation.Types.{SkippedProperty, PropertyRuleMapping}
use certora_aicomposer.Generation.Mapping.{
  Progress, titles_of, check_mappings, validate_property_rules,
}
use certora_aicomposer.Generation.Fits.{
  SomeNamed, mapped_titles, any_named→SomeNamed, SomeNamed→any_named, taken, AllFit, after,
  AllFit-check_mappings, check_mappings-AllFit, Accounted, check_titles-clean, clean-check_titles,
  AllFit-Distinct,
}

-- Each mapping is of a property that is not skipped, and has a rule.
abbrev pub Good : List String → List String → PropertyRuleMapping → Type 0
Good titles skipped m =
    In m.property_title titles × NotIn m.property_title skipped × SomeNamed m.rules

pub record ValidMapping (ms : List PropertyRuleMapping) (skipped titles : List String)
    : Type 0 where
  pub once : Distinct (mapped_titles ms)
  pub good : All (Good titles skipped) ms
  pub accounted : All (λ t. In t skipped ⊎ In t (mapped_titles ms)) titles

-- A list that is distinct has what follows a part of it not in that part.
Distinct-NotIn :
    (xs : List String) (y : String) (ys : List String) → Distinct (xs ++ y ∷ ys) → NotIn y xs
Distinct-NotIn [] y ys d = tt
Distinct-NotIn (x ∷ xs) y ys d = (
  λ p.
      In-NotIn y (xs ++ y ∷ ys) (In-append_right y xs (y ∷ ys) (inl refl))
        (subst (λ z. NotIn z (xs ++ y ∷ ys)) p d.0),
  Distinct-NotIn xs y ys d.1,
)

module _ (skips : List SkippedProperty) (titles : List String) where
  abbrev valid : List String
  valid = set_of titles

  abbrev skipped : List String
  skipped = set_of (titles_of skips)

  In-of_set : (t : String) (ts : List String) → In t (set_of ts) → In t ts
  In-of_set t ts m = elim (add_all-cases t [] ts m) [ inl e ↦ elim e [ ] | inr i ↦ i ]

  NotIn_set : (t : String) (ts : List String) → NotIn t ts → NotIn t (set_of ts)
  NotIn_set t ts n = NotIn_of_not t (set_of ts) (λ m. In-NotIn t ts (In-of_set t ts m) n)

  NotIn_of_set : (t : String) (ts : List String) → NotIn t (set_of ts) → NotIn t ts
  NotIn_of_set t ts n = NotIn_of_not t ts (λ m. In-NotIn t (set_of ts) (add_all-new t [] ts m) n)

  AllFit-Good :
      (ms : List PropertyRuleMapping) (st : Progress)
      → AllFit valid skipped ms st
      → All (Good titles (titles_of skips)) ms
  unfolding AllFit
  AllFit-Good [] st h = tt
  AllFit-Good (m ∷ ms) st h = (
    (
      In-of_set m.property_title titles (contains→In m.property_title valid h.0.known),
      NotIn_of_set m.property_title (titles_of skips)
          (contains→NotIn m.property_title skipped h.0.kept),
      any_named→SomeNamed m.rules h.0.named,
    ),
    AllFit-Good ms (taken valid skipped m st) h.1,
  )

  Good-AllFit :
      (ms : List PropertyRuleMapping) (st : Progress)
      → All (Good titles (titles_of skips)) ms
      → Distinct (st.mapped ++ mapped_titles ms)
      → AllFit valid skipped ms st
  unfolding AllFit taken
  Good-AllFit [] st h d = tt
  Good-AllFit (m ∷ ms) st h d = (
    record {
      known = In→contains m.property_title valid (add_all-new m.property_title [] titles h.0.0);
      fresh =
          NotIn→contains m.property_title st.mapped
            (Distinct-NotIn st.mapped m.property_title (mapped_titles ms) d);
      kept =
          NotIn→contains m.property_title skipped
            (NotIn_set m.property_title (titles_of skips) h.0.1);
      named = SomeNamed→any_named m.rules h.0.2;
    },
    Good-AllFit ms (taken valid skipped m st) h.1 (
        subst Distinct (sym (append_assoc st.mapped (m.property_title ∷ []) (mapped_titles ms))) d),
  )

  Accounted-In :
      (mapped ts : List String)
      → All (Accounted valid skipped mapped) ts
      → All (λ t. In t (titles_of skips) ⊎ In t mapped) ts
  unfolding Accounted
  Accounted-In mapped [] h = tt
  Accounted-In mapped (t ∷ ts) h = (
    elim (Bool-cases (contains t skipped)) [
      | inl e ↦ inl (In-of_set t (titles_of skips) (contains→In t skipped e))
      | inr e ↦ inr (contains→In t mapped (rw e at h.0))
    ],
    Accounted-In mapped ts h.1,
  )

  In-Accounted :
      (mapped ts : List String)
      → All (λ t. In t (titles_of skips) ⊎ In t mapped) ts
      → All (Accounted valid skipped mapped) ts
  unfolding Accounted
  In-Accounted mapped [] h = tt
  In-Accounted mapped (t ∷ ts) h = (
    elim h.0 [
      | inl i ↦ rw (In→contains t skipped (add_all-new t [] (titles_of skips) i)) refl
      | inr i ↦ rw (In→contains t mapped i) (either (contains t skipped))
    ],
    In-Accounted mapped ts h.1,
  )
    where
      either : (b : Bool) → b || true ≡ true
      either true = refl
      either false = refl

  abbrev start : Progress
  start = record { errors = []; mapped = [] }

  -- A mapping without problems has no property twice, each of its properties is one of the batch that
  -- is not skipped and has a rule whose name is not blank, and every property of the batch is skipped
  -- or mapped.
  pub validate_property_rules-ValidMapping :
      (ms : List PropertyRuleMapping)
      → validate_property_rules ms skips titles ≡ []
      → ValidMapping ms (titles_of skips) titles
  unfolding validate_property_rules after
  validate_property_rules-ValidMapping ms h =
      let done : Progress = check_mappings valid skipped ms start in
      let c : (done.errors ≡ []) × All (Accounted valid skipped done.mapped) titles =
        check_titles-clean valid skipped titles done h in
      let f : AllFit valid skipped ms start × ([] ≡ []) =
        check_mappings-AllFit valid skipped ms start c.0 in
      record {
        once = AllFit-Distinct valid skipped ms start f.0 tt;
        good = AllFit-Good ms start f.0;
        accounted = Accounted-In (mapped_titles ms) titles (
            subst (λ st. All (Accounted valid skipped st.mapped) titles)
              (AllFit-check_mappings valid skipped ms start f.0) c.1);
      }

  -- A mapping that has no property twice, whose properties are of the batch, not skipped and each with
  -- a rule whose name is not blank, and such that every property of the batch is skipped or mapped, has
  -- no problems.
  pub ValidMapping-validate_property_rules :
      (ms : List PropertyRuleMapping)
      → ValidMapping ms (titles_of skips) titles
      → validate_property_rules ms skips titles ≡ []
  unfolding validate_property_rules after
  ValidMapping-validate_property_rules ms h =
      rw (AllFit-check_mappings valid skipped ms start (Good-AllFit ms start h.good h.once)) (
        clean-check_titles valid skipped titles (record { errors = []; mapped = mapped_titles ms })
          (In-Accounted (mapped_titles ms) titles h.accounted))
