-- ===== src/Generation/Fits.antt =====
-- The loops of `validate_property_rules` in composer/spec/cvl_generation.py: the mappings and titles
-- that add no problem.
use certora_aicomposer.Prelude.{
  String, Bool, true, false, List, [], ◌∷◌, ◌≡◌, ◌⊎◌, inl, inr, refl, sym, ap, ◌∙◌, subst, map,
  ◌||◌, Bool-cases, append_assoc, append-nil, if◌then◌else◌,
}
use mathlib.Core.List.{◌++◌}
use certora_aicomposer.Text.{strip, is_empty}
use certora_aicomposer.Sets.{text_eq, Distinct, All, contains, contains→NotIn, add, Distinct-snoc}
use certora_aicomposer.Generation.Types.{PropertyRuleMapping}
use certora_aicomposer.Generation.Mapping.{
  Problem, Progress, any_named, report, check_mapping, check_mappings, check_titles,
}

-- A rule with a name that is not blank.
abbrev pub SomeNamed : List String → Type 0
SomeNamed [] = ⊥
SomeNamed (r ∷ rules) = (is_empty (strip r) ≡ false) ⊎ SomeNamed rules

abbrev pub mapped_titles : List PropertyRuleMapping → List String
mapped_titles ms = map title ms
  where
    title : PropertyRuleMapping → String
    title m = m.property_title

snoc-ne : {A : Type 0} (x : A) (xs : List A) → ¬ (xs ++ x ∷ [] ≡ [])
snoc-ne x [] e = cc e
snoc-ne x (y ∷ xs) e = cc e

pub any_named→SomeNamed : (rules : List String) → any_named rules ≡ true → SomeNamed rules
unfolding any_named
any_named→SomeNamed [] h = cc h
any_named→SomeNamed (r ∷ rules) h = elim (Bool-cases (is_empty (strip r))) [
  | inl t ↦ inr (any_named→SomeNamed rules (rw t at h))
  | inr f ↦ inl f
]

pub SomeNamed→any_named : (rules : List String) → SomeNamed rules → any_named rules ≡ true
unfolding any_named
SomeNamed→any_named [] h = elim h [ ]
SomeNamed→any_named (r ∷ rules) h = elim (Bool-cases (is_empty (strip r))) [
  | inr f ↦ rw f refl
  | inl t ↦ rw t (elim h [ inl e ↦ cc (t, e) | inr m ↦ SomeNamed→any_named rules m ])
]

module _ (valid_titles skipped_titles : List String) where
  -- A mapping that adds no problem.
  pub record Fits (m : PropertyRuleMapping) (st : Progress) : Type 0 where
    pub known : contains m.property_title valid_titles ≡ true
    pub fresh : contains m.property_title st.mapped ≡ false
    pub kept : contains m.property_title skipped_titles ≡ false
    pub named : any_named m.rules ≡ true

  unfoldable pub taken : PropertyRuleMapping → Progress → Progress
  taken m st = record { errors = st.errors; mapped = st.mapped ++ m.property_title ∷ [] }

  Fits-check_mapping :
      (m : PropertyRuleMapping) (st : Progress)
      → Fits m st
      → check_mapping valid_titles skipped_titles m st ≡ taken m st
  unfolding check_mapping add taken
  Fits-check_mapping m st h = rw (h.known, h.fresh, h.kept, h.named) refl

  -- The body of the loop on the outcomes of its tests.
  abbrev branch : Bool → Bool → Bool → Bool → String → Progress → Progress
  branch known repeated skipped named title st =
      if known
      then (if repeated
          then report (Problem.repeated_title title) st
          else (if skipped
              then report (Problem.skipped_title title)
                  (record { errors = st.errors; mapped = add st.mapped title })
              else (if named
                  then record { errors = st.errors; mapped = add st.mapped title }
                  else report (Problem.no_rules title)
                      (record { errors = st.errors; mapped = add st.mapped title }))))
      else report (Problem.unknown_title title) st

  branch-clean :
      (known repeated skipped named : Bool) (title : String) (st : Progress)
      → (branch known repeated skipped named title st).errors ≡ []
      → (known ≡ true) × (repeated ≡ false) × (skipped ≡ false) × (named ≡ true) × (st.errors ≡ [])
  branch-clean false _ _ _ title st h = absurd (snoc-ne (Problem.unknown_title title) st.errors h)
  branch-clean true true _ _ title st h =
      absurd (snoc-ne (Problem.repeated_title title) st.errors h)
  branch-clean true false true _ title st h =
      absurd (snoc-ne (Problem.skipped_title title) st.errors h)
  branch-clean true false false false title st h =
      absurd (snoc-ne (Problem.no_rules title) st.errors h)
  branch-clean true false false true title st h = (refl, refl, refl, refl, h)

  check_mapping-Fits :
      (m : PropertyRuleMapping) (st : Progress)
      → (check_mapping valid_titles skipped_titles m st).errors ≡ []
      → Fits m st × (st.errors ≡ [])
  unfolding check_mapping
  check_mapping-Fits m st h =
      let t : (contains m.property_title valid_titles ≡ true)
          × (contains m.property_title st.mapped ≡ false)
          × (contains m.property_title skipped_titles ≡ false)
          × (any_named m.rules ≡ true)
          × (st.errors ≡ []) =
        branch-clean (contains m.property_title valid_titles) (contains m.property_title st.mapped)
          (contains m.property_title skipped_titles) (any_named m.rules) m.property_title st h in
      (record { known = t.0; fresh = t.1; kept = t.2; named = t.3 }, t.4)

  -- The mappings fit one after the other.
  unfoldable pub AllFit : List PropertyRuleMapping → Progress → Type 0
  AllFit [] st = Unit {0}
  AllFit (m ∷ ms) st = Fits m st × AllFit ms (taken m st)

  unfoldable pub after : List PropertyRuleMapping → Progress → Progress
  after ms st = record { errors = st.errors; mapped = st.mapped ++ mapped_titles ms }

  pub AllFit-check_mappings :
      (ms : List PropertyRuleMapping) (st : Progress)
      → AllFit ms st
      → check_mappings valid_titles skipped_titles ms st ≡ after ms st
  unfolding check_mappings AllFit taken after
  AllFit-check_mappings [] st h =
      ap (λ xs. record { errors = st.errors; mapped = xs }) (sym (append-nil st.mapped))
  AllFit-check_mappings (m ∷ ms) st h =
      ap (check_mappings valid_titles skipped_titles ms) (Fits-check_mapping m st h.0)
      ∙ AllFit-check_mappings ms (taken m st) h.1
      ∙ ap (λ xs. record { errors = st.errors; mapped = xs })
          (append_assoc st.mapped (m.property_title ∷ []) (mapped_titles ms))

  pub check_mappings-AllFit :
      (ms : List PropertyRuleMapping) (st : Progress)
      → (check_mappings valid_titles skipped_titles ms st).errors ≡ []
      → AllFit ms st × (st.errors ≡ [])
  unfolding check_mappings AllFit
  check_mappings-AllFit [] st h = (tt, h)
  check_mappings-AllFit (m ∷ ms) st h =
      let later : AllFit ms (check_mapping valid_titles skipped_titles m st)
          × ((check_mapping valid_titles skipped_titles m st).errors ≡ []) =
        check_mappings-AllFit ms (check_mapping valid_titles skipped_titles m st) h in
      let here : Fits m st × (st.errors ≡ []) = check_mapping-Fits m st later.1 in
      ((here.0, subst (AllFit ms) (Fits-check_mapping m st here.0) later.0), here.1)

  -- A title that adds no problem.
  unfoldable pub Accounted : List String → String → Type 0
  Accounted mapped t = (contains t skipped_titles || contains t mapped) ≡ true

  pub check_titles-clean :
      (titles : List String) (st : Progress)
      → check_titles valid_titles skipped_titles titles st ≡ []
      → (st.errors ≡ []) × All (Accounted st.mapped) titles
  unfolding check_titles Accounted
  check_titles-clean [] st h = (h, tt)
  check_titles-clean (t ∷ titles) st h =
      elim (Bool-cases (contains t skipped_titles || contains t st.mapped)) [
        | inl e ↦
            let rest : (st.errors ≡ []) × All (Accounted st.mapped) titles =
              check_titles-clean titles st (rw e at h) in
            (rest.0, (e, rest.1))
        | inr e ↦ absurd (
            snoc-ne (Problem.unaccounted t) st.errors
              (check_titles-clean titles (report (Problem.unaccounted t) st) (rw e at h)).0)
      ]

  pub clean-check_titles :
      (titles : List String) (st : Progress)
      → All (Accounted st.mapped) titles
      → check_titles valid_titles skipped_titles titles st ≡ st.errors
  unfolding check_titles Accounted
  clean-check_titles [] st h = refl
  clean-check_titles (t ∷ titles) st h = rw h.0 (clean-check_titles titles st h.1)

  pub AllFit-Distinct :
      (ms : List PropertyRuleMapping) (st : Progress)
      → AllFit ms st
      → Distinct st.mapped
      → Distinct (st.mapped ++ mapped_titles ms)
  unfolding AllFit taken
  AllFit-Distinct [] st h d = subst Distinct (sym (append-nil st.mapped)) d
  AllFit-Distinct (m ∷ ms) st h d =
      subst Distinct (append_assoc st.mapped (m.property_title ∷ []) (mapped_titles ms)) (
        AllFit-Distinct ms (taken m st) h.1 (
          Distinct-snoc st.mapped m.property_title d
            (contains→NotIn m.property_title st.mapped h.0.fresh)))
