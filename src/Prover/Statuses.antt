-- ===== src/Prover/Statuses.antt =====
-- The status of a rule in the report of composer/prover/core.py, against the results it is made of.
use certora_aicomposer.Prelude.{
  suc, String, Bool, true, false, List, [], ◌∷◌, Option, none, some, ◌≡◌, ◌≢◌, ◌↔◌, ◌⊎◌, inl, inr,
  refl, sym, ap, ◌∙◌, subst, Bool-cases, arith, if◌then◌else◌,
}
use certora_aicomposer.Sets.{text_eq, All, All-In, In}
use certora_aicomposer.KeyMap.{get, put, get-put_self, get-put_ne, same-ne}
use certora_aicomposer.Prover.Types.{StatusCodes, RuleResult}
use certora_aicomposer.Prover.Run.{
  is_verified, is_falsified, put_status, rule_statuses, failed_count, all_true,
}

-- What a result makes of the status of its own rule.
abbrev updated : Option Bool → Bool → Option Bool
updated o b = if is_falsified o then o else some b

put_status-get :
    (i : RuleResult) (d : List (String × Bool))
    → get i.path.rule (put_status d i) ≡ updated (get i.path.rule d) (is_verified i.status)
unfolding put_status
put_status-get i d = either (is_falsified (get i.path.rule d))
  where
    either :
        (b : Bool)
        → get i.path.rule (if b then d else put i.path.rule (is_verified i.status) d)
          ≡ (if b then get i.path.rule d else some (is_verified i.status))
    either true = refl
    either false = get-put_self i.path.rule (is_verified i.status) d

put_status-other :
    (k : String) (i : RuleResult) (d : List (String × Bool))
    → ¬ (i.path.rule ≡ k)
    → get k (put_status d i) ≡ get k d
unfolding put_status
put_status-other k i d n = either (is_falsified (get i.path.rule d))
  where
    either :
        (b : Bool) → get k (if b then d else put i.path.rule (is_verified i.status) d) ≡ get k d
    either true = refl
    either false = get-put_ne i.path.rule k (is_verified i.status) d n

is_verified→eq : (s : StatusCodes) → is_verified s ≡ true → s ≡ StatusCodes.verified
is_verified→eq StatusCodes.verified h = refl
is_verified→eq StatusCodes.violated h = cc h
is_verified→eq StatusCodes.timeout h = cc h
is_verified→eq StatusCodes.error h = cc h
is_verified→eq StatusCodes.sanity_failed h = cc h
is_verified→eq StatusCodes.skipped h = cc h

-- Every result of the rule is verified.
abbrev pub AllVerified : String → List RuleResult → Type 0
AllVerified k rules = All (λ i. i.path.rule ≡ k → i.status ≡ StatusCodes.verified) rules

-- Some result is of the rule.
abbrev pub HasRule : String → List RuleResult → Type 0
HasRule k rules = (i : RuleResult) × In i rules × (i.path.rule ≡ k)

updated_sound :
    (o : Option Bool) (b : Bool) → updated o b ≢ some false → (b ≡ true) × (o ≢ some false)
updated_sound none true h = (refl, λ e. cc e)
updated_sound (some true) true h = (refl, λ e. cc e)
updated_sound none false h = absurd (h refl)
updated_sound (some true) false h = absurd (h refl)
updated_sound (some false) b h = absurd (h refl)

updated_complete : (o : Option Bool) → o ≢ some false → updated o true ≡ some true
updated_complete none h = refl
updated_complete (some true) h = refl
updated_complete (some false) h = absurd (h refl)

put_status-own :
    (k : String) (i : RuleResult) (d : List (String × Bool))
    → i.path.rule ≡ k
    → get k (put_status d i) ≡ updated (get k d) (is_verified i.status)
put_status-own k i d own =
    subst (λ j. get j (put_status d i) ≡ updated (get j d) (is_verified i.status)) own
      (put_status-get i d)

-- The statuses that are there already keep a rule from being true, and make it true only with results.
pub statuses_sound :
    (k : String) (rules : List RuleResult) (d : List (String × Bool))
    → get k (rule_statuses d rules) ≡ some true
    → AllVerified k rules × (get k d ≢ some false) × ((get k d ≡ some true) ⊎ HasRule k rules)
unfolding rule_statuses
statuses_sound k [] d h = (tt, (λ e. cc (sym e ∙ h)), inl h)
statuses_sound k (i ∷ rules) d h =
    let rest : AllVerified k rules
        × (get k (put_status d i) ≢ some false)
        × ((get k (put_status d i) ≡ some true) ⊎ HasRule k rules) =
      statuses_sound k rules (put_status d i) h in
    elim (Bool-cases (text_eq.same i.path.rule k)) [
      | inl t ↦
          let own : i.path.rule ≡ k = text_eq.same→eq i.path.rule k t in
          let here : (is_verified i.status ≡ true) × (get k d ≢ some false) =
            updated_sound (get k d) (is_verified i.status)
              (λ e. rest.1 (put_status-own k i d own ∙ e)) in
          (((λ e. is_verified→eq i.status here.0), rest.0), here.1, inr (i, inl refl, own))
      | inr f ↦
          let same : get k (put_status d i) ≡ get k d =
            put_status-other k i d (same-ne i.path.rule k f) in
          (
            ((λ e. absurd (same-ne i.path.rule k f e)), rest.0),
            (λ e. rest.1 (same ∙ e)),
            elim rest.2 [ inl e ↦ inl (sym same ∙ e) | inr m ↦ inr (m.0, inr m.1, m.2) ],
          )
    ]

-- A rule becomes true, or stays so, if nothing has made it false.
pub statuses_complete :
    (k : String) (rules : List RuleResult) (d : List (String × Bool))
    → AllVerified k rules
    → get k d ≢ some false
    → (get k d ≡ some true) ⊎ HasRule k rules
    → get k (rule_statuses d rules) ≡ some true
unfolding rule_statuses
statuses_complete k [] d a n (inl e) = e
statuses_complete k [] d a n (inr m) = elim m.1 [ ]
statuses_complete k (i ∷ rules) d a n some_one = elim (Bool-cases (text_eq.same i.path.rule k)) [
  | inl t ↦
      let own : i.path.rule ≡ k = text_eq.same→eq i.path.rule k t in
      let yes : is_verified i.status ≡ true = ap is_verified (a.0 own) in
      let now : get k (put_status d i) ≡ some true =
        put_status-own k i d own ∙ (ap (updated (get k d)) yes ∙ updated_complete (get k d) n) in
      statuses_complete k rules (put_status d i) a.1 (λ e. cc (sym now ∙ e)) (inl now)
  | inr f ↦
      let same : get k (put_status d i) ≡ get k d =
        put_status-other k i d (same-ne i.path.rule k f) in
      statuses_complete k rules (put_status d i) a.1 (λ e. n (sym same ∙ e))
        (later (same-ne i.path.rule k f) same some_one)
]
  where
    later :
        ¬ (i.path.rule ≡ k)
        → get k (put_status d i) ≡ get k d
        → (get k d ≡ some true) ⊎ HasRule k (i ∷ rules)
        → (get k (put_status d i) ≡ some true) ⊎ HasRule k rules
    later other same (inl e) = inl (same ∙ e)
    later other same (inr (j, inr m, e)) = inr (j, m, e)
    later other same (inr (j, inl m, e)) = absurd (other (ap (λ r. r.path.rule) m ∙ e))

-- A rule's status in the report is true exactly if the rule has a result and all of its results are
-- verified.
pub rule_statuses-AllVerified :
    (k : String) (rules : List RuleResult)
    → (get k (rule_statuses [] rules) ≡ some true) ↔ (AllVerified k rules × HasRule k rules)
unfolding get
rule_statuses-AllVerified k rules = (
  (λ h.
      let s : AllVerified k rules
          × (get k [] ≢ some false)
          × ((get k [] ≡ some true) ⊎ HasRule k rules) =
        statuses_sound k rules [] h in
      (s.0, elim s.2 [ inl e ↦ cc e | inr m ↦ m ])),
  λ p. statuses_complete k rules [] p.0 (λ e. cc e) (inr p.1),
)

all_true_sound : (k : String) (d : List (String × Bool)) → all_true d ≡ true → get k d ≢ some false
unfolding all_true get
all_true_sound k [] h = λ e. cc e
all_true_sound k ((j, b) ∷ d) h = ground (arith, all_true_sound k d)

updated_known : (o : Option Bool) (b : Bool) → updated o b ≢ none
updated_known none b = λ e. cc e
updated_known (some true) b = λ e. cc e
updated_known (some false) b = λ e. cc e

-- A rule with a result has a status.
pub statuses_known :
    (k : String) (rules : List RuleResult) (d : List (String × Bool))
    → (get k d ≢ none) ⊎ HasRule k rules
    → get k (rule_statuses d rules) ≢ none
unfolding rule_statuses
statuses_known k [] d (inl n) = n
statuses_known k [] d (inr m) = elim m.1 [ ]
statuses_known k (i ∷ rules) d some_one = elim (Bool-cases (text_eq.same i.path.rule k)) [
  | inl t ↦ statuses_known k rules (put_status d i) (
      inl (λ e.
        updated_known (get k d) (is_verified i.status)
          (sym (put_status-own k i d (text_eq.same→eq i.path.rule k t)) ∙ e)))
  | inr f ↦
      statuses_known k rules (put_status d i) (
        later (same-ne i.path.rule k f) (put_status-other k i d (same-ne i.path.rule k f)) some_one)
]
  where
    later :
        ¬ (i.path.rule ≡ k)
        → get k (put_status d i) ≡ get k d
        → (get k d ≢ none) ⊎ HasRule k (i ∷ rules)
        → (get k (put_status d i) ≢ none) ⊎ HasRule k rules
    later other same (inl n) = inl (λ e. n (sym same ∙ e))
    later other same (inr (j, inr m, e)) = inr (j, m, e)
    later other same (inr (j, inl m, e)) = absurd (other (ap (λ r. r.path.rule) m ∙ e))

known-true : (o : Option Bool) → o ≢ none → o ≢ some false → o ≡ some true
known-true none n f = absurd (n refl)
known-true (some true) n f = refl
known-true (some false) n f = absurd (f refl)

all_true-put :
    (k : String) (d : List (String × Bool)) → all_true d ≡ true → all_true (put k true d) ≡ true
unfolding all_true put
all_true-put k [] h = refl
all_true-put k ((j, b) ∷ d) h = ground (arith, all_true-put k d)

put_status-true :
    (i : RuleResult) (d : List (String × Bool))
    → is_verified i.status ≡ true
    → all_true d ≡ true
    → all_true (put_status d i) ≡ true
unfolding put_status
put_status-true i d v h = either (is_falsified (get i.path.rule d))
  where
    either :
        (b : Bool) → all_true (if b then d else put i.path.rule (is_verified i.status) d) ≡ true
    either true = h
    either false = rw v (all_true-put i.path.rule d h)

statuses-true :
    (rules : List RuleResult) (d : List (String × Bool))
    → failed_count rules ≡ 0
    → all_true d ≡ true
    → all_true (rule_statuses d rules) ≡ true
unfolding failed_count rule_statuses
statuses-true [] d f h = h
statuses-true (i ∷ rules) d f h = elim (Bool-cases (is_verified i.status)) [
  | inr failed ↦ absurd (let e : suc (failed_count rules) ≡ 0 = (rw failed at f) in omega arith)
  | inl v ↦ statuses-true rules (put_status d i) (rw v at f) (put_status-true i d v h)
]

failed_count_none :
    (rules : List RuleResult)
    → ((i : RuleResult) → In i rules → i.status ≡ StatusCodes.verified)
    → failed_count rules ≡ 0
unfolding failed_count
failed_count_none [] h = refl
failed_count_none (i ∷ rules) h =
    rw (h i (inl refl), is_verified) (failed_count_none rules (λ j m. h j (inr m)))

-- `all_verified` of a report says that no result has failed, and the other way round.
pub all_true-failed_count :
    (rules : List RuleResult)
    → (all_true (rule_statuses [] rules) ≡ true) ↔ (failed_count rules ≡ 0)
unfolding all_true
all_true-failed_count rules = (
  (λ h. failed_count_none rules (λ i m.
      All-In (λ j. j.path.rule ≡ i.path.rule → j.status ≡ StatusCodes.verified) i rules
        (statuses_sound i.path.rule rules [] (
          known-true (get i.path.rule (rule_statuses [] rules))
            (statuses_known i.path.rule rules [] (inr (i, m, refl)))
            (all_true_sound i.path.rule (rule_statuses [] rules) h))).0
        m refl)),
  λ f. statuses-true rules [] f refl,
)
