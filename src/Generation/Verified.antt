-- ===== src/Generation/Verified.antt =====
-- `verify_spec` of composer/spec/source/prover.py with `run_prover` of composer/prover/core.py: what a
-- stamp of the prover says of the results of the run.
use mathlib.Core.List.{◌++◌}
use certora_aicomposer.Prelude.{
  String, Bool, true, false, List, [], ◌∷◌, Option, none, some, ◌≡◌, ◌≢◌, ◌⊎◌, inl, inr, refl, ap,
  ◌∙◌, subst, ◌&&◌, Bool-cases, Option-cases, if◌then◌else◌,
}
use certora_aicomposer.Sets.{text_eq, In, All, All-In, All_of_In}
use certora_aicomposer.KeyMap.{get, values_of}
use certora_aicomposer.Dict.{Dict}
use certora_aicomposer.Prover.Types.{StatusCodes, RuleResult}
use certora_aicomposer.Prover.Run.{
  ProverOptions, Process, ResultsDir, ProverReport, Outcome, Run, Event, CexHandler, rule_statuses,
  run_prover,
}
use certora_aicomposer.Prover.Statuses.{statuses_sound, statuses_known}
use certora_aicomposer.Prover.Reading.{report_in, Read}
use certora_aicomposer.Prover.Reported.{Reported, run_prover-Reported}
use certora_aicomposer.Generation.Types.{GenerationState}
use certora_aicomposer.Generation.Tools.{
  ProverRun, Action, all_verified, is_none, put_stamp, validation_key, verified, step,
}

-- What `verify_spec` is given by `run_prover`, which may raise.
abbrev pub prover_run : Outcome → Option ProverRun
prover_run (Outcome.message why) = some ProverRun.message
prover_run (Outcome.raised why) = none
prover_run (Outcome.raw r) = some (ProverRun.report (some r.link) r.rule_status)
prover_run (Outcome.summarized r todo_list) = some (ProverRun.summarized (some r.link))

module _ (md5 : String → String) (titles : List String) where
  abbrev pub verify_run :
      Option (List String) → Option ProverRun → GenerationState → GenerationState
  verify_run rules none st = st
  verify_run rules (some run) st = step md5 titles (Action.verify_spec rules run) st

  -- The tool, on what the run of the prover comes to.
  unfoldable pub verify_spec : Option (List String) → Outcome → GenerationState → GenerationState
  verify_spec rules outcome st = verify_run rules (prover_run outcome) st

  head-passes :
      (o : Option String) (v rest : Bool)
      → elim o [ some _ ↦ rest | none ↦ if v then rest else false ] ≡ true
      → (rest ≡ true) × ((o ≢ none) ⊎ (v ≡ true))
  head-passes (some reason) v rest h = (h, inl (λ e. cc e))
  head-passes none true rest h = (h, inr refl)
  head-passes none false rest h = cc h

  all_verified-get :
      (skips : List (String × String)) (statuses : List (String × Bool)) (k : String) (b : Bool)
      → all_verified skips statuses ≡ true
      → get k statuses ≡ some b
      → (get k skips ≢ none) ⊎ (b ≡ true)
  unfolding all_verified get
  all_verified-get skips [] k b h e = cc e
  all_verified-get skips ((j, v) ∷ statuses) k b h e =
      let head : (all_verified skips statuses ≡ true) × ((get j skips ≢ none) ⊎ (v ≡ true)) =
        head-passes (get j skips) v (all_verified skips statuses) h in
      elim (Bool-cases (text_eq.same j k)) [
        | inr f ↦ all_verified-get skips statuses k b head.0 (rw f at e)
        | inl t ↦
            let own : some v ≡ some b = (rw t at e) in
            elim head.1 [
              | inl n ↦ inl (subst (λ i. get i skips ≢ none) (text_eq.same→eq j k t) n)
              | inr p ↦ inr (cc (own, p))
            ]
      ]

  -- Every result that was announced is verified, or its rule is marked as expected to fail.
  pub record Verified (st : GenerationState) (run : Run) : Type 0 where
    pub parsed : Dict RuleResult
    pub announced : In (Event.prover_result parsed) run.events
    pub checked :
        All
          (λ i. (get i.path.rule st.rule_skips ≢ none) ⊎ (i.status ≡ StatusCodes.verified))
          (values_of parsed)

  result-checked :
      (skips : List (String × String)) (rules : List RuleResult) (i : RuleResult)
      → In i rules
      → all_verified skips (rule_statuses [] rules) ≡ true
      → (get i.path.rule skips ≢ none) ⊎ (i.status ≡ StatusCodes.verified)
  result-checked skips rules i m h =
      let k : String = i.path.rule in
      elim (Option-cases (get k (rule_statuses [] rules))) [
        | inl n ↦ absurd (statuses_known k rules [] (inr (i, m, refl)) n)
        | inr (b, e) ↦ elim (all_verified-get skips (rule_statuses [] rules) k b h e) [
          | inl skipped ↦ inl skipped
          | inr p ↦ inr (
              All-In (λ j. j.path.rule ≡ k → j.status ≡ StatusCodes.verified) i rules
                (statuses_sound k rules [] (e ∙ ap some p)).0 m refl)
        ]
      ]

  -- A report changes the stamps only if every rule is checked.
  report-checked :
      (rules : Option (List String)) (link : Option String) (statuses : List (String × Bool))
      (o : Option String) (st : GenerationState)
      → (verified md5 rules (ProverRun.report link statuses) o st).validations ≢ st.validations
      → (is_none rules ≡ true) × (all_verified st.rule_skips statuses ≡ true)
  report-checked rules link statuses none st n = absurd (n refl)
  report-checked rules link statuses (some spec) st n =
      either (is_none rules) (all_verified st.rule_skips statuses) n
    where
      either :
          (a b : Bool)
          → (if a && b
              then record (put_stamp md5 validation_key st) { prover_link = link }
              else record st { prover_link = link }).validations
            ≢ st.validations
          → (a ≡ true) × (b ≡ true)
      either true true k = (refl, refl)
      either true false k = absurd (k refl)
      either false b k = absurd (k refl)

  silent-same :
      (rules : Option (List String)) (link : Option String) (o : Option String)
      (st : GenerationState)
      → (verified md5 rules (ProverRun.summarized link) o st).validations ≡ st.validations
  silent-same rules link none st = refl
  silent-same rules link (some spec) st = refl

  message-same :
      (rules : Option (List String)) (o : Option String) (st : GenerationState)
      → (verified md5 rules ProverRun.message o st).validations ≡ st.validations
  message-same rules none st = refl
  message-same rules (some spec) st = refl

  module _ (analyze_cex : RuleResult → Option String)
      (render : List (RuleResult × Option String) → String) where
    outcome-Verified :
        (rules : Option (List String)) (outcome : Outcome) (run : Run) (st : GenerationState)
        → outcome ≡ run.outcome
        → ((r : ProverReport)
            → report_in outcome ≡ some r
            → (cex : CexHandler) × (link : String) × (dir : ResultsDir) × Read analyze_cex render
                cex link dir run r)
        → (verify_spec rules outcome st).validations ≢ st.validations
        → (is_none rules ≡ true) × Verified st run
    unfolding verify_spec step
    outcome-Verified rules (Outcome.message why) run st e read n =
        absurd (n (message-same rules st.curr_spec st))
    outcome-Verified rules (Outcome.raised why) run st e read n = absurd (n refl)
    outcome-Verified rules (Outcome.summarized r todo_list) run st e read n =
        absurd (n (silent-same rules (some r.link) st.curr_spec st))
    outcome-Verified rules (Outcome.raw r) run st e read n =
        let c : (is_none rules ≡ true) × (all_verified st.rule_skips r.rule_status ≡ true) =
          report-checked rules (some r.link) r.rule_status st.curr_spec st n in
        let p : (cex : CexHandler) × (link : String) × (dir : ResultsDir) × Read analyze_cex render
              cex link dir run r =
          read r refl in
        let rows : List RuleResult = values_of p.3.parsed in
        let same : rule_statuses [] rows ≡ r.rule_status = p.3.statuses in
        (
          c.0,
          record {
            parsed = p.3.parsed;
            announced = p.3.announced;
            checked = All_of_In _ rows (λ i m.
                result-checked st.rule_skips rows i m (ap (all_verified st.rule_skips) same ∙ c.1));
          },
        )

    module _ {F : Type 0} (default_global_timeout : F) (to_float : String → Option F)
        (grace : F → F) (spawn : List String → Process)
        (cloud_dir : F → String → List (String × String) × Option ResultsDir)
        (local_dir : String → ResultsDir) where
      -- If the tool changes the stamps of the state on what a run of the prover comes to, then the run is
      -- one of all rules, the run has announced its results, and each of them is verified or is of
      -- a rule that is marked as expected to fail.
      pub verify_spec-Verified :
          (rules : Option (List String)) (args : List String) (opts : ProverOptions)
          (cex : CexHandler) (st : GenerationState)
          → (verify_spec rules
              (run_prover analyze_cex render default_global_timeout to_float grace spawn cloud_dir
                local_dir args opts cex).outcome
              st).validations
            ≢ st.validations
          → (is_none rules ≡ true)
            × Verified st (
                run_prover analyze_cex render default_global_timeout to_float grace spawn cloud_dir
                  local_dir args opts cex)
      verify_spec-Verified rules args opts cex st n =
          let run : Run =
            run_prover analyze_cex render default_global_timeout to_float grace spawn cloud_dir
              local_dir args opts cex in
          outcome-Verified rules run.outcome run st refl
            (λ r h.
              let p : Reported analyze_cex render default_global_timeout to_float grace spawn
                  cloud_dir local_dir opts cex (spawn (args ++ opts.extra_args)).exit_zero
                  (spawn (args ++ opts.extra_args)).run_result run r =
                run_prover-Reported analyze_cex render default_global_timeout to_float grace spawn
                  cloud_dir local_dir args opts cex r h in
              (cex, p.link, p.dir, p.read))
            n
