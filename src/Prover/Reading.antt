-- ===== src/Prover/Reading.antt =====
-- What a report of composer/prover/core.py says of the results that were read in a directory.
use certora_aicomposer.Prelude.{
  ℕ, String, Bool, true, false, List, [], ◌∷◌, Option, none, some, ◌≡◌, ◌⊎◌, inl, inr, refl, sym,
  ap, ◌∙◌, if◌then◌else◌, ltb, suc, ◌<◌, ◌≤◌, ◌≢◌, subst, arith, Bool-cases,
}
use certora_aicomposer.Sets.{In, In-append_right}
use certora_aicomposer.KeyMap.{values_of}
use certora_aicomposer.Dict.{Dict}
use certora_aicomposer.Prover.Types.{StatusCodes, RuleResult}
use certora_aicomposer.Prover.TreeView.Flatten.{Result}
use certora_aicomposer.Prover.TreeView.Final.{RunResult, read_and_format_run_result}
use certora_aicomposer.Prover.Run.{
  ResultsDir, Event, ProverReport, Outcome, Run, is_verified, with_analysis, rule_statuses, told,
  failed_count, CexHandler, report_outcome, report_of, formatted, read_from,
}

-- The report of an outcome that has one.
abbrev pub report_in : Outcome → Option ProverReport
report_in (Outcome.raw r) = some r
report_in (Outcome.summarized r todo_list) = some r
report_in _ = none

outcome-report :
    (cex : CexHandler) (failed : ℕ) (r : ProverReport)
    → report_in (report_outcome cex failed r) ≡ some r
unfolding report_outcome
outcome-report CexHandler.plain failed r = refl
outcome-report (CexHandler.summarizing threshold summarize) failed r = either (ltb threshold failed)
  where
    either :
        (b : Bool)
        → report_in (if b then Outcome.summarized r (summarize r.report) else Outcome.raw r)
          ≡ some r
    either true = refl
    either false = refl

-- The number of the results that are not verified.
pub data Failing : List RuleResult → ℕ → Type 0 where
  no_results : Failing [] 0
  passed :
      (i : RuleResult) (rules : List RuleResult) (n : ℕ)
      → i.status ≡ StatusCodes.verified
      → Failing rules n
      → Failing (i ∷ rules) n
  failed :
      (i : RuleResult) (rules : List RuleResult) (n : ℕ)
      → i.status ≢ StatusCodes.verified
      → Failing rules n
      → Failing (i ∷ rules) (suc n)

is_verified-cases :
    (s : StatusCodes)
    → (is_verified s ≡ true) × (s ≡ StatusCodes.verified)
      ⊎ (is_verified s ≡ false) × (s ≢ StatusCodes.verified)
is_verified-cases StatusCodes.verified = inl (refl, refl)
is_verified-cases StatusCodes.violated = inr (refl, (λ e. cc e))
is_verified-cases other = inr (refl, (λ e. cc e))

failed_count-Failing : (rules : List RuleResult) → Failing rules (failed_count rules)
unfolding failed_count
failed_count-Failing [] = Failing.no_results
failed_count-Failing (i ∷ rules) =
    let rest : Failing rules (failed_count rules) = failed_count-Failing rules in
    elim (is_verified-cases i.status) [
      | inl p ↦ rw p.0 (Failing.passed i rules (failed_count rules) p.1 rest)
      | inr p ↦ rw p.0 (Failing.failed i rules (failed_count rules) p.1 rest)
    ]

-- The form of a report on a number of failures: summarized exactly if they are more than the threshold.
abbrev pub FormOf : CexHandler → ℕ → ProverReport → Outcome → Type 0
FormOf CexHandler.plain n r o = o ≡ Outcome.raw r
FormOf (CexHandler.summarizing threshold summarize) n r o =
    (threshold < n) × (o ≡ Outcome.summarized r (summarize r.report))
    ⊎ (n ≤ threshold) × (o ≡ Outcome.raw r)

report_outcome-FormOf :
    (cex : CexHandler) (n : ℕ) (r : ProverReport) → FormOf cex n r (report_outcome cex n r)
unfolding report_outcome
report_outcome-FormOf CexHandler.plain n r = refl
report_outcome-FormOf (CexHandler.summarizing threshold summarize) n r =
    elim (Bool-cases (ltb threshold n)) [
      | inl t ↦ inl (ground arith, rw t refl)
      | inr f ↦ inr (ground arith, rw f refl)
    ]

some-eq : {A : Type 0} (a b : A) → some a ≡ some b → a ≡ b
some-eq a b e = cc e

module _ (analyze_cex : RuleResult → Option String)
    (render : List (RuleResult × Option String) → String) where
  -- The report is made of the results that were read in the directory and announced, and its form is that
  -- of their failures.
  pub record Read (cex : CexHandler) (link : String) (dir : ResultsDir) (run : Run)
      (r : ProverReport) : Type 0 where
    pub parsed : Dict RuleResult
    pub found :
        read_and_format_run_result dir.load dir.read_dump dir.files
        ≡ Result.ok (RunResult.results parsed)
    pub announced : In (Event.prover_result parsed) run.events
    pub text : render (with_analysis analyze_cex render (values_of parsed)) ≡ r.report
    pub statuses : rule_statuses [] (values_of parsed) ≡ r.rule_status
    pub linked : link ≡ r.link
    pub failures : ℕ
    pub counted : Failing (values_of parsed) failures
    pub form : FormOf cex failures r run.outcome

  pub told-Read :
      (cex : CexHandler) (link : String) (dir : ResultsDir) (es : List Event) (run : Run)
      (r : ProverReport)
      → Read cex link dir run r
      → Read cex link dir (told es run) r
  told-Read cex link dir es run r p = record {
    parsed = p.parsed;
    found = p.found;
    announced = In-append_right (Event.prover_result p.parsed) es run.events p.announced;
    text = p.text;
    statuses = p.statuses;
    linked = p.linked;
    failures = p.failures;
    counted = p.counted;
    form = p.form;
  }

  formatted-Read :
      (cex : CexHandler) (link : String) (dir : ResultsDir) (x : Result RunResult)
      (r : ProverReport)
      → read_and_format_run_result dir.load dir.read_dump dir.files ≡ x
      → report_in (formatted analyze_cex render cex link x).outcome ≡ some r
      → Read cex link dir (formatted analyze_cex render cex link x) r
  formatted-Read cex link dir (Result.raise e) r q h = cc h
  formatted-Read cex link dir (Result.ok (RunResult.message text)) r q h = cc h
  formatted-Read cex link dir (Result.ok (RunResult.results parsed)) r q h =
      let rules : List RuleResult = values_of parsed in
      let own : ProverReport = report_of analyze_cex render link rules in
      let same : own ≡ r = some-eq own r (sym (outcome-report cex (failed_count rules) own) ∙ h) in
      record {
        parsed = parsed;
        found = q;
        announced = inl refl;
        text = ap (λ o. o.report) same;
        statuses = ap (λ o. o.rule_status) same;
        linked = ap (λ o. o.link) same;
        failures = failed_count rules;
        counted = failed_count-Failing rules;
        form =
            subst
              (λ o. FormOf cex (failed_count rules) o (report_outcome cex (failed_count rules) own))
              same (report_outcome-FormOf cex (failed_count rules) own);
      }

  pub read_from-Read :
      (cex : CexHandler) (link : String) (dir : ResultsDir) (r : ProverReport)
      → report_in (read_from analyze_cex render cex link dir).outcome ≡ some r
      → Read cex link dir (read_from analyze_cex render cex link dir) r
  read_from-Read cex link dir r h =
      formatted-Read cex link dir (read_and_format_run_result dir.load dir.read_dump dir.files) r
        refl h
