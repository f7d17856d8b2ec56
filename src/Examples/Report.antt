-- ===== src/Examples/Report.antt =====
-- The verdicts of composer/spec/source/report/collect.py for a rule with two checks.
use certora_aicomposer.Prelude.{ℕ, String, Bool, List, [], ◌∷◌, Option, none, some, ◌≡◌, ◌==◌, refl}
use certora_aicomposer.Dict.{lookup, insert}
use certora_aicomposer.Report.Verdict.{
  NodeStatus, status_priority, Verdict, combine, merge, CheckResult, candidate, roll_up,
  fetch_verdicts,
}
use certora_aicomposer.Report.Rollup.{AtMost, Checked, fetch_verdicts-greatest}

abbrev check_of : String → NodeStatus → Option ℕ → CheckResult ℕ
check_of rule status duration = record {
  rule_name = rule;
  status = status;
  source_location = none;
  duration = duration;
}

abbrev checks : List (CheckResult ℕ)
checks =
    check_of "solvency" NodeStatus.verified (some 4)
    ∷ check_of "solvency" NodeStatus.violated (some 0)
    ∷ check_of "solvency" NodeStatus.timeout none
    ∷ []

abbrev no_path : String → String
no_path s = s

abbrev zero_seconds : ℕ → Bool
zero_seconds n = n == 0

abbrev all_checks : String → Option (List (CheckResult ℕ))
all_checks link = some checks

abbrev worst : Verdict ℕ
worst = record {
  status = NodeStatus.violated;
  line = none;
  duration_seconds = some 4;
  spec_file = none;
}

fetched : lookup "solvency" (fetch_verdicts ℕ zero_seconds no_path all_checks "run") ≡ some worst
unfolding fetch_verdicts roll_up candidate merge combine status_priority lookup insert
fetched = refl

not_fetched : lookup "sane" (fetch_verdicts ℕ zero_seconds no_path all_checks "run") ≡ none
unfolding fetch_verdicts roll_up candidate merge combine status_priority lookup insert
not_fetched = refl

fetch_verdicts-greatest_example :
    Checked ℕ "solvency" NodeStatus.violated checks × AtMost ℕ "solvency" NodeStatus.violated checks
fetch_verdicts-greatest_example =
    fetch_verdicts-greatest ℕ zero_seconds no_path all_checks "run" "solvency" checks worst refl
      fetched
