-- ===== src/Foundry/Runner.antt =====
-- The runner of composer/foundry/runner.py: what it reads from the output of `forge test`, when a run
-- is clean, and the summary of a run. What JSON holds is a parameter.
use text.Mathlib.Text
use Prim.Native.Char.{code}
use certora_aicomposer.Prelude.{
  String, Bool, true, false, not, List, [], ◌∷◌, Option, none, some, map, ◌&&◌, ◌==◌, length,
  if◌then◌else◌,
}
use mathlib.Core.List.{◌++◌ as append}
use certora_aicomposer.Text.{◌++◌, strip, is_empty, join, decimal, truthy}
use certora_aicomposer.Sets.{text_eq, contains}
use certora_aicomposer.KeyMap.{keys_of}

-- `_TestResult`
pub record TestResult : Type 0 where
  pub name : String
  pub status : String
  pub reason : Option String

-- `_ForgeTestEntry`
pub record ForgeTestEntry : Type 0 where
  pub status : String
  pub reason : Option String

-- `_ForgeSuiteResult`, with the signatures of its tests for keys.
pub record ForgeSuiteResult : Type 0 where
  pub test_results : List (String × ForgeTestEntry)

-- `json.loads` with the validation of the report: no JSON, no report, or the suites.
pub data Loaded : Type 0 where
  no_json no_report : Loaded
  loaded : List ForgeSuiteResult → Loaded

-- What comes of parsing: no result, an error, or the results.
pub data Parsed : Type 0 where
  unparsed invalid : Parsed
  parsed : List TestResult → Parsed

-- `signature.split("(", 1)[0]`
unfoldable pub before_paren : String → String
before_paren String.[] = ""
before_paren (String.◌∷◌ c s) =
    let rest = before_paren s in if code c == 40 then "" else String.◌∷◌ c rest

unfoldable pub test_result : String × ForgeTestEntry → TestResult
test_result (signature, entry) = record {
  name = strip (before_paren signature);
  status = entry.status;
  reason = entry.reason;
}

unfoldable pub test_results_of : List ForgeSuiteResult → List TestResult
test_results_of [] = []
test_results_of (suite ∷ report) =
    append (map test_result suite.test_results) (test_results_of report)

unfoldable pub parse_loaded : Loaded → Parsed
parse_loaded Loaded.no_json = Parsed.unparsed
parse_loaded Loaded.no_report = Parsed.invalid
parse_loaded (Loaded.loaded report) = Parsed.parsed (test_results_of report)

-- `_parse_forge_json`
unfoldable pub parse_forge_json : (String → Loaded) → String → Parsed
parse_forge_json loads stdout =
    if is_empty (strip stdout) then Parsed.unparsed else parse_loaded (loads (strip stdout))

-- `r.status == s and r.name in expected_failures`, or not in them.
abbrev pub in_expected : List (String × String) → TestResult → Bool
in_expected expected_failures r = contains r.name (keys_of expected_failures)

abbrev pub has_status : String → TestResult → Bool
has_status s r = Text.◌==◌ r.status s

unfoldable pub unexpected_failures : List (String × String) → List TestResult → List TestResult
unexpected_failures expected [] = []
unexpected_failures expected (r ∷ results) =
    let rest = unexpected_failures expected results in
    if has_status "Failure" r && not (in_expected expected r) then r ∷ rest else rest

unfoldable pub unexpected_passes : List (String × String) → List TestResult → List TestResult
unexpected_passes expected [] = []
unexpected_passes expected (r ∷ results) =
    let rest = unexpected_passes expected results in
    if has_status "Success" r && in_expected expected r then r ∷ rest else rest

abbrev pub no_results : List TestResult → Bool
no_results [] = true
no_results (r ∷ results) = false

-- `returncode == 0 and not unexpected_failures and not unexpected_passes`; the first argument is the
-- test of the return code.
abbrev pub clean : Bool → List (String × String) → List TestResult → Bool
clean exit_zero expected results =
    exit_zero
    && no_results (unexpected_failures expected results)
    && no_results (unexpected_passes expected results)

abbrev pub test_names : List TestResult → List String
test_names results = map (λ r. r.name) results

-- The results of `_format_summary` with a status: those that passed, those that failed, and the rest.
unfoldable pub passed_names : List TestResult → List String
passed_names [] = []
passed_names (r ∷ results) =
    let rest = passed_names results in if has_status "Success" r then r.name ∷ rest else rest

unfoldable pub failed_results : List TestResult → List TestResult
failed_results [] = []
failed_results (r ∷ results) =
    let rest = failed_results results in
    if has_status "Success" r then rest else (if has_status "Failure" r then r ∷ rest else rest)

unfoldable pub skipped_names : List TestResult → List String
skipped_names [] = []
skipped_names (r ∷ results) =
    let rest = skipped_names results in
    if has_status "Success" r
    then rest
    else (if has_status "Failure" r then rest else r.name ∷ rest)

abbrev reason_text : Option String → String
reason_text none = ""
reason_text (some why) = " — " ++ why

unfoldable pub failed_line : List (String × String) → TestResult → String
failed_line expected r =
    "  FAIL "
    ++ (r.name
        ++ ((if in_expected expected r then " [expected-fail]" else "")
            ++ reason_text (truthy r.reason)))

unfoldable pub skipped_lines : List String → List String
skipped_lines [] = []
skipped_lines (t ∷ skipped) = ("  (forge-skipped: " ++ (join ", " (t ∷ skipped) ++ ")")) ∷ []

unfoldable pub format_summary : List TestResult → List (String × String) → String
format_summary [] expected = "(no tests reported)"
format_summary (r ∷ rs) expected =
    let results : List TestResult = r ∷ rs in
    let counts : String =
      "forge test: "
      ++ (decimal (length (passed_names results))
          ++ (" passed, " ++ (decimal (length (failed_results results)) ++ " failed"))) in
    join "\n" (
      append (counts ∷ skipped_lines (skipped_names results))
        (map (failed_line expected) (failed_results results)))

-- `infer_test_dir`: the table `profile.default` of foundry.toml, if there is the file, it is valid and
-- has the table, with its key `test`.
abbrev pub infer_test_dir : Option (Option String) → String
infer_test_dir none = "test"
infer_test_dir (some test) = elim (truthy test) [ none ↦ "test" | some dir ↦ dir ]
