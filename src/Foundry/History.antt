-- ===== src/Foundry/History.antt =====
-- What the stamps and the names of tests of composer/foundry rest on: a stamp in the state is the digest
-- of a draft and skips that the judge has accepted or a clean run has passed, and the names are those
-- of the last run.
use certora_aicomposer.Prelude.{
  String, Bool, true, List, [], ◌∷◌, Option, none, some, ◌≡◌, inl, refl, sym, ap, ◌∙◌,
  if◌then◌else◌,
}
use mathlib.Core.List.{◌++◌}
use certora_aicomposer.Sets.{text_eq, In, All, In-append_left, In-append_right}
use certora_aicomposer.KeyMap.{get, put_all, get-put_self, get-put_ne, same-ne}
use certora_aicomposer.Generation.Types.{SkippedProperty}
use certora_aicomposer.Generation.Gate.{compute_digest}
use certora_aicomposer.Foundry.State.{FoundryState, forge_test_validation_key, feedback}
use certora_aicomposer.Foundry.Runner.{TestResult, Loaded, Parsed, parse_forge_json, test_names}
use certora_aicomposer.Foundry.Clean.{AsExpected}
use certora_aicomposer.Foundry.Tools.{ForgeRun, Action, is_unseeded, put_stamp, step}

-- The judge has accepted a draft with skips, or `forge` has run the draft: whether with a seed, whether
-- its return code was zero, its results, and the tests that were marked then.
pub data Event : Type 0 where
  accepted : String → List SkippedProperty → Event
  ran :
      (test : String) (skips : List SkippedProperty) (unseeded exit_zero : Bool)
      (results : List TestResult) (expected : List (String × String))
      → Event

abbrev pub accepted_now : Option String → FoundryState → List Event
accepted_now none st = []
accepted_now (some test) st = Event.accepted test st.skipped ∷ []

abbrev pub ran_now : Option String → Bool → Parsed → String → FoundryState → List Event
ran_now seed exit_zero Parsed.invalid test st = []
ran_now seed exit_zero Parsed.unparsed test st =
    Event.ran test st.skipped (is_unseeded seed) exit_zero [] st.expected_failures ∷ []
ran_now seed exit_zero (Parsed.parsed results) test st =
    Event.ran test st.skipped (is_unseeded seed) exit_zero results st.expected_failures ∷ []

abbrev pub forge_events :
    (String → Loaded) → Option String → ForgeRun → Option String → FoundryState → List Event
forge_events loads seed (ForgeRun.finished exit_zero stdout) (some test) st =
    ran_now seed exit_zero (parse_forge_json loads stdout) test st
forge_events loads seed _ _ st = []

abbrev pub events_of : (String → Loaded) → Action → FoundryState → List Event
events_of loads (Action.feedback_tool good) st = if good then accepted_now st.curr_test st else []
events_of loads (Action.forge_test seed forge) st = forge_events loads seed forge st.curr_test st
events_of loads _ st = []

module _ (md5 : String → String) (loads : String → Loaded) (titles : List String) where
  abbrev pub history : List Action → FoundryState → List Event
  history [] st = []
  history (a ∷ actions) st = events_of loads a st ++ history actions (step md5 loads titles a st)

  -- The judge has accepted a draft with the digest.
  pub record Accepted (h : List Event) (digest : String) : Type 0 where
    pub test : String
    pub skips : List SkippedProperty
    pub listed : In (Event.accepted test skips) h
    pub same_digest : compute_digest md5 test skips ≡ digest

  -- A run without a seed of a draft with the digest was clean.
  pub record Passed (h : List Event) (digest : String) : Type 0 where
    pub test : String
    pub skips : List SkippedProperty
    pub results : List TestResult
    pub expected : List (String × String)
    pub listed : In (Event.ran test skips true true results expected) h
    pub same_digest : compute_digest md5 test skips ≡ digest
    pub as_expected : All (AsExpected expected) results

  -- The names are those of a run.
  pub record Ran (h : List Event) (names : List String) : Type 0 where
    pub test : String
    pub skips : List SkippedProperty
    pub unseeded : Bool
    pub exit_zero : Bool
    pub results : List TestResult
    pub expected : List (String × String)
    pub listed : In (Event.ran test skips unseeded exit_zero results expected) h
    pub same_names : test_names results ≡ names

  -- Every stamp of the state is backed, and so are the names of its tests.
  pub record Backed (h : List Event) (st : FoundryState) : Type 0 where
    pub judge : (digest : String) → get feedback st.validations ≡ some digest → Accepted h digest
    pub forge :
        (digest : String)
        → get forge_test_validation_key st.validations ≡ some digest
        → Passed h digest
    pub names : (ran : List String) → st.last_test_names ≡ some ran → Ran h ran

  Accepted-left : (h k : List Event) (d : String) → Accepted h d → Accepted (h ++ k) d
  Accepted-left h k d a = record {
    test = a.test;
    skips = a.skips;
    listed = In-append_left (Event.accepted a.test a.skips) h k a.listed;
    same_digest = a.same_digest;
  }

  Passed-left : (h k : List Event) (d : String) → Passed h d → Passed (h ++ k) d
  Passed-left h k d p = record {
    test = p.test;
    skips = p.skips;
    results = p.results;
    expected = p.expected;
    listed = In-append_left (Event.ran p.test p.skips true true p.results p.expected) h k p.listed;
    same_digest = p.same_digest;
    as_expected = p.as_expected;
  }

  Ran-left : (h k : List Event) (names : List String) → Ran h names → Ran (h ++ k) names
  Ran-left h k names r = record {
    test = r.test;
    skips = r.skips;
    unseeded = r.unseeded;
    exit_zero = r.exit_zero;
    results = r.results;
    expected = r.expected;
    listed =
        In-append_left (Event.ran r.test r.skips r.unseeded r.exit_zero r.results r.expected) h k
          r.listed;
    same_names = r.same_names;
  }

  -- What the other tools keep of the state.
  abbrev pub Kept : FoundryState → FoundryState → Type 0
  Kept next st =
      (next.validations ≡ st.validations)
      × (next.required_validations ≡ st.required_validations)
      × (next.last_test_names ≡ st.last_test_names)

  pub kept-Backed :
      (h k : List Event) (st next : FoundryState)
      → Kept next st
      → Backed h st
      → Backed (h ++ k) next
  kept-Backed h k st next e b = record {
    judge = λ d g. Accepted-left h k d (b.judge d (ap (get feedback) (sym e.0) ∙ g));
    forge = λ d g. Passed-left h k d (b.forge d (ap (get forge_test_validation_key) (sym e.0) ∙ g));
    names = λ ran g. Ran-left h k ran (b.names ran (sym e.2 ∙ g));
  }

  -- One stamp is put for a digest that is backed by the event.
  pub judged-Backed :
      (h : List Event) (test : String) (st : FoundryState)
      → st.curr_test ≡ some test
      → Backed h st
      → Backed (h ++ Event.accepted test st.skipped ∷ []) (put_stamp md5 loads feedback st)
  unfolding put_all
  judged-Backed h test st e b =
      let k : List Event = Event.accepted test st.skipped ∷ [] in
      let own : get feedback (put_stamp md5 loads feedback st).validations
          ≡ some (compute_digest md5 test st.skipped) =
        rw e (get-put_self feedback _ st.validations) in
      record {
        judge = λ d g. record {
          test = test;
          skips = st.skipped;
          listed = In-append_right _ h k (inl refl);
          same_digest = cc (own, g);
        };
        forge = λ d g. Passed-left h k d (
            b.forge d (
              sym (
                get-put_ne feedback forge_test_validation_key _ st.validations
                  (same-ne feedback forge_test_validation_key refl))
              ∙ g));
        names = λ ran g. Ran-left h k ran (b.names ran g);
      }

  -- A clean run without a seed.
  pub certified-Backed :
      (h : List Event) (test : String) (results : List TestResult) (st : FoundryState)
      → st.curr_test ≡ some test
      → All (AsExpected st.expected_failures) results
      → Backed h st
      → Backed
          (h ++ Event.ran test st.skipped true true results st.expected_failures ∷ [])
          (record (put_stamp md5 loads forge_test_validation_key st) {
            last_test_names = some (test_names results);
          })
  unfolding put_all
  certified-Backed h test results st e good b =
      let k : List Event = Event.ran test st.skipped true true results st.expected_failures ∷ [] in
      let own : get forge_test_validation_key
            (put_stamp md5 loads forge_test_validation_key st).validations
          ≡ some (compute_digest md5 test st.skipped) =
        rw e (get-put_self forge_test_validation_key _ st.validations) in
      record {
        judge = λ d g. Accepted-left h k d (
            b.judge d (
              sym (
                get-put_ne forge_test_validation_key feedback _ st.validations
                  (same-ne forge_test_validation_key feedback refl))
              ∙ g));
        forge = λ d g. record {
          test = test;
          skips = st.skipped;
          results = results;
          expected = st.expected_failures;
          listed = In-append_right _ h k (inl refl);
          same_digest = cc (own, g);
          as_expected = good;
        };
        names = λ ran g. record {
          test = test;
          skips = st.skipped;
          unseeded = true;
          exit_zero = true;
          results = results;
          expected = st.expected_failures;
          listed = In-append_right _ h k (inl refl);
          same_names = cc g;
        };
      }

  -- A run that puts no stamp.
  pub named-Backed :
      (h : List Event) (test : String) (unseeded exit_zero : Bool) (results : List TestResult)
      (st : FoundryState)
      → Backed h st
      → Backed
          (h ++ Event.ran test st.skipped unseeded exit_zero results st.expected_failures ∷ [])
          (record st { last_test_names = some (test_names results) })
  named-Backed h test unseeded exit_zero results st b =
      let k : List Event =
        Event.ran test st.skipped unseeded exit_zero results st.expected_failures ∷ [] in
      record {
        judge = λ d g. Accepted-left h k d (b.judge d g);
        forge = λ d g. Passed-left h k d (b.forge d g);
        names = λ ran g. record {
          test = test;
          skips = st.skipped;
          unseeded = unseeded;
          exit_zero = exit_zero;
          results = results;
          expected = st.expected_failures;
          listed = In-append_right _ h k (inl refl);
          same_names = cc g;
        };
      }
