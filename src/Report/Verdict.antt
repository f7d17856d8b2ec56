-- ===== src/Report/Verdict.antt =====
-- `_Verdict` and `_fetch_verdicts` of composer/spec/source/report/collect.py. Parameters: the type
-- of durations with its test for zero, the name of a path's last part, and the checks that the
-- prover's output has for a link (`none` if they cannot be had).
use certora_aicomposer.Prelude.{
  ℕ, String, Bool, List, [], ◌∷◌, Option, none, some, leb, if◌then◌else◌,
}
use certora_aicomposer.Text.{truthy}
use certora_aicomposer.Dict.{Dict, lookup, insert}

-- The statuses that `_STATUS_PRIORITY` names, and any other one of the prover's output.
pub data NodeStatus : Type 0 where
  violated error timeout unknown running pending verified : NodeStatus
  another : String → NodeStatus

-- `_STATUS_PRIORITY.get(status, 0)`
unfoldable pub status_priority : NodeStatus → ℕ
status_priority NodeStatus.violated = 6
status_priority NodeStatus.error = 5
status_priority NodeStatus.timeout = 4
status_priority NodeStatus.unknown = 3
status_priority NodeStatus.running = 2
status_priority NodeStatus.pending = 1
status_priority NodeStatus.verified = 0
status_priority (NodeStatus.another _) = 0

-- `a if a is not None else b`
abbrev pub first_some {ℓ} : {A : Type ℓ} → Option A → Option A → Option A
first_some none b = b
first_some (some a) b = some a

module _ (Seconds : Type 0) where
  pub record Verdict : Type 0 where
    pub status : NodeStatus
    pub line : Option ℕ
    pub duration_seconds : Option Seconds
    pub spec_file : Option String

  unfoldable pub combine : Verdict → Verdict → Verdict
  combine hi lo = record {
    status = hi.status;
    line = first_some hi.line lo.line;
    duration_seconds = first_some hi.duration_seconds lo.duration_seconds;
    spec_file = first_some (truthy hi.spec_file) lo.spec_file;
  }

  unfoldable pub merge : Verdict → Option Verdict → Verdict
  unfolding combine
  merge self none = self
  merge self (some other) =
      if leb (status_priority other.status) (status_priority self.status)
      then combine self other
      else combine other self

  pub record SourceLocation : Type 0 where
    pub line : Option ℕ
    pub file : Option String

  pub record CheckResult : Type 0 where
    pub rule_name : String
    pub status : NodeStatus
    pub source_location : Option SourceLocation
    pub duration : Option Seconds

  module _ (is_zero : Seconds → Bool) (basename : String → String)
      (get_all_checks : String → Option (List CheckResult)) where
    -- `c.duration or None`
    nonzero : Option Seconds → Option Seconds
    nonzero none = none
    nonzero (some d) = if is_zero d then none else some d

    line_of : Option SourceLocation → Option ℕ
    line_of none = none
    line_of (some loc) = loc.line

    named : Option String → Option String
    named none = none
    named (some file) = some (basename file)

    file_of : Option SourceLocation → Option String
    unfolding named
    file_of none = none
    file_of (some loc) = named (truthy loc.file)

    unfoldable pub candidate : CheckResult → Verdict
    unfolding nonzero line_of file_of
    candidate c = record {
      status = c.status;
      line = line_of c.source_location;
      duration_seconds = nonzero c.duration;
      spec_file = file_of c.source_location;
    }

    -- The loop over the checks.
    unfoldable pub roll_up : Dict Verdict → List CheckResult → Dict Verdict
    roll_up verdicts [] = verdicts
    roll_up verdicts (c ∷ checks) =
        roll_up (insert c.rule_name (merge (candidate c) (lookup c.rule_name verdicts)) verdicts)
          checks

    rolled : Option (List CheckResult) → Dict Verdict
    rolled none = []
    rolled (some checks) = roll_up [] checks

    unfoldable pub fetch_verdicts : String → Dict Verdict
    unfolding rolled
    fetch_verdicts link = rolled (get_all_checks link)
