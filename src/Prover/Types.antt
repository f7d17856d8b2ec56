-- ===== src/Prover/Types.antt =====
-- `RulePath` and `RuleResult` of composer/prover/ptypes.py, and the nodes of the prover's tree
-- view in composer/prover/results.py.
use certora_aicomposer.Prelude.{String, Bool, false, List, Option, none, some}
use certora_aicomposer.Text.{◌++◌}

pub data StatusCodes : Type 0 where
  verified violated timeout error sanity_failed skipped : StatusCodes

pub record RulePath : Type 0 where
  pub rule : String
  pub contract : Option String
  pub method : Option String
  pub sanity : Bool

-- `RulePath(rule=r)`
abbrev pub rule_path : String → RulePath
rule_path r = record { rule = r; contract = none; method = none; sanity = false }

pprint_of : String → Option String → Option String → String
pprint_of rule (some contract) none = rule ++ " in contract " ++ contract
pprint_of rule _ (some method) = rule ++ " for " ++ method
pprint_of rule none none = rule

unfoldable pub pprint : RulePath → String
unfolding pprint_of
pprint p = pprint_of p.rule p.contract p.method

pub record RuleResult : Type 0 where
  pub path : RulePath
  pub cex_dump : Option String
  pub status : StatusCodes
  pub error_messages : List String

abbrev pub name : RuleResult → String
name r = pprint r.path

pub record RuleNotificationMessages : Type 0 where
  pub severity : String
  pub message : String

-- `NodeList` is `list[RuleNodeModel]`.
mutual
  pub data RuleNodeModel : Type 0 where
    node :
        (name : String) (output : List String) (children : NodeList) (status : Option String)
        (node_type : String) (errors : List RuleNotificationMessages)
        → RuleNodeModel

  pub data NodeList : Type 0 where
    no_nodes : NodeList
    one_more : (first : RuleNodeModel) (rest : NodeList) → NodeList

-- `CallTraces` is `list[CallTraceModel]`; the message's arguments are their values.
mutual
  pub data CallTraceModel : Type 0 where
    call_trace : (text : String) (arguments : List String) (children : CallTraces) → CallTraceModel

  pub data CallTraces : Type 0 where
    no_traces : CallTraces
    one_more : (first : CallTraceModel) (rest : CallTraces) → CallTraces
