-- ===== src/Generation/Types.antt =====
-- The data of composer/spec/cvl_generation.py and the state of the agent that writes specifications
-- for source code: composer/spec/source/author.py and composer/spec/source/prover.py. Of the prover's
-- configuration the state has the files and the links.
use certora_aicomposer.Prelude.{String, Bool, List, Option}

pub record SkippedProperty : Type 0 where
  pub property_title : String
  pub reason : String

pub record PropertyRuleMapping : Type 0 where
  pub property_title : String
  pub rules : List String

pub record GeneratedCvl : Type 0 where
  pub commentary : String
  pub cvl : String
  pub skipped : List SkippedProperty
  pub property_rules : List PropertyRuleMapping
  pub final_link : Option String

-- The keys `files` and `link` of the configuration; a key that is not there has no list.
pub record ProverConfig : Type 0 where
  pub files : Option (List String)
  pub link : Option (List String)

-- `SourceCVLGenerationState` with `CVLGenerationExtra` and `ProverStateExtra`
pub record GenerationState : Type 0 where
  pub curr_spec : Option String
  pub skipped : List SkippedProperty
  pub property_rules : List PropertyRuleMapping
  pub validations : List (String × String)
  pub required_validations : List String
  pub rule_skips : List (String × String)
  pub config : ProverConfig
  pub prover_link : Option String
  pub failed : Option Bool
  pub result : Option String
