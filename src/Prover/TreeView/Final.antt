-- ===== src/Prover/TreeView/Final.antt =====
-- `get_final_treeview` and `read_and_format_run_result` of composer/prover/results.py. A file of
-- the tree view's directory is given by the number in its name, `none` if the name has none; what
-- comes of reading, parsing and validating it is a parameter.
use certora_aicomposer.Prelude.{ℕ, String, List, [], ◌∷◌, Option, none, some, ltb, if◌then◌else◌}
use certora_aicomposer.Dict.{Dict, insert}
use certora_aicomposer.Prover.Types.{RuleResult, name, RuleNodeModel, CallTraceModel}
use certora_aicomposer.Prover.TreeView.Flatten.{
  Result, ok, raise, read_error, ◌>>=◌, flatten_tree_view_root,
}

-- One round of the loop over the status files; `none` for `max_n` stands for -1.
unfoldable pub keep_greater : Option ℕ → Option ℕ → Option ℕ
keep_greater max_n none = max_n
keep_greater none (some index) = some index
keep_greater (some max_n) (some index) = if ltb index max_n then some max_n else some index

unfoldable pub final_index : Option ℕ → List (Option ℕ) → Option ℕ
unfolding keep_greater
final_index max_n [] = max_n
final_index max_n (file ∷ files) = final_index (keep_greater max_n file) files

-- What comes of a status file: it cannot be opened or is no JSON, it fails the validation, or it has the
-- rules' nodes.
pub data StatusFile : Type 0 where
  unreadable invalid : StatusFile
  valid : List RuleNodeModel → StatusFile

-- What comes of the directory: no tree view, an error that is not caught, a malformed one, or the
-- rules' nodes.
pub data FinalTreeView : Type 0 where
  no_results not_read malformed : FinalTreeView
  rules : List RuleNodeModel → FinalTreeView

loaded : StatusFile → FinalTreeView
loaded StatusFile.unreadable = FinalTreeView.not_read
loaded StatusFile.invalid = FinalTreeView.malformed
loaded (StatusFile.valid nodes) = FinalTreeView.rules nodes

module _ (load : ℕ → StatusFile) where
  abbrev from_index : Option ℕ → FinalTreeView
  unfolding loaded
  from_index none = FinalTreeView.no_results
  from_index (some index) = loaded (load index)

  unfoldable pub get_final_treeview : List (Option ℕ) → FinalTreeView
  unfolding from_index loaded
  get_final_treeview files = from_index (final_index none files)

-- `to_ret[r.name] = r` for each result.
unfoldable pub format_results : Dict RuleResult → List RuleResult → Dict RuleResult
format_results to_ret [] = to_ret
format_results to_ret (r ∷ results) = format_results (insert (name r) r to_ret) results

pub data RunResult : Type 0 where
  message : String → RunResult
  results : Dict RuleResult → RunResult

module _ (load : ℕ → StatusFile) (read_dump : String → Option (Option CallTraceModel)) where
  -- The loop over the rules' results, which are made as they are read.
  unfoldable pub format_rules : Dict RuleResult → List RuleNodeModel → Result (Dict RuleResult)
  format_rules to_ret [] = ok to_ret
  format_rules to_ret (r ∷ rest) = do
    flattened ← flatten_tree_view_root read_dump r
    format_rules (format_results to_ret flattened) rest

  run_result : FinalTreeView → Result RunResult
  run_result FinalTreeView.no_results =
      ok (message "Certora prover returned no results: this is likely a bug")
  run_result FinalTreeView.not_read = raise read_error
  run_result FinalTreeView.malformed =
      ok (message "Certora prover returned malformed tree view data: this is likely a bug")
  run_result (FinalTreeView.rules nodes) = do to_ret ← format_rules [] nodes; ok (results to_ret)

  unfoldable pub read_and_format_run_result : List (Option ℕ) → Result RunResult
  unfolding run_result
  read_and_format_run_result files = run_result (get_final_treeview load files)
