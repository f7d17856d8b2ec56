-- ===== src/Prover/TreeView/CallTrace.antt =====
-- `calltrace_to_xml` of composer/prover/results.py.
use Prim.Native.Nat.{ℕ, zero, suc}
use Prim.Native.String.{slice, len, count}
use text.Mathlib.Text.{◌==◌, starts_with}
use certora_aicomposer.Prelude.{String, Bool, List, [], ◌∷◌, ◌||◌, ◌≡◌, refl, if◌then◌else◌}
use certora_aicomposer.Text.{◌++◌, decimal}
use certora_aicomposer.Prover.Types.{CallTraceModel, CallTraces}

-- `s.replace(old, new)` for an `old` that is not empty; a unit of fuel for each character.
replace_fuel : ℕ → String → String → String → String
replace_fuel zero old new s = s
replace_fuel (suc f) old new String.[] = ""
replace_fuel (suc f) old new (String.◌∷◌ c s) =
    let whole = String.◌∷◌ c s in
    let found = new ++ replace_fuel f old new (slice whole (len old) (len whole)) in
    let later = String.◌∷◌ c (replace_fuel f old new s) in
    if starts_with whole old then found else later

unfoldable pub replace : String → String → String → String
unfolding replace_fuel
replace s old new = replace_fuel (suc (count s)) old new s

-- The loop over the arguments, the first index given.
unfoldable pub fill_placeholders : ℕ → String → List String → String
fill_placeholders i formatted_message [] = formatted_message
fill_placeholders i formatted_message (value ∷ arguments) =
    fill_placeholders (suc i) (replace formatted_message ("{" ++ decimal i ++ "}") value) arguments

unfoldable pub is_left_out : CallTraceModel → Bool
is_left_out (CallTraceModel.call_trace text _ _) =
    (text == "Setup")
    || (text == "Global State")
    || (text == "Evaluate branch condition")
    || (text == "unknown loop source code")

unfoldable mutual
  pub calltrace_to_xml : CallTraceModel → String
  calltrace_to_xml (CallTraceModel.call_trace text arguments children) =
      ("<message>" ++ fill_placeholders zero text arguments ++ "</message>")
      ++ children_to_xml children

  pub children_to_xml : CallTraces → String
  children_to_xml CallTraces.no_traces = ""
  children_to_xml (CallTraces.one_more child rest) =
      (if is_left_out child then "" else "<child>" ++ calltrace_to_xml child ++ "</child>")
      ++ children_to_xml rest

replace_example : replace "{0} plus {0}" "{0}" "x" ≡ "x plus x"
unfolding replace
replace_example = refl
