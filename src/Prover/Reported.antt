-- ===== src/Prover/Reported.antt =====
-- What a report of composer/prover/core.py rests on: the process, its link and the results that were
-- announced.
use mathlib.Core.List.{◌++◌}
use certora_aicomposer.Prelude.{
  String, Bool, true, false, List, [], ◌∷◌, Option, none, some, ◌≡◌, refl, if◌then◌else◌,
}
use certora_aicomposer.Prover.Types.{RuleResult}
use certora_aicomposer.Prover.Run.{
  ProverOptions, cloud, ProverResult, Process, ResultsDir, Event, ProverReport, Outcome, Failure,
  Run, told, ended, CexHandler, read_from, polled_dir, retrieved_cloud, after_exit, global_timeout,
  line_events, poll_callbacks, run_prover,
}
use certora_aicomposer.Prover.Reading.{report_in, Read, told-Read, read_from-Read}

module _ (analyze_cex : RuleResult → Option String)
    (render : List (RuleResult × Option String) → String) where
  module _ {F : Type 0} (default_global_timeout : F) (to_float : String → Option F) (grace : F → F)
      (spawn : List String → Process)
      (cloud_dir : F → String → List (String × String) × Option ResultsDir)
      (local_dir : String → ResultsDir) where
    -- The directory that the results of a link are read in: with the option for the cloud, the one that
    -- its job gives in the time limit and the grace; else that of a local run.
    pub data DirOf (opts : ProverOptions) (is_local : Bool) (link : String) (dir : ResultsDir)
        : Type 0 where
      of_cloud :
          (timeout : F)
          → cloud opts ≡ true
          → global_timeout default_global_timeout to_float opts ≡ some timeout
          → (cloud_dir (grace timeout) link).1 ≡ some dir
          → DirOf opts is_local link dir
      of_local :
          cloud opts ≡ false → is_local ≡ true → local_dir link ≡ dir → DirOf opts is_local link dir

    abbrev dir_run : CexHandler → String → List (String × String) × Option ResultsDir → Run
    dir_run =
        polled_dir analyze_cex render default_global_timeout to_float grace spawn cloud_dir
          local_dir

    polled_dir-Read :
        (cex : CexHandler) (link : String) (p : List (String × String) × Option ResultsDir)
        (r : ProverReport)
        → report_in (dir_run cex link p).outcome ≡ some r
        → (dir : ResultsDir) × (p.1 ≡ some dir)
          × Read analyze_cex render cex link dir (dir_run cex link p) r
    polled_dir-Read cex link (polls, none) r h = cc h
    polled_dir-Read cex link (polls, some dir) r h = (
      dir,
      refl,
      told-Read analyze_cex render cex link dir (poll_callbacks polls)
          (read_from analyze_cex render cex link dir) r
          (read_from-Read analyze_cex render cex link dir r h),
    )

    abbrev cloud_run : CexHandler → String → Option F → Run
    cloud_run =
        retrieved_cloud analyze_cex render default_global_timeout to_float grace spawn cloud_dir
          local_dir

    retrieved_cloud-Read :
        (cex : CexHandler) (link : String) (t : Option F) (r : ProverReport)
        → report_in (cloud_run cex link t).outcome ≡ some r
        → (timeout : F) × (t ≡ some timeout)
          × ((dir : ResultsDir) × ((cloud_dir (grace timeout) link).1 ≡ some dir)
              × Read analyze_cex render cex link dir (cloud_run cex link t) r)
    retrieved_cloud-Read cex link none r h = cc h
    retrieved_cloud-Read cex link (some timeout) r h =
        (timeout, refl, polled_dir-Read cex link (cloud_dir (grace timeout) link) r h)

    -- Where the results are: in the cloud, or in a local directory.
    place : Bool → Bool → ProverOptions → CexHandler → String → Run
    place in_cloud is_local opts cex link =
        if in_cloud
        then retrieved_cloud analyze_cex render default_global_timeout to_float grace spawn
            cloud_dir local_dir cex link (global_timeout default_global_timeout to_float opts)
        else (if is_local
            then read_from analyze_cex render cex link (local_dir link)
            else ended (Outcome.message Failure.not_local))

    place-Read :
        (in_cloud is_local : Bool) (opts : ProverOptions) (cex : CexHandler) (link : String)
        (r : ProverReport)
        → cloud opts ≡ in_cloud
        → report_in (place in_cloud is_local opts cex link).outcome ≡ some r
        → (dir : ResultsDir) × DirOf opts is_local link dir
          × Read analyze_cex render cex link dir (place in_cloud is_local opts cex link) r
    unfolding place
    place-Read true is_local opts cex link r c h =
        let t : Option F = global_timeout default_global_timeout to_float opts in
        let p : (timeout : F) × (t ≡ some timeout)
            × ((dir : ResultsDir) × ((cloud_dir (grace timeout) link).1 ≡ some dir)
                × Read analyze_cex render cex link dir (cloud_run cex link t) r) =
          retrieved_cloud-Read cex link t r h in
        (p.2.0, DirOf.of_cloud p.0 c p.1 p.2.1, p.2.2)
    place-Read false true opts cex link r c h = (
      local_dir link,
      DirOf.of_local c refl refl,
      read_from-Read analyze_cex render cex link (local_dir link) r h,
    )
    place-Read false false opts cex link r c h = cc h

    -- A report rests on a process that succeeded, with a link to results that could be read.
    pub record Reported (opts : ProverOptions) (cex : CexHandler) (exit_zero : Bool)
        (run_result : ProverResult) (run : Run) (r : ProverReport) : Type 0 where
      pub is_local : Bool
      pub link : String
      pub exited : exit_zero ≡ true
      pub succeeded : run_result ≡ ProverResult.success is_local (some link)
      pub dir : ResultsDir
      pub placed : DirOf opts is_local link dir
      pub read : Read analyze_cex render cex link dir run r

    told-Reported :
        (opts : ProverOptions) (cex : CexHandler) (exit_zero : Bool) (run_result : ProverResult)
        (es : List Event) (run : Run) (r : ProverReport)
        → Reported opts cex exit_zero run_result run r
        → Reported opts cex exit_zero run_result (told es run) r
    told-Reported opts cex exit_zero run_result es run r p = record {
      is_local = p.is_local;
      link = p.link;
      exited = p.exited;
      succeeded = p.succeeded;
      dir = p.dir;
      placed = p.placed;
      read = told-Read analyze_cex render cex p.link p.dir es run r p.read;
    }

    abbrev exit_run : ProverOptions → CexHandler → Bool → ProverResult → Run
    exit_run =
        after_exit analyze_cex render default_global_timeout to_float grace spawn cloud_dir
          local_dir

    after_exit-Reported :
        (opts : ProverOptions) (cex : CexHandler) (exit_zero : Bool) (run_result : ProverResult)
        (r : ProverReport)
        → report_in (exit_run opts cex exit_zero run_result).outcome ≡ some r
        → Reported opts cex exit_zero run_result (exit_run opts cex exit_zero run_result) r
    unfolding place
    after_exit-Reported opts cex false run_result r h = cc h
    after_exit-Reported opts cex true ProverResult.no_result r h = cc h
    after_exit-Reported opts cex true (ProverResult.failure exc) r h = cc h
    after_exit-Reported opts cex true (ProverResult.success is_local none) r h = cc h
    after_exit-Reported opts cex true (ProverResult.success is_local (some link)) r h =
        let p : (dir : ResultsDir) × DirOf opts is_local link dir
            × Read analyze_cex render cex link dir (place (cloud opts) is_local opts cex link) r =
          place-Read (cloud opts) is_local opts cex link r refl h in
        record {
          is_local = is_local;
          link = link;
          exited = refl;
          succeeded = refl;
          dir = p.0;
          placed = p.1;
          read =
              told-Read analyze_cex render cex link p.0 (Event.prover_link link ∷ [])
                (place (cloud opts) is_local opts cex link) r p.2;
        }

    -- If a run of the prover gives a report, then its process has ended with the code zero and a result
    -- with a link; the results were read, and announced, in the directory of that link, which with the
    -- option for the cloud is the one that its job gives in the time limit and the grace, and else that
    -- of a local run; the report, its statuses and its link are those of these results; and it is
    -- summarized exactly if there is a handler with a threshold and more of them are not verified than
    -- that.
    pub run_prover-Reported :
        (args : List String) (opts : ProverOptions) (cex : CexHandler) (r : ProverReport)
        → report_in
            (run_prover analyze_cex render default_global_timeout to_float grace spawn cloud_dir
              local_dir args opts cex).outcome
          ≡ some r
        → Reported opts cex
            (spawn (args ++ opts.extra_args)).exit_zero
            (spawn (args ++ opts.extra_args)).run_result
            (run_prover analyze_cex render default_global_timeout to_float grace spawn cloud_dir
              local_dir args opts cex)
            r
    unfolding run_prover
    run_prover-Reported args opts cex r h =
        let proc : Process = spawn (args ++ opts.extra_args) in
        told-Reported opts cex proc.exit_zero proc.run_result
          (Event.prover_run (args ++ opts.extra_args) ∷ line_events proc.lines)
          (exit_run opts cex proc.exit_zero proc.run_result) r
          (after_exit-Reported opts cex proc.exit_zero proc.run_result r h)
