-- ===== src/Prover/Polled.antt =====
-- The polling of composer/prover/cloud.py: it ends with the first terminal answer, and the results that
-- are yielded are those of a job that has succeeded.
use text.Mathlib.Text.{◌==◌}
use text.Mathlib.TextEquality.{eq_iff}
use certora_aicomposer.Prelude.{
  ℕ, zero, suc, ◌+◌, ◌<◌, String, Bool, true, false, List, [], ◌∷◌, Option, none, some, ◌≡◌, ◌≢◌,
  refl, sym, ap, ◌∙◌, subst, arith, length, inl, inr, Bool-cases, Option-cases, if◌then◌else◌,
}
use certora_aicomposer.Text.{is_empty}
use certora_aicomposer.Sets.{text_eq, contains}
use certora_aicomposer.Prover.Cloud.{
  terminal_statuses, CloudJob, ParsedUrl, job_data_url, parse_cloud_link, JobData, status_of,
  PollEnd, Poll, polled, poll_job, Extracted, ResultsRoot, dest_root, find_results_root, CloudError,
  CloudResults, answered, rooted, extracted, downloaded, with_url, full_url, after_link,
  cloud_results,
}

abbrev pub Terminal : JobData → Type 0
Terminal d = contains (status_of d) terminal_statuses ≡ true

abbrev pub Running : Option JobData → Type 0
Running o = (d : JobData) × (o ≡ some d) × (contains (status_of d) terminal_statuses ≡ false)

polled-last :
    (d : JobData) (rest : Poll)
    → Terminal d
    → polled d rest ≡ record { statuses = status_of d ∷ []; end = PollEnd.done d }
polled-last d rest t = rw t refl

polled-more :
    (d : JobData) (rest : Poll)
    → contains (status_of d) terminal_statuses ≡ false
    → polled d rest ≡ record { statuses = status_of d ∷ rest.statuses; end = rest.end }
polled-more d rest t = rw t refl

-- What has ended the polling from the `k`-th request on.
pub record Ends (answers : ℕ → Option JobData) (rounds k : ℕ) (d : JobData) : Type 0 where
  pub after : ℕ
  pub in_time : after < rounds
  pub answer : answers (k + after) ≡ some d
  pub terminal : Terminal d
  pub earlier : (m : ℕ) → m < after → Running (answers (k + m))

done-eq : (a d : JobData) → PollEnd.done a ≡ PollEnd.done d → a ≡ d
done-eq a d e = cc e

poll_job-Ends :
    (answers : ℕ → Option JobData) (rounds k : ℕ) (d : JobData)
    → (poll_job answers rounds k).end ≡ PollEnd.done d
    → Ends answers rounds k d
unfolding poll_job
poll_job-Ends answers zero k d h = cc h
poll_job-Ends answers (suc rounds) k d h = elim (Option-cases (answers k)) [
  | inl n ↦ absurd (error_end (ap (λ o. (answered o rest).end) (sym n) ∙ h))
  | inr (a, e) ↦
      let now : (polled a rest).end ≡ PollEnd.done d =
        ap (λ o. (answered o rest).end) (sym e) ∙ h in
      elim (Bool-cases (contains (status_of a) terminal_statuses)) [
        | inl t ↦
            let same : a ≡ d = done-eq a d (ap (λ p. p.end) (sym (polled-last a rest t)) ∙ now) in
            record {
              after = 0;
              in_time = omega arith;
              answer = subst (λ i. answers i ≡ some d) (omega arith) (e ∙ ap some same);
              terminal = subst Terminal same t;
              earlier = λ m l. absurd (omega arith);
            }
        | inr f ↦ later a e f (
            poll_job-Ends answers rounds (suc k) d
              (ap (λ p. p.end) (sym (polled-more a rest f)) ∙ now))
      ]
]
  where
    rest : Poll
    rest = poll_job answers rounds (suc k)

    error_end : PollEnd.http_error ≡ PollEnd.done d → ⊥
    error_end e = cc e

    earlier_with :
        (a : JobData)
        → answers k ≡ some a
        → contains (status_of a) terminal_statuses ≡ false
        → (r : Ends answers rounds (suc k) d) (m : ℕ) → m < suc r.after
        → Running (answers (k + m))
    earlier_with a e f r zero l = subst (λ i. Running (answers i)) (omega arith) (a, e, f)
    earlier_with a e f r (suc m) l =
        subst (λ i. Running (answers i)) (omega arith) (r.earlier m (omega arith))

    later :
        (a : JobData)
        → answers k ≡ some a
        → contains (status_of a) terminal_statuses ≡ false
        → Ends answers rounds (suc k) d
        → Ends answers (suc rounds) k d
    later a e f r = record {
      after = suc r.after;
      in_time = let l : r.after < rounds = r.in_time in omega arith;
      answer = subst (λ i. answers i ≡ some d) (omega arith) r.answer;
      terminal = r.terminal;
      earlier = λ m l. earlier_with a e f r m l;
    }

-- If the first terminal answer comes within the rounds, the polling ends with it, and has reported the
-- status of each answer up to it.
pub poll_job-first :
    (answers : ℕ → Option JobData) (n rounds k : ℕ) (d : JobData)
    → n < rounds
    → answers (k + n) ≡ some d
    → Terminal d
    → ((m : ℕ) → m < n → Running (answers (k + m)))
    → ((poll_job answers rounds k).end ≡ PollEnd.done d)
      × (length (poll_job answers rounds k).statuses ≡ suc n)
unfolding poll_job
poll_job-first answers n zero k d b a t e = absurd (omega arith)
poll_job-first answers zero (suc rounds) k d b a t e =
    let now : answers k ≡ some d = subst (λ i. answers i ≡ some d) (omega arith) a in
    let rest : Poll = poll_job answers rounds (suc k) in
    let whole : answered (answers k) rest
        ≡ record { statuses = status_of d ∷ []; end = PollEnd.done d } =
      ap (λ o. answered o rest) now ∙ polled-last d rest t in
    (ap (λ p. p.end) whole, ap (λ p. length p.statuses) whole)
poll_job-first answers (suc n) (suc rounds) k d b a t e =
    let r : Running (answers k) =
      subst (λ i. Running (answers i)) (omega arith) (e 0 (omega arith)) in
    let rest : Poll = poll_job answers rounds (suc k) in
    let later : (rest.end ≡ PollEnd.done d) × (length rest.statuses ≡ suc n) =
      poll_job-first answers n rounds (suc k) d (omega arith)
        (subst (λ i. answers i ≡ some d) (omega arith) a) t
        (λ m l. subst (λ i. Running (answers i)) (omega arith) (e (suc m) (omega arith))) in
    let whole : answered (answers k) rest
        ≡ record { statuses = status_of r.0 ∷ rest.statuses; end = rest.end } =
      ap (λ o. answered o rest) r.1 ∙ polled-more r.0 rest r.2 in
    (ap (λ p. p.end) whole ∙ later.0, ap (λ p. length p.statuses) whole ∙ ap suc later.1)

-- The root of an archive: its one directory, if that has `Reports`; or the archive itself, if it has
-- `Reports` and is not such a directory alone.
abbrev pub RootOf : Extracted → ResultsRoot → Type 0
RootOf x (ResultsRoot.child name) = x.children ≡ (name, true) ∷ []
RootOf x ResultsRoot.dest =
    (x.has_reports ≡ true) × ((name : String) → x.children ≢ (name, true) ∷ [])

found-RootOf :
    (x : Extracted) (root : ResultsRoot) → find_results_root x ≡ some root → RootOf x root
unfolding find_results_root
found-RootOf x root = by_children x.children x.has_reports root
  where
    itself :
        (reports : Bool) (children : List (String × Bool)) (root : ResultsRoot)
        → ((name : String) → children ≢ (name, true) ∷ [])
        → dest_root reports ≡ some root
        → RootOf (record { children = children; has_reports = reports }) root
    itself false children root ne h = cc h
    itself true children (ResultsRoot.child name) ne h = cc h
    itself true children ResultsRoot.dest ne h = (refl, ne)

    alone :
        (name : String) (reports : Bool) (root : ResultsRoot)
        → some (ResultsRoot.child name) ≡ some root
        → RootOf (record { children = (name, true) ∷ []; has_reports = reports }) root
    alone name reports (ResultsRoot.child other) h = cc h
    alone name reports ResultsRoot.dest h = cc h

    by_children :
        (children : List (String × Bool)) (reports : Bool) (root : ResultsRoot)
        → find_results_root (record { children = children; has_reports = reports }) ≡ some root
        → RootOf (record { children = children; has_reports = reports }) root
    by_children [] reports root h = itself reports [] root (λ name e. cc e) h
    by_children ((name, true) ∷ []) reports root h = alone name reports root h
    by_children ((name, false) ∷ []) reports root h =
        itself reports ((name, false) ∷ []) root (λ other e. cc e) h
    by_children ((name, true) ∷ c ∷ rest) reports root h =
        itself reports ((name, true) ∷ c ∷ rest) root (λ other e. cc e) h
    by_children ((name, false) ∷ c ∷ rest) reports root h =
        itself reports ((name, false) ∷ c ∷ rest) root (λ other e. cc e) h

module _ (download : String → Option Extracted) where
  -- A job has succeeded in time, and its archive has the root that is yielded.
  pub record Succeeded (job : Option CloudJob) (answers : String → ℕ → Option JobData) (rounds : ℕ)
      (root : ResultsRoot) : Type 0 where
    pub cloud_job : CloudJob
    pub parsed : job ≡ some cloud_job
    pub job_data : JobData
    pub ends : Ends (answers (job_data_url cloud_job)) rounds 0 job_data
    pub succeeded : status_of job_data ≡ "SUCCEEDED"
    pub zip_url : String
    pub has_url : job_data.zip_output_url ≡ some zip_url
    pub not_empty : is_empty zip_url ≡ false
    pub archive : Extracted
    pub fetched : download (full_url zip_url cloud_job.anonymous_key) ≡ some archive
    pub found : RootOf archive root

  -- The archive of a URL that is yielded from.
  record Fetched (key : String) (o : Option String) (root : ResultsRoot) : Type 0 where
    zip_url : String
    has_url : o ≡ some zip_url
    not_empty : is_empty zip_url ≡ false
    archive : Extracted
    fetched : download (full_url zip_url key) ≡ some archive
    found : RootOf archive root

  rooted-some :
      (o : Option ResultsRoot) (root : ResultsRoot)
      → rooted download o ≡ CloudResults.yielded root
      → o ≡ some root
  rooted-some none root h = cc h
  rooted-some (some found) root h = cc h

  extracted-some :
      (o : Option Extracted) (root : ResultsRoot)
      → extracted download o ≡ CloudResults.yielded root
      → (x : Extracted) × (o ≡ some x) × (find_results_root x ≡ some root)
  extracted-some none root h = cc h
  extracted-some (some x) root h = (x, refl, rooted-some (find_results_root x) root h)

  with_url-Fetched :
      (key : String) (o : Option String) (root : ResultsRoot)
      → with_url download key o ≡ CloudResults.yielded root
      → Fetched key o root
  with_url-Fetched key none root h = cc h
  with_url-Fetched key (some zip_url) root h = either (is_empty zip_url) refl h
    where
      either :
          (b : Bool)
          → is_empty zip_url ≡ b
          → (if b
              then CloudResults.raised CloudError.no_zip_url
              else extracted download (download (full_url zip_url key)))
            ≡ CloudResults.yielded root
          → Fetched key (some zip_url) root
      either true e k = cc k
      either false e k =
          let x : (x : Extracted) × (download (full_url zip_url key) ≡ some x)
              × (find_results_root x ≡ some root) =
            extracted-some (download (full_url zip_url key)) root k in
          record {
            zip_url = zip_url;
            has_url = refl;
            not_empty = e;
            archive = x.0;
            fetched = x.1;
            found = found-RootOf x.0 root x.2;
          }

  downloaded-Fetched :
      (key : String) (end : PollEnd) (root : ResultsRoot)
      → downloaded download key end ≡ CloudResults.yielded root
      → (d : JobData) × (end ≡ PollEnd.done d)
        × (status_of d ≡ "SUCCEEDED")
        × Fetched key d.zip_output_url root
  downloaded-Fetched key PollEnd.timed_out root h = cc h
  downloaded-Fetched key PollEnd.http_error root h = cc h
  downloaded-Fetched key (PollEnd.done d) root h = either (status_of d == "SUCCEEDED") refl h
    where
      either :
          (b : Bool)
          → (status_of d == "SUCCEEDED") ≡ b
          → (if b
              then with_url download key d.zip_output_url
              else CloudResults.raised CloudError.not_succeeded)
            ≡ CloudResults.yielded root
          → (j : JobData) × (PollEnd.done d ≡ PollEnd.done j)
            × (status_of j ≡ "SUCCEEDED")
            × Fetched key j.zip_output_url root
      either true e k = (
        d,
        refl,
        (eq_iff (status_of d) "SUCCEEDED").0 e,
        with_url-Fetched key d.zip_output_url root k,
      )
      either false e k = cc k

  after_link-Succeeded :
      (job : Option CloudJob) (answers : String → ℕ → Option JobData) (rounds : ℕ)
      (root : ResultsRoot)
      → (after_link download answers rounds job).1 ≡ CloudResults.yielded root
      → Succeeded job answers rounds root
  after_link-Succeeded none answers rounds root h = cc h
  after_link-Succeeded (some job) answers rounds root h =
      let poll : Poll = poll_job (answers (job_data_url job)) rounds 0 in
      let p : (d : JobData) × (poll.end ≡ PollEnd.done d)
          × (status_of d ≡ "SUCCEEDED")
          × Fetched job.anonymous_key d.zip_output_url root =
        downloaded-Fetched job.anonymous_key poll.end root h in
      record {
        cloud_job = job;
        parsed = refl;
        job_data = p.0;
        ends = poll_job-Ends (answers (job_data_url job)) rounds 0 p.0 p.1;
        succeeded = p.2;
        zip_url = p.3.zip_url;
        has_url = p.3.has_url;
        not_empty = p.3.not_empty;
        archive = p.3.archive;
        fetched = p.3.fetched;
        found = p.3.found;
      }

  -- Results are yielded only for a link of a job, whose first terminal answer has come within the rounds
  -- and says that the job has succeeded, with an address, which is not empty, of an archive that could be
  -- had; and the root that is yielded is the archive's one directory, which has `Reports`, or the archive
  -- itself, which has `Reports` then and is not such a directory alone.
  pub cloud_results-Succeeded :
      (urlparse : String → ParsedUrl) (parse_qs : String → List (String × List String))
      (answers : String → ℕ → Option JobData) (rounds : ℕ) (link : String) (root : ResultsRoot)
      → (cloud_results download urlparse parse_qs answers rounds link).1 ≡ CloudResults.yielded root
      → Succeeded (parse_cloud_link urlparse parse_qs link) answers rounds root
  unfolding cloud_results
  cloud_results-Succeeded urlparse parse_qs answers rounds link root h =
      after_link-Succeeded (parse_cloud_link urlparse parse_qs link) answers rounds root h
