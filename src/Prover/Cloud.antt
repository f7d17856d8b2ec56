-- ===== src/Prover/Cloud.antt =====
-- composer/prover/cloud.py: the link of a job, the polling of its status and the directory of its
-- results. The parsers of addresses and queries, the answers of the server and the archive are
-- parameters. A poll that runs out of time has been given a number of rounds.
use text.Mathlib.Text.{◌==◌}
use Prim.Native.Char.{code}
use Prim.Native.String.{slice}
use certora_aicomposer.Prelude.{
  ℕ, zero, suc, String, Bool, true, false, List, [], ◌∷◌, Option, none, some, if◌then◌else◌,
  ◌==◌ as same_number,
}
use certora_aicomposer.Text.{◌++◌, is_empty, lstrip_of, rstrip_of}
use certora_aicomposer.Sets.{text_eq, contains}
use certora_aicomposer.KeyMap.{get}

abbrev pub terminal_statuses : List String
terminal_statuses = "FAILED" ∷ "ERROR" ∷ "CANCELLED" ∷ "TIMEOUT" ∷ "SUCCEEDED" ∷ []

pub record CloudJob : Type 0 where
  pub base_url : String
  pub user_id : String
  pub job_id : String
  pub anonymous_key : String

unfoldable pub job_data_url : CloudJob → String
job_data_url job =
    job.base_url
    ++ ("/jobData/"
        ++ (job.user_id ++ ("/" ++ (job.job_id ++ ("?anonymousKey=" ++ job.anonymous_key)))))

-- What `urlparse` gives.
pub record ParsedUrl : Type 0 where
  pub scheme : String
  pub netloc : String
  pub path : String
  pub query : String

abbrev before_first : String → List String → List String
before_first c [] = c ∷ []
before_first c (part ∷ parts) = (c ++ part) ∷ parts

-- `s.split("/")`
unfoldable pub split_slash : String → List String
split_slash String.[] = "" ∷ []
split_slash (String.◌∷◌ c s) =
    let rest = split_slash s in
    if same_number (code c) 47 then "" ∷ rest else before_first (String.◌∷◌ c String.[]) rest

unfoldable pub non_empty : List String → List String
non_empty [] = []
non_empty (p ∷ parts) = let rest = non_empty parts in if is_empty p then rest else p ∷ rest

unfoldable pub path_parts : String → List String
path_parts path = non_empty (split_slash (rstrip_of 47 (lstrip_of 47 path)))

abbrev first_key : Option (List String) → Option String
first_key none = none
first_key (some []) = none
first_key (some (key ∷ keys)) = some key

abbrev job_of : ParsedUrl → Option String → List String → Option CloudJob
job_of url (some key) (kind ∷ user ∷ job ∷ rest) =
    if kind == "jobStatus"
    then some (record {
      base_url = url.scheme ++ ("://" ++ url.netloc);
      user_id = user;
      job_id = job;
      anonymous_key = key;
    })
    else none
job_of url _ _ = none

-- `none` stands for a ValueError.
unfoldable pub parse_cloud_link :
    (String → ParsedUrl) → (String → List (String × List String)) → String → Option CloudJob
parse_cloud_link urlparse parse_qs link =
    let url : ParsedUrl = urlparse link in
    job_of url (first_key (get "anonymousKey" (parse_qs url.query))) (path_parts url.path)

pub record JobData : Type 0 where
  pub job_status : Option String
  pub zip_output_url : Option String

unfoldable pub status_of : JobData → String
status_of data_of_job = elim data_of_job.job_status [ some status ↦ status | none ↦ "UNKNOWN" ]

pub data PollEnd : Type 0 where
  timed_out http_error : PollEnd
  done : JobData → PollEnd

pub record Poll : Type 0 where
  pub statuses : List String
  pub end : PollEnd

abbrev pub polled : JobData → Poll → Poll
polled answer rest =
    if contains (status_of answer) terminal_statuses
    then record { statuses = status_of answer ∷ []; end = PollEnd.done answer }
    else record { statuses = status_of answer ∷ rest.statuses; end = rest.end }

abbrev pub answered : Option JobData → Poll → Poll
answered none rest = record { statuses = []; end = PollEnd.http_error }
answered (some answer) rest = polled answer rest

-- `poll_job`: the answers to the requests from the `k`-th on, `none` for an error of the server.
unfoldable pub poll_job : (ℕ → Option JobData) → ℕ → ℕ → Poll
poll_job answers zero k = record { statuses = []; end = PollEnd.timed_out }
poll_job answers (suc rounds) k =
    let rest : Poll = poll_job answers rounds (suc k) in answered (answers k) rest

-- The extracted archive: its directories, whether each has `Reports`, and whether it has that itself.
pub record Extracted : Type 0 where
  pub children : List (String × Bool)
  pub has_reports : Bool

pub data ResultsRoot : Type 0 where
  child : String → ResultsRoot
  dest : ResultsRoot

abbrev pub dest_root : Bool → Option ResultsRoot
dest_root true = some ResultsRoot.dest
dest_root false = none

unfoldable pub find_results_root : Extracted → Option ResultsRoot
find_results_root x = elim x.children [
  | (name, true) ∷ [] ↦ some (ResultsRoot.child name)
  | _ ↦ dest_root x.has_reports
]

-- What the context manager yields, or why it raises.
pub data CloudError : Type 0 where
  bad_link not_polled not_succeeded no_zip_url not_downloaded no_reports : CloudError

pub data CloudResults : Type 0 where
  raised : CloudError → CloudResults
  yielded : ResultsRoot → CloudResults

-- `"?" in s`
unfoldable pub has_question : String → Bool
has_question String.[] = false
has_question (String.◌∷◌ c s) =
    let rest = has_question s in if same_number (code c) 63 then true else rest

unfoldable pub full_url : String → String → String
full_url zip_url key =
    zip_url ++ ((if has_question zip_url then "&" else "?") ++ ("anonymousKey=" ++ key))

-- The callback of each status.
unfoldable pub poll_events : String → List String → List (String × String)
poll_events job_id [] = []
poll_events job_id (status ∷ statuses) =
    (status, "Cloud job " ++ (slice job_id 0 8 ++ (": " ++ status))) ∷ poll_events job_id statuses

module _ (download : String → Option Extracted) where
  abbrev pub rooted : Option ResultsRoot → CloudResults
  rooted none = CloudResults.raised CloudError.no_reports
  rooted (some root) = CloudResults.yielded root

  abbrev pub extracted : Option Extracted → CloudResults
  extracted none = CloudResults.raised CloudError.not_downloaded
  extracted (some x) = rooted (find_results_root x)

  abbrev pub with_url : String → Option String → CloudResults
  with_url key none = CloudResults.raised CloudError.no_zip_url
  with_url key (some zip_url) =
      if is_empty zip_url
      then CloudResults.raised CloudError.no_zip_url
      else extracted (download (full_url zip_url key))

  abbrev pub downloaded : String → PollEnd → CloudResults
  downloaded key PollEnd.timed_out = CloudResults.raised CloudError.not_polled
  downloaded key PollEnd.http_error = CloudResults.raised CloudError.not_polled
  downloaded key (PollEnd.done job_data) =
      if status_of job_data == "SUCCEEDED"
      then with_url key job_data.zip_output_url
      else CloudResults.raised CloudError.not_succeeded

  abbrev pub after_link :
      (String → ℕ → Option JobData) → ℕ → Option CloudJob → List (String × String) × CloudResults
  after_link answers rounds none = ([], CloudResults.raised CloudError.bad_link)
  after_link answers rounds (some job) =
      let poll : Poll = poll_job (answers (job_data_url job)) rounds 0 in
      (poll_events job.job_id poll.statuses, downloaded job.anonymous_key poll.end)

  unfoldable pub cloud_results :
      (String → ParsedUrl)
      → (String → List (String × List String))
      → (String → ℕ → Option JobData)
      → ℕ
      → String
      → List (String × String) × CloudResults
  cloud_results urlparse parse_qs answers rounds run_result_link =
      after_link answers rounds (parse_cloud_link urlparse parse_qs run_result_link)
