-- ===== src/ReviewJobs/Examples.antt =====
-- app/review_jobs.py: an example of a service with one running job and one that has ended.
use law_review_local.ReviewJobs.{
  Service, Job, Event, completed, set_job, run, claimed, new_job, submitted, closing, ended,
  failed_with, starting, restarted,
}
use law_review_local.Common.{List, some, ◌∷◌, none, arith, [], refl, true, false, ok}
use law_review_local.ReviewJobs.Ends.{SameEnd, run-SameEnd}
use law_review_local.ReviewJobs.Admission.{IsBalanced, run-IsBalanced}

abbrev ended_job : Job
ended_job = record {
  case_id = 1;
  principal = "bo";
  status = completed;
  run_id = some 5;
  result = "{answer}";
  error = "{}";
  finished_at = some 40;
}

abbrev service : Service
service = record {
  jobs = set_job "a" ended_job (set_job "b" (new_job 1 "ann") (λ i. none));
  futures = record { job_id = "b"; semaphore = 0 } ∷ [];
  executor = true;
  semaphore = 0;
  permits = 3;
}

abbrev events : List Event
events =
    claimed "b"
    ∷ submitted (ok tt) "c" 1 "bo" 50 true
    ∷ closing
    ∷ ended "c" true 60
    ∷ failed_with "a" "late" none 61
    ∷ ended "b" false 62
    ∷ starting
    ∷ restarted 70
    ∷ []

run-IsBalanced_example : IsBalanced (run events service)
run-IsBalanced_example = run-IsBalanced events service (refl, (omega arith, tt))

run-SameEnd_example : SameEnd ended_job ((run events service).jobs "a")
run-SameEnd_example = run-SameEnd ended_job "a" events service (refl, refl, refl, refl)
