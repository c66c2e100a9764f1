-- ===== src/ReviewJobs.antt =====
-- app/review_jobs.py: the background review jobs, the rows of `review_jobs` with the executor and its
-- semaphore, as events of one process. What a run of the agents gives is part of an event. A future
-- keeps the semaphore that admitted it, which its number stands for; the id of a job is a fresh `uuid4`.
pub mod Admission
pub mod Ends
mod Examples
use law_review_local.Common.{
  false, if◌then◌else◌, ℕ, String, Bool, List, Option, Http, str_eq, [], some, not, none, find?,
  true, ◌>>◌, ◌∷◌, raise, ok, ◌+◌, require, ◌==◌, ◌&&◌, ltb, ◌++◌, ◌-◌, any,
}
use law_review_local.Access.{require_case_access, Principal}

pub data JobStatus : Type 0 where
  queued running completed failed interrupted : JobStatus

pub record Job : Type 0 where
  pub case_id : ℕ
  pub principal : String
  pub status : JobStatus
  pub run_id : Option ℕ
  pub result : String
  pub error : String
  pub finished_at : Option ℕ

abbrev pub is_queued : JobStatus → Bool
is_queued queued = true
is_queued _ = false

abbrev pub is_running : JobStatus → Bool
is_running running = true
is_running _ = false

abbrev pub has_ended : JobStatus → Bool
has_ended s = not (is_queued s) && not (is_running s)

-- A future of the executor: its job and the semaphore that it has a permit of.
pub record Future : Type 0 where
  pub job_id : String
  pub semaphore : ℕ

-- `semaphore` is the number of the present one, and `permits` what is left of it.
pub record Service : Type 0 where
  pub jobs : String → Option Job
  pub futures : List Future
  pub executor : Bool
  pub semaphore : ℕ
  pub permits : ℕ

abbrev pub admission_limit : ℕ
admission_limit = 4

abbrev pub set_job : String → Job → (String → Option Job) → String → Option Job
set_job i x jobs j = if str_eq j i then some x else jobs j

abbrev pub changed_job : (Job → Job) → Option Job → Option Job
changed_job f none = none
changed_job f (some x) = some (f x)

-- `UPDATE review_jobs SET … WHERE id=?`
abbrev pub update_job : String → (Job → Job) → Service → Service
update_job i f s = record s {
  jobs = λ j. if str_eq j i then changed_job f (s.jobs j) else s.jobs j;
}

-- The same with `AND status=…`.
abbrev pub when_status : (JobStatus → Bool) → (Job → Job) → Job → Job
when_status p f x = if p x.status then f x else x

abbrev pub new_job : ℕ → String → Job
new_job c p = record {
  case_id = c;
  principal = p;
  status = queued;
  run_id = none;
  result = "{}";
  error = "{}";
  finished_at = none;
}

abbrev pub submit_refused : ℕ → Job → Job
submit_refused t x = record x { status = failed; error = "后台任务提交失败"; finished_at = some t }

abbrev pub fresh_id : Option Job → Bool
fresh_id none = true
fresh_id (some x) = false

-- The tests before the permit: `conversation` is what `validate_conversation` gives, or a success
-- without a conversation.
unfoldable pub submission_tests :
    Principal → List ℕ → List ℕ → ℕ → Http (Unit {0}) → Http (Unit {0})
unfolding require_case_access
submission_tests p hidden cases c conversation = do
  require_case_access p hidden c
  require (any (λ d. d == c) cases) 404 "案件不存在"
  conversation

abbrev pub taken : String → Job → Service → Service
taken i x s = record s {
  jobs = set_job i x s.jobs;
  futures = s.futures ++ record { job_id = i; semaphore = s.semaphore } ∷ [];
  permits = s.permits - 1;
}

-- The insertion and the submission; the permit is given back if the executor does not take the job.
abbrev pub enqueue : String → Job → ℕ → Bool → Service → Http (Unit {0}) → Service × Http String
enqueue i x t accepts s (raise n e) = (s, raise n e)
enqueue i x t true s (ok done) = (taken i x s, ok i)
enqueue i x t false s (ok done) =
    (record s { jobs = set_job i (submit_refused t x) s.jobs }, raise 503 "后台阅卷任务提交失败，请稍后重试")

-- `submit_review`, given the result of `submission_tests`; `accepts` says whether the executor takes
-- the job.
unfoldable pub submit_review :
    Http (Unit {0}) → String → ℕ → String → ℕ → Bool → Service → Service × Http String
submit_review tests i c p t accepts s =
    enqueue i (new_job c p) t accepts s (do
      tests
      require s.executor 503 "后台阅卷服务正在关闭"
      require (ltb 0 s.permits) 429 "后台阅卷队列已满，请稍后重试")

-- The claim at the start of `_execute`.
unfoldable pub claim : String → Service → Service
claim i s = update_job i (when_status is_queued (λ x. record x { status = running })) s

-- `track_start`
unfoldable pub track_start : String → ℕ → Service → Service
track_start i r s = update_job i (λ x. record x { run_id = some r }) s

-- The two ends of `_execute`.
unfoldable pub complete : String → String → ℕ → Service → Service
complete i result t s =
    update_job i
      (when_status is_running
        (λ x. record x { status = completed; result = result; finished_at = some t }))
      s

abbrev pub or_run : Option ℕ → Option ℕ → Option ℕ
or_run none r = r
or_run (some q) r = some q

unfoldable pub fail : String → String → Option ℕ → ℕ → Service → Service
fail i error r t s =
    update_job i
      (when_status is_running (λ x. record x {
        status = failed;
        error = error;
        run_id = or_run x.run_id r;
        finished_at = some t;
      }))
      s

abbrev pub is_future : String → Future → Bool
is_future i f = str_eq f.job_id i

abbrev pub without : String → List Future → List Future
without i [] = []
without i (f ∷ fs) = let rest = without i fs in if is_future i f then fs else f ∷ rest

abbrev pub interrupt : ℕ → Job → Job
interrupt t x = record x { status = interrupted; error = "服务关闭，排队任务未执行"; finished_at = some t }

abbrev pub marked : String → Bool → ℕ → Service → Service
marked i cancelled t s =
    if cancelled then update_job i (when_status is_queued (interrupt t)) s else s

abbrev pub released : String → Service → Option Future → Service
released i s none = s
released i s (some f) = record s {
  futures = without i s.futures;
  permits = if f.semaphore == s.semaphore then s.permits + 1 else s.permits;
}

-- `finished`, the callback of a future: a cancelled one marks its job, and the permit goes back to the
-- semaphore that it is from.
unfoldable pub future_done : String → Bool → ℕ → Service → Service
future_done i cancelled t s = released i (marked i cancelled t s) (find? (is_future i) s.futures)

unfoldable pub shutdown_review_executor : Service → Service
shutdown_review_executor s = record s { executor = false }

unfoldable pub start_review_executor : Service → Service
start_review_executor s =
    if s.executor
    then s
    else record s { executor = true; semaphore = s.semaphore + 1; permits = admission_limit }

abbrev pub stopped : ℕ → Option Job → Option Job
stopped t none = none
stopped t (some x) = some (
    when_status (λ z. not (has_ended z))
      (λ y. record y { status = interrupted; error = "{}"; finished_at = some t }) x)

-- A new process: `init_db` of app/db.py marks the jobs that the old one has left.
unfoldable pub restart : ℕ → Service → Service
restart t s = record {
  jobs = λ i. stopped t (s.jobs i);
  futures = [];
  executor = true;
  semaphore = 0;
  permits = admission_limit;
}

pub data Event : Type 0 where
  submitted : Http (Unit {0}) → String → ℕ → String → ℕ → Bool → Event
  claimed : String → Event
  tracked : String → ℕ → Event
  succeeded_with : String → String → ℕ → Event
  failed_with : String → String → Option ℕ → ℕ → Event
  ended : String → Bool → ℕ → Event
  closing starting : Event
  restarted : ℕ → Event

unfoldable pub step : Event → Service → Service
unfolding submit_review claim track_start complete fail future_done shutdown_review_executor
    start_review_executor restart
step (submitted tests i c p t accepts) s =
    if fresh_id (s.jobs i) then (submit_review tests i c p t accepts s).0 else s
step (claimed i) s = claim i s
step (tracked i r) s = track_start i r s
step (succeeded_with i result t) s = complete i result t s
step (failed_with i error r t) s = fail i error r t s
step (ended i cancelled t) s = future_done i cancelled t s
step closing s = shutdown_review_executor s
step starting s = start_review_executor s
step (restarted t) s = restart t s

abbrev pub run : List Event → Service → Service
run [] s = s
run (e ∷ es) s = run es (step e s)
