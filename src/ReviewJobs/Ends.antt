-- ===== src/ReviewJobs/Ends.antt =====
-- app/review_jobs.py: a job that has ended, after any sequence of events.
-- The same end: an ended status, with the result and the time of another row.
use law_review_local.ReviewJobs.{
  step, start_review_executor, JobStatus, Job, Service, submit_review, has_ended, changed_job,
  marked, fresh_id, Future, update_job, claim, stopped, track_start, Event, is_queued, released,
  complete, enqueue, interrupt, set_job, run, is_running, fail, when_status, future_done,
  submit_refused, shutdown_review_executor, restart, submitted, new_job, claimed, tracked,
  succeeded_with, failed_with, ended, is_future, restarted, closing, starting,
}
use law_review_local.Common.{
  String, Option, Bool, ℕ, some, List, Http, ◌≡◌, true, Bool-cases, none, false, inl, str_eq, raise,
  arith, inr, ◌∷◌, refl, ok, str_eq_iff, [], find?,
}

abbrev pub SameEnd : Job → Option Job → Type 0
SameEnd x none = ⊥
SameEnd x (some y) =
    (has_ended y.status ≡ true)
    × (y.status ≡ x.status)
    × (y.result ≡ x.result)
    × (y.finished_at ≡ x.finished_at)

-- An update that leaves the end of an ended job as it is.
abbrev Harmless : (Job → Job) → Type 0
Harmless f = (x y : Job) → SameEnd x (some y) → SameEnd x (some (f y))

when_status-Harmless :
    (p : JobStatus → Bool) (f : Job → Job)
    → ((z : JobStatus) → has_ended z ≡ true → p z ≡ false)
    → Harmless (when_status p f)
when_status-Harmless p f away x y h = rw (away y.status h.0) h

queued_away : (z : JobStatus) → has_ended z ≡ true → is_queued z ≡ false
queued_away z h = ground (arith, h)

running_away : (z : JobStatus) → has_ended z ≡ true → is_running z ≡ false
running_away z h = ground (arith, h)

changed_job-SameEnd :
    (x : Job) (f : Job → Job) (o : Option Job)
    → Harmless f
    → SameEnd x o
    → SameEnd x (changed_job f o)
changed_job-SameEnd x f none keeps h = h
changed_job-SameEnd x f (some y) keeps h = keeps x y h

update_job-SameEnd :
    (x : Job) (i j : String) (f : Job → Job) (s : Service)
    → Harmless f
    → SameEnd x (s.jobs j)
    → SameEnd x ((update_job i f s).jobs j)
update_job-SameEnd x i j f s keeps h = elim (Bool-cases (str_eq j i)) [
  | inl e ↦ rw e (changed_job-SameEnd x f (s.jobs j) keeps h)
  | inr e ↦ rw e h
]

stopped-SameEnd : (x : Job) (t : ℕ) (o : Option Job) → SameEnd x o → SameEnd x (stopped t o)
stopped-SameEnd x t none h = h
stopped-SameEnd x t (some y) h = rw h.0 h

set_job-SameEnd :
    (x n : Job) (i j : String) (s : Service)
    → fresh_id (s.jobs i) ≡ true
    → SameEnd x (s.jobs j)
    → SameEnd x (set_job i n s.jobs j)
set_job-SameEnd x n i j s free h = elim (Bool-cases (str_eq j i)) [
  | inr e ↦ rw e h
  | inl e ↦ absurd (no_job (s.jobs j) (rw ((str_eq_iff j i).0 e) free) h)
]
  where
    no_job : (o : Option Job) → fresh_id o ≡ true → SameEnd x o → ⊥
    no_job none k e = e
    no_job (some y) k e = ground (arith, k)

enqueue-SameEnd :
    (x n : Job) (j i : String) (t : ℕ) (accepts : Bool) (s : Service) (m : Http (Unit {0}))
    → fresh_id (s.jobs i) ≡ true
    → SameEnd x (s.jobs j)
    → SameEnd x ((enqueue i n t accepts s m).0.jobs j)
enqueue-SameEnd x n j i t accepts s (raise k e) free h = h
enqueue-SameEnd x n j i t true s (ok done) free h = set_job-SameEnd x n i j s free h
enqueue-SameEnd x n j i t false s (ok done) free h =
    set_job-SameEnd x (submit_refused t n) i j s free h

marked-SameEnd :
    (x : Job) (j i : String) (cancelled : Bool) (t : ℕ) (s : Service)
    → SameEnd x (s.jobs j)
    → SameEnd x ((marked i cancelled t s).jobs j)
marked-SameEnd x j i true t s h =
    update_job-SameEnd x i j _ s (when_status-Harmless is_queued (interrupt t) queued_away) h
marked-SameEnd x j i false t s h = h

released-SameEnd :
    (x : Job) (j i : String) (s : Service) (o : Option Future)
    → SameEnd x (s.jobs j)
    → SameEnd x ((released i s o).jobs j)
released-SameEnd x j i s none h = h
released-SameEnd x j i s (some f) h = h

start_review_executor-jobs : (s : Service) → (start_review_executor s).jobs ≡ s.jobs
unfolding start_review_executor
start_review_executor-jobs s = elim (Bool-cases s.executor) [
  | inl e ↦ rw e refl
  | inr e ↦ rw e refl
]

step-SameEnd :
    (x : Job) (j : String) (e : Event) (s : Service)
    → SameEnd x (s.jobs j)
    → SameEnd x ((step e s).jobs j)
unfolding step submit_review claim track_start complete fail future_done shutdown_review_executor
    restart
step-SameEnd x j (submitted tests i c p t accepts) s h = elim (Bool-cases (fresh_id (s.jobs i))) [
  | inl e ↦ rw e (enqueue-SameEnd x (new_job c p) j i t accepts s _ e h)
  | inr e ↦ rw e h
]
step-SameEnd x j (claimed i) s h =
    update_job-SameEnd x i j _ s (when_status-Harmless is_queued _ queued_away) h
step-SameEnd x j (tracked i r) s h = update_job-SameEnd x i j _ s (λ z y k. k) h
step-SameEnd x j (succeeded_with i result t) s h =
    update_job-SameEnd x i j _ s (when_status-Harmless is_running _ running_away) h
step-SameEnd x j (failed_with i error r t) s h =
    update_job-SameEnd x i j _ s (when_status-Harmless is_running _ running_away) h
step-SameEnd x j (ended i cancelled t) s h =
    released-SameEnd x j i (marked i cancelled t s) (find? (is_future i) s.futures)
      (marked-SameEnd x j i cancelled t s h)
step-SameEnd x j closing s h = h
step-SameEnd x j starting s h = rw (start_review_executor-jobs s) h
step-SameEnd x j (restarted t) s h = stopped-SameEnd x t (s.jobs j) h

-- A job that has ended stays so, with the same status, result and time, whatever events follow: late
-- callbacks, a second end of its run and restarts included.
pub run-SameEnd :
    (x : Job) (j : String) (es : List Event) (s : Service)
    → SameEnd x (s.jobs j)
    → SameEnd x ((run es s).jobs j)
run-SameEnd x j [] s h = h
run-SameEnd x j (e ∷ es) s h = run-SameEnd x j es (step e s) (step-SameEnd x j e s h)
