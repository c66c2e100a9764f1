-- ===== src/ReviewJobs/Admission.antt =====
-- app/review_jobs.py: what every sequence of events keeps of the permits and of the jobs.
use law_review_local.Common.{
  String, List, Http, ℕ, Bool-cases, length, find?, Option, All, ◌>>◌, ◌+◌, ◌++◌, Bool, require,
  ◌∷◌, inl, ◌≡◌, keep, ltb, ◌≤◌, true, arith, [], ok, inr, ◌==◌, some, if◌then◌else◌, refl,
  >>=-eq-ok, false, none, ==_self, raise, require-eq-ok, ap,
}
use law_review_local.ReviewJobs.{
  Service, step, start_review_executor, Future, submit_review, Event, Job, marked, is_future, run,
  claim, without, admission_limit, track_start, released, complete, enqueue, taken, fail,
  future_done, shutdown_review_executor, restart, submitted, fresh_id, new_job, claimed, tracked,
  succeeded_with, failed_with, ended, restarted, closing, starting,
}

abbrev pub in_flight : ℕ → List Future → ℕ
in_flight g fs = length (keep (λ f. f.semaphore == g) fs)

-- Every permit is either free or with a future, and no future has one of a later semaphore.
abbrev pub IsBalanced : Service → Type 0
IsBalanced s =
    (s.permits + in_flight s.semaphore s.futures ≡ admission_limit)
    × All (λ f. f.semaphore ≤ s.semaphore) s.futures

in_flight-append :
    (g : ℕ) (f : Future) (fs : List Future)
    → in_flight g (fs ++ f ∷ []) ≡ in_flight g fs + (if f.semaphore == g then 1 else 0)
in_flight-append g f [] = ground arith
in_flight-append g f (x ∷ fs) = ground (arith, in_flight-append g f fs)

in_flight-without :
    (g : ℕ) (i : String) (f : Future) (fs : List Future)
    → find? (is_future i) fs ≡ some f
    → in_flight g fs ≡ in_flight g (without i fs) + (if f.semaphore == g then 1 else 0)
in_flight-without g i f [] h = absurd (ground (arith, h))
in_flight-without g i f (x ∷ fs) h = elim (Bool-cases (is_future i x)) [
  | inl e ↦ let same : x ≡ f = ground (arith, e, h) in rw (← same) (rw e (ground arith))
  | inr e ↦
      let rest = in_flight-without g i f fs (ground (arith, e, h)) in rw e (ground (arith, rest))
]

in_flight_later :
    (g : ℕ) (fs : List Future) → All (λ f. f.semaphore ≤ g) fs → in_flight (g + 1) fs ≡ 0
in_flight_later g [] a = refl
in_flight_later g (f ∷ fs) (a, rest) = ground (arith, a, in_flight_later g fs rest)

All-append_one {ℓ} :
    {A : Type ℓ} (P : A → Type 0) (xs : List A) (x : A) → All P xs → P x → All P (xs ++ x ∷ [])
All-append_one P [] x a h = (h, tt)
All-append_one P (y ∷ ys) x (a, rest) h = (a, All-append_one P ys x rest h)

All-without :
    (P : Future → Type 0) (i : String) (fs : List Future) → All P fs → All P (without i fs)
All-without P i [] a = tt
All-without P i (f ∷ fs) (a, rest) = elim (Bool-cases (is_future i f)) [
  | inl e ↦ rw e rest
  | inr e ↦ rw e (a, All-without P i fs rest)
]

later_semaphore :
    (g : ℕ) (fs : List Future) → All (λ f. f.semaphore ≤ g) fs → All (λ f. f.semaphore ≤ g + 1) fs
later_semaphore g [] a = tt
later_semaphore g (f ∷ fs) (a, rest) = (omega (arith, a), later_semaphore g fs rest)

free_permit :
    (tests : Http (Unit {0})) (s : Service)
    → (tests
        >> (require s.executor 503 "后台阅卷服务正在关闭" >> require (ltb 0 s.permits) 429 "后台阅卷队列已满，请稍后重试"))
      ≡ ok tt
    → ltb 0 s.permits ≡ true
free_permit tests s h =
    let (a, first, rest) = >>=-eq-ok tests _ h in
    let (b, second, last) = >>=-eq-ok (require s.executor 503 "后台阅卷服务正在关闭") _ rest in
    require-eq-ok (ltb 0 s.permits) 429 _ last

taken-IsBalanced :
    (i : String) (x : Job) (s : Service)
    → ltb 0 s.permits ≡ true
    → IsBalanced s
    → IsBalanced (taken i x s)
taken-IsBalanced i x s free (sum, below) =
    let new : Future = record { job_id = i; semaphore = s.semaphore } in
    (
      ground (arith, free, sum, in_flight-append s.semaphore new s.futures, ==_self s.semaphore),
      All-append_one (λ f. f.semaphore ≤ s.semaphore) s.futures new below (omega arith),
    )

enqueue-IsBalanced :
    (i : String) (x : Job) (t : ℕ) (accepts : Bool) (s : Service) (m : Http (Unit {0}))
    → (m ≡ ok tt → ltb 0 s.permits ≡ true)
    → IsBalanced s
    → IsBalanced (enqueue i x t accepts s m).0
enqueue-IsBalanced i x t accepts s (raise n e) free b = b
enqueue-IsBalanced i x t true s (ok done) free b = taken-IsBalanced i x s (free refl) b
enqueue-IsBalanced i x t false s (ok done) free b = b

marked-futures :
    (i : String) (cancelled : Bool) (t : ℕ) (s : Service)
    → (marked i cancelled t s).futures ≡ s.futures
marked-futures i true t s = refl
marked-futures i false t s = refl

released-IsBalanced :
    (i : String) (s : Service) (o : Option Future)
    → find? (is_future i) s.futures ≡ o
    → IsBalanced s
    → IsBalanced (released i s o)
released-IsBalanced i s none h b = b
released-IsBalanced i s (some f) h (sum, below) =
    let one = in_flight-without s.semaphore i f s.futures h in
    (ground (arith, one, sum), All-without (λ z. z.semaphore ≤ s.semaphore) i s.futures below)

start_review_executor-IsBalanced :
    (s : Service) → IsBalanced s → IsBalanced (start_review_executor s)
unfolding start_review_executor
start_review_executor-IsBalanced s (sum, below) = elim (Bool-cases s.executor) [
  | inl e ↦ rw e (sum, below)
  | inr e ↦ rw e (
    omega (arith, in_flight_later s.semaphore s.futures below),
    later_semaphore s.semaphore s.futures below,
  )
]

marked-IsBalanced :
    (i : String) (cancelled : Bool) (t : ℕ) (s : Service)
    → IsBalanced s
    → IsBalanced (marked i cancelled t s)
marked-IsBalanced i true t s b = b
marked-IsBalanced i false t s b = b

step-IsBalanced : (e : Event) (s : Service) → IsBalanced s → IsBalanced (step e s)
unfolding step submit_review claim track_start complete fail future_done shutdown_review_executor
    restart
step-IsBalanced (submitted tests i c p t accepts) s b = elim (Bool-cases (fresh_id (s.jobs i))) [
  | inl e ↦ rw e (enqueue-IsBalanced i (new_job c p) t accepts s _ (free_permit tests s) b)
  | inr e ↦ rw e b
]
step-IsBalanced (claimed i) s b = b
step-IsBalanced (tracked i r) s b = b
step-IsBalanced (succeeded_with i result t) s b = b
step-IsBalanced (failed_with i error r t) s b = b
step-IsBalanced (ended i cancelled t) s b =
    released-IsBalanced i (marked i cancelled t s) (find? (is_future i) s.futures)
      (ap (find? (is_future i)) (marked-futures i cancelled t s))
      (marked-IsBalanced i cancelled t s b)
step-IsBalanced closing s b = b
step-IsBalanced starting s b = start_review_executor-IsBalanced s b
step-IsBalanced (restarted t) s b = (refl, tt)

-- Whatever happens, the permits stay balanced: the free permits of the present semaphore and the
-- futures that hold one of it are four together, so that none is lost and no more than four are held,
-- and no future holds a permit of a later semaphore.
pub run-IsBalanced : (es : List Event) (s : Service) → IsBalanced s → IsBalanced (run es s)
run-IsBalanced [] s b = b
run-IsBalanced (e ∷ es) s b = run-IsBalanced es (step e s) (step-IsBalanced e s b)
