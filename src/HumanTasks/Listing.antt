-- ===== src/HumanTasks/Listing.antt =====
-- app/human_tasks.py: the payload of a task, the list of a case and the list of the caller. The
-- rows of `review_tasks` and of `review_task_events` are given as lists in the order of their ids.
use law_review_local.HumanTasks.{
  Status, todo, working, reviewing, completed, cancelled, Task, TaskEvent, status_eq, is_open,
  is_manager, is_reviewer, can_work,
}
use law_review_local.Access.{Principal, require_case_access, allowed_case_ids, may_open}
use law_review_local.Common.{
  ℕ, Option, List, Bool, ◌∷◌, ◌&&◌, ltb, false, Http, any, true, keep, leb, none, ◌≡◌, count, map,
  if◌then◌else◌, some, ◌>>◌, succeeded, not, [], ◌==◌, ◌||◌, refl, arith, ok, any-keep, ◌∙◌,
}

pub record TaskView : Type 0 where
  pub task : Task
  pub overdue : Bool
  pub can_manage : Bool
  pub can_review : Bool
  pub can_work : Bool
  pub events : List TaskEvent

abbrev pub before_today : Option ℕ → ℕ → Bool
before_today none today = false
before_today (some d) today = ltb d today

-- `_task_payload`
pub task_payload : Principal → List TaskEvent → ℕ → Task → TaskView
task_payload p es today t = record {
  task = t;
  overdue = is_open t.status && before_today t.due_at today;
  can_manage = is_manager p t.case_id;
  can_review = is_reviewer p t.case_id;
  can_work = can_work p t.case_id t;
  events = keep (λ e. e.task_id == t.id) es;
}

abbrev is_mine : Option ℕ → Task → Bool
is_mine none t = false
is_mine (some m) t = elim t.assignee_member_id [ none ↦ false | some a ↦ a == m ]

-- The five counts of a list, by status.
pub record Counts : Type 0 where
  pub todo : ℕ
  pub working : ℕ
  pub reviewing : ℕ
  pub completed : ℕ
  pub cancelled : ℕ

pub counts : List Task → Counts
counts ts = record {
  todo = count (λ t. status_eq t.status Status.todo) ts;
  working = count (λ t. status_eq t.status Status.working) ts;
  reviewing = count (λ t. status_eq t.status Status.reviewing) ts;
  completed = count (λ t. status_eq t.status Status.completed) ts;
  cancelled = count (λ t. status_eq t.status Status.cancelled) ts;
}

-- The `ORDER BY` of a case's list: by status, tasks without a date last, by date, by id.
abbrev order_rank : Status → ℕ
order_rank todo = 1
order_rank working = 2
order_rank reviewing = 3
order_rank completed = 4
order_rank cancelled = 4

abbrev due_le : Option ℕ → Option ℕ → Bool → Bool
due_le none none rest = rest
due_le none (some d) rest = false
due_le (some d) none rest = true
due_le (some d) (some e) rest = ltb d e || ((d == e) && rest)

abbrev pub row_le : Task → Task → Bool
row_le a b =
    ltb (order_rank a.status) (order_rank b.status)
    || ((order_rank a.status == order_rank b.status) && due_le a.due_at b.due_at (leb a.id b.id))

abbrev pub insert_by : (Task → Task → Bool) → Task → List Task → List Task
insert_by le t [] = t ∷ []
insert_by le t (u ∷ us) = if le t u then t ∷ u ∷ us else u ∷ insert_by le t us

abbrev pub sort_by : (Task → Task → Bool) → List Task → List Task
sort_by le [] = []
sort_by le (t ∷ ts) = insert_by le t (sort_by le ts)

abbrev status_is : Option Status → Task → Bool
status_is none t = true
status_is (some s) t = status_eq t.status s

-- `list_case_tasks`; an unknown status is refused before, so `status` is one of the five or none.
-- A caller without a member id who asks for `mine` gets no rows, as the source's early return.
pub list_case_tasks :
    Principal
    → List ℕ
    → ℕ
    → Option Status
    → Bool
    → List Task
    → List TaskEvent
    → ℕ
    → Http (List TaskView × Counts)
list_case_tasks p hidden c status mine rows es today = do
  require_case_access p hidden c
  let found =
      keep (λ t. (t.case_id == c) && (status_is status t && (not mine || is_mine p.member_id t)))
        rows
  ok (map (task_payload p es today) (sort_by row_le found), counts found)

abbrev due_first : Task → Task → Bool
due_first a b = due_le a.due_at b.due_at (leb a.id b.id)

-- The rows of `my_tasks` before they are rendered.
pub my_rows : Principal → List ℕ → List Task → List Task
my_rows p hidden rows =
    keep (λ t. may_open (allowed_case_ids p) t.case_id && not (any (λ d. d == t.case_id) hidden))
      (sort_by due_first (keep (λ t. is_mine p.member_id t && is_open t.status) rows))

pub my_tasks : Principal → List ℕ → List Task → List TaskEvent → ℕ → List TaskView × Counts
my_tasks p hidden rows es today =
    (map (task_payload p es today) (my_rows p hidden rows), counts (my_rows p hidden rows))

any-insert_by :
    (q : Task → Bool) (le : Task → Task → Bool) (t : Task) (us : List Task)
    → any q (insert_by le t us) ≡ (q t || any q us)
any-insert_by q le t [] = refl
any-insert_by q le t (u ∷ us) = ground (arith, any-insert_by q le t us)

any-sort_by :
    (q : Task → Bool) (le : Task → Task → Bool) (ts : List Task) → any q (sort_by le ts) ≡ any q ts
any-sort_by q le [] = refl
any-sort_by q le (t ∷ ts) = rw (any-insert_by q le t (sort_by le ts), any-sort_by q le ts)

any-ext {ℓ} :
    {A : Type ℓ} (q r : A → Bool) (xs : List A) → ((x : A) → q x ≡ r x) → any q xs ≡ any r xs
any-ext q r [] h = refl
any-ext q r (x ∷ xs) h = rw (h x, any-ext q r xs h)

abbrev pub listed_for : Principal → List ℕ → Task → Bool
listed_for p hidden t =
    (is_mine p.member_id t && is_open t.status)
    && succeeded (require_case_access p hidden t.case_id)

same_row :
    (p : Principal) (hidden : List ℕ) (i : ℕ) (t : Task)
    → ((is_mine p.member_id t && is_open t.status)
        && ((may_open (allowed_case_ids p) t.case_id && not (any (λ d. d == t.case_id) hidden))
            && (t.id == i)))
      ≡ ((t.id == i) && listed_for p hidden t)
unfolding require_case_access
same_row p hidden i t = ground arith

-- `my_tasks` lists a task exactly when it is open, assigned to the caller's member, and on a case
-- that `require_case_access` would let the caller open at that moment: a walled or unassigned case
-- never shows through the caller's list of tasks.
pub my_rows-exact :
    (p : Principal) (hidden : List ℕ) (rows : List Task) (i : ℕ)
    → any (λ t. t.id == i) (my_rows p hidden rows)
      ≡ any (λ t. (t.id == i) && listed_for p hidden t) rows
unfolding my_rows
my_rows-exact p hidden rows i =
    let mine : Task → Bool = λ t. is_mine p.member_id t && is_open t.status in
    let shown : Task → Bool =
      λ t. may_open (allowed_case_ids p) t.case_id && not (any (λ d. d == t.case_id) hidden) in
    any-keep (λ t. t.id == i) shown (sort_by due_first (keep mine rows))
    ∙ (any-sort_by (λ t. shown t && (t.id == i)) due_first (keep mine rows)
        ∙ (any-keep (λ t. shown t && (t.id == i)) mine rows
            ∙ any-ext _ _ rows (same_row p hidden i)))
