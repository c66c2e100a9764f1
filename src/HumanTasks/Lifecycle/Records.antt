-- ===== src/HumanTasks/Lifecycle/Records.antt =====
-- app/human_tasks.py: what holds of the task table and its events between two requests.
use law_review_local.HumanTasks.Lifecycle.{Performed, Written, act_on_row-Accepted}
use law_review_local.HumanTasks.{
  TaskStore, Task, TaskEvent, put_task, Action, is_open, act_on_task, TaskCreate, create_task,
  load_task, TextLibrary, todo, TaskAction, is_manager, task_kinds, parse_due, member_name,
  evidence_in, new_task, new_event,
}
use law_review_local.Common.{
  ℕ, inl, Option, ◌≡◌, List, inr, count, ◌++◌, some, if◌then◌else◌, arith, ◌⊎◌, ◌<◌, ◌==◌, ◌∷◌, ◌≢◌,
  is_some, [], suc, not, Bool-cases, count-append, ==_iff, ◌≤◌, ok, none, >>=-eq-ok, ◌+◌, require,
  any, str_eq, refl,
}
use law_review_local.Access.{Principal}

abbrev pub events_of : ℕ → List TaskEvent → ℕ
events_of i es = count (λ e. e.task_id == i) es

-- Rows stand under their ids, the version counts the events of the task, and the time of closing
-- is set exactly on finished tasks.
pub record IsSound (s : TaskStore) : Type 0 where
  pub keyed : (i : ℕ) (t : Task) → s.tasks i ≡ some t → t.id ≡ i
  pub known : (i : ℕ) (t : Task) → s.tasks i ≡ some t → i < s.next_id
  pub counted : (i : ℕ) (t : Task) → s.tasks i ≡ some t → t.version ≡ events_of i s.events
  pub closed :
      (i : ℕ) (t : Task) → s.tasks i ≡ some t → is_some t.closed_at ≡ not (is_open t.status)
  pub silent : (i : ℕ) → s.next_id ≤ i → events_of i s.events ≡ 0

events_of-snoc :
    (i : ℕ) (es : List TaskEvent) (e : TaskEvent)
    → events_of i (es ++ e ∷ []) ≡ (if e.task_id == i then suc (events_of i es) else events_of i es)
events_of-snoc i es e = rw count-append (ground arith)

-- A row of a table after a write is the written one, or the one that was there.
put_task-cases :
    (i j : ℕ) (u t : Task) (tasks : ℕ → Option Task)
    → put_task i u tasks j ≡ some t
    → ((i ≡ j) × (u ≡ t)) ⊎ ((i ≢ j) × (tasks j ≡ some t))
put_task-cases i j u t tasks h = elim (Bool-cases (i == j)) [
  | inl e ↦ inl ((==_iff i j).0 e, ground arith)
  | inr e ↦ inr ((λ q. ground arith), ground arith)
]

module _ (row : Task) (a : Action) (s s' : TaskStore) (ok_s : IsSound s)
    (d : Performed row a s s') where
  abbrev w : Written row d.change d.event s s'
  w = d.written

  abbrev next : Task
  next = d.change w.current

  row_of :
      (j : ℕ) (t : Task)
      → s'.tasks j ≡ some t
      → ((row.id ≡ j) × (next ≡ t)) ⊎ ((row.id ≢ j) × (s.tasks j ≡ some t))
  row_of j t h = put_task-cases row.id j next t s.tasks (rw w.now at h)

  log_of :
      (j : ℕ)
      → events_of j s'.events
        ≡ (if row.id == j then suc (events_of j s.events) else events_of j s.events)
  log_of j = rw w.log (rw (events_of-snoc j s.events d.event, d.fits.about))

  pub Performed-IsSound : IsSound s'
  Performed-IsSound = record {
    keyed = λ j t h. elim (row_of j t h) [
      | inl (e, n) ↦ rw (← n, (d.fits.identity w.current).0, ok_s.keyed row.id w.current w.was) e
      | inr (e, o) ↦ ok_s.keyed j t o
    ];
    known = λ j t h. elim (row_of j t h) [
      | inl (e, n) ↦ rw (w.next_id, ← e) (ok_s.known row.id w.current w.was)
      | inr (e, o) ↦ rw w.next_id (ok_s.known j t o)
    ];
    counted = λ j t h. elim (row_of j t h) [
      | inl (e, n) ↦
          rw (← n, log_of j, ← e)
            (ground (arith, d.fits.counted w.current, ok_s.counted row.id w.current w.was))
      | inr (e, o) ↦ rw (log_of j) (ground (arith, ok_s.counted j t o))
    ];
    closed = λ j t h. elim (row_of j t h) [
      | inl (e, n) ↦ rw (← n) (d.fits.closed w.current (ok_s.closed row.id w.current w.was))
      | inr (e, o) ↦ ok_s.closed j t o
    ];
    silent = λ j h. rw (log_of j) (
        ground
          (arith, ok_s.known row.id w.current w.was, ok_s.silent j (rw w.next_id at h), w.next_id));
  }

pub load_task-eq-ok :
    (s : TaskStore) (i : ℕ) {row : Task} → load_task s i ≡ ok row → s.tasks i ≡ some row
load_task-eq-ok s i h = ground arith

-- Every action that succeeds keeps the table and its events sound.
pub act_on_task-IsSound :
    (x : TextLibrary) (p : Principal) (hidden : List ℕ) (i : ℕ) (b : TaskAction) (ts : ℕ)
    (s s' : TaskStore)
    → IsSound s
    → act_on_task x p hidden i b ts s ≡ ok s'
    → IsSound s'
unfolding act_on_task
act_on_task-IsSound x p hidden i b ts s s' ok_s h =
    let (row, e, r) = >>=-eq-ok (load_task s i) _ h in
    Performed-IsSound row b.action s s' ok_s
      (act_on_row-Accepted x p hidden row b ts s s' r).performed

-- What a successful creation has done.
pub record Created (c : ℕ) (b : TaskCreate) (s s' : TaskStore) : Type 0 where
  pub task : Task
  pub event : TaskEvent
  pub id : task.id ≡ s.next_id
  pub case_id : task.case_id ≡ c
  pub todo_first : task.status ≡ todo
  pub first_version : task.version ≡ 1
  pub unclosed : task.closed_at ≡ none
  pub about : event.task_id ≡ s.next_id
  pub now : s'.tasks ≡ put_task s.next_id task s.tasks
  pub log : s'.events ≡ s.events ++ event ∷ []
  pub next_id : s'.next_id ≡ s.next_id + 1

pub create_task-Created :
    (x : TextLibrary) (p : Principal) (c : ℕ) (b : TaskCreate) (ts : ℕ) (s s' : TaskStore)
    → create_task x p c b ts s ≡ ok s'
    → Created c b s s'
unfolding create_task
create_task-Created x p c b ts s s' h =
    let (u0, e0, h0) = >>=-eq-ok (require (is_manager p c) 403 _) _ h in
    let (u1, e1, h1) = >>=-eq-ok (require (any (str_eq b.kind) task_kinds) 400 _) _ h0 in
    let (d, e2, h2) = >>=-eq-ok (parse_due x b.due_at) _ h1 in
    let (u3, e3, h3) = >>=-eq-ok (require (any (λ e. e == c) s.cases) 404 _) _ h2 in
    let (name, e4, h4) = >>=-eq-ok (member_name s b.assignee_member_id c) _ h3 in
    let (u5, e5, h5) = >>=-eq-ok (require (evidence_in s c b.evidence_id) 404 _) _ h4 in
    record {
      task = new_task b s.next_id c name d p.name ts;
      event = new_event s.next_id name p.name ts;
      id = refl;
      case_id = refl;
      todo_first = refl;
      first_version = refl;
      unclosed = refl;
      about = refl;
      now = ground (arith, h5);
      log = ground (arith, h5);
      next_id = ground (arith, h5);
    }

Created-IsSound :
    (c : ℕ) (b : TaskCreate) (s s' : TaskStore) → IsSound s → Created c b s s' → IsSound s'
Created-IsSound c b s s' ok_s d = record {
  keyed = λ j t h. elim (row_of j t h) [
    | inl (e, n) ↦ rw (← n, d.id) e
    | inr (e, o) ↦ ok_s.keyed j t o
  ];
  known = λ j t h. elim (row_of j t h) [
    | inl (e, n) ↦ omega (arith, d.next_id)
    | inr (e, o) ↦ omega (arith, d.next_id, ok_s.known j t o)
  ];
  counted = λ j t h. elim (row_of j t h) [
    | inl (e, n) ↦
        rw (← n, log_of j, ← e)
          (ground (arith, d.first_version, ok_s.silent s.next_id (omega arith)))
    | inr (e, o) ↦ rw (log_of j) (ground (arith, ok_s.counted j t o))
  ];
  closed = λ j t h. elim (row_of j t h) [
    | inl (e, n) ↦ rw (← n, d.unclosed, d.todo_first)
    | inr (e, o) ↦ ok_s.closed j t o
  ];
  silent =
      λ j h. rw (log_of j) (ground (arith, ok_s.silent j (omega (arith, d.next_id)), d.next_id));
}
  where
    row_of :
        (j : ℕ) (t : Task)
        → s'.tasks j ≡ some t
        → ((s.next_id ≡ j) × (d.task ≡ t)) ⊎ ((s.next_id ≢ j) × (s.tasks j ≡ some t))
    row_of j t h = put_task-cases s.next_id j d.task t s.tasks (rw d.now at h)

    log_of :
        (j : ℕ)
        → events_of j s'.events
          ≡ (if s.next_id == j then suc (events_of j s.events) else events_of j s.events)
    log_of j = rw d.log (rw (events_of-snoc j s.events d.event, d.about))

-- So does every creation that succeeds.
pub create_task-IsSound :
    (x : TextLibrary) (p : Principal) (c : ℕ) (b : TaskCreate) (ts : ℕ) (s s' : TaskStore)
    → IsSound s
    → create_task x p c b ts s ≡ ok s'
    → IsSound s'
create_task-IsSound x p c b ts s s' ok_s h =
    Created-IsSound c b s s' ok_s (create_task-Created x p c b ts s s' h)

pub put_task_self : (i : ℕ) (t : Task) (tasks : ℕ → Option Task) → put_task i t tasks i ≡ some t
put_task_self i t tasks = ground arith
