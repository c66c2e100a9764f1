-- ===== src/HumanTasks/Lifecycle.antt =====
-- app/human_tasks.py: the state machine that `act_on_task` implements.
pub mod Records
pub mod Traces
use law_review_local.HumanTasks.{
  TextLibrary, Status, Task, TaskEvent, Action, EventAction, TaskStore, TaskAction, status_eq,
  is_open, guarded, unchanged, put_task, transition, perform, act_on_row, act_on_task, member_name,
  parse_due, closing_time, start, submit, return, complete, cancel, assign, due, todo, working,
  reviewing, completed, cancelled, created, acted, may_act, version_expected, audited, side_event,
  assign_to, due_text,
}
use law_review_local.Common.{
  String, ◌≡◌, ok, true, some, ℕ, ◌+◌, Option-cases, ◌++◌, arith, ◌∷◌, inl, is_some, not, inr, [],
  refl, ◌||◌, Bool-cases, List, Option, ◌∙◌, ◌>>=◌, >>=-eq-ok, join_text, none, require,
  require-eq-ok, ap, sym,
}
use law_review_local.Access.{Principal, require_case_access}

-- The transitions of the module's state machine, and the two actions that leave the status.
pub data Flow : Status → Action → Status → Type 0 where
  begin_work : Flow todo start working
  hand_in : Flow working submit reviewing
  send_back_review : Flow reviewing return todo
  send_back_work : Flow working return todo
  sign_off : Flow reviewing complete completed
  call_off : {s : Status} → is_open s ≡ true → Flow s cancel cancelled
  hand_over : {s : Status} → is_open s ≡ true → Flow s assign s
  set_date : {s : Status} → is_open s ≡ true → Flow s due s

pub status_eq_sound : (a b : Status) → status_eq a b ≡ true → a ≡ b
status_eq_sound a b h = ground arith

-- What a guarded update has found and done.
pub record Written (row : Task) (f : Task → Task) (e : TaskEvent) (s s' : TaskStore) : Type 0 where
  pub current : Task
  pub was : s.tasks row.id ≡ some current
  pub same_version : current.version ≡ row.version
  pub same_status : current.status ≡ row.status
  pub now : s'.tasks ≡ put_task row.id (f current) s.tasks
  pub log : s'.events ≡ s.events ++ e ∷ []
  pub next_id : s'.next_id ≡ s.next_id

guarded-Written :
    (row : Task) (f : Task → Task) (e : TaskEvent) (s s' : TaskStore)
    → guarded row f e s ≡ ok s'
    → Written row f e s s'
unfolding guarded
guarded-Written row f e s s' h = elim (Option-cases (s.tasks row.id)) [
  | inl q ↦ absurd (ground arith)
  | inr (t, q) ↦ record {
    current = t;
    was = q;
    same_version = ground arith;
    same_status = status_eq_sound t.status row.status (ground arith);
    now = ground arith;
    log = ground arith;
    next_id = ground arith;
  }
]

-- What an update and its event have to do with the action.
pub record Fits (row : Task) (a : Action) (f : Task → Task) (e : TaskEvent) : Type 0 where
  pub about : e.task_id ≡ row.id
  pub from : e.from_status ≡ some row.status
  pub to : (t : Task) → t.status ≡ row.status → (f t).status ≡ e.to_status
  pub flow : is_open row.status ≡ true → Flow row.status a e.to_status
  pub counted : (t : Task) → (f t).version ≡ t.version + 1
  pub identity : (t : Task) → ((f t).id ≡ t.id) × ((f t).case_id ≡ t.case_id)
  pub closed :
      (t : Task)
      → is_some t.closed_at ≡ not (is_open t.status)
      → is_some (f t).closed_at ≡ not (is_open (f t).status)

pub record Performed (row : Task) (a : Action) (s s' : TaskStore) : Type 0 where
  pub change : Task → Task
  pub event : TaskEvent
  pub fits : Fits row a change event
  pub written : Written row change event s s'

transition-Performed :
    (x : TextLibrary) (row : Task) (to : Status) (a : Action) (actor note : String) (ts : ℕ)
    (s s' : TaskStore)
    → Flow row.status a to
    → transition x row to a actor note ts s ≡ ok s'
    → Performed row a s s'
unfolding transition
transition-Performed x row to a actor note ts s s' fl h = record {
  change = λ t. record t {
    status = to;
    updated_at = ts;
    closed_at = closing_time to ts;
    version = t.version + 1;
  };
  event = record {
    task_id = row.id;
    from_status = some row.status;
    to_status = to;
    action = acted a;
    actor = actor;
    note = x.clip 500 note;
    created_at = ts;
  };
  fits = record {
    about = refl;
    from = refl;
    to = λ t e. refl;
    flow = λ o. fl;
    counted = λ t. refl;
    identity = λ t. (refl, refl);
    closed = λ t c. ground arith;
  };
  written = guarded-Written row _ _ s s' h;
}

module _ (x : TextLibrary) (p : Principal) (row : Task) (b : TaskAction) (ts : ℕ) (s s' : TaskStore)
    (open_row : is_open row.status ≡ true) where
  Performed-start : perform x p row b ts s start ≡ ok s' → Performed row start s s'
  unfolding perform
  Performed-start h =
      let st : row.status ≡ todo = status_eq_sound row.status todo (ground arith) in
      transition-Performed x row working start p.name "" ts s s' (rw st begin_work) (ground arith)

  Performed-submit : perform x p row b ts s submit ≡ ok s' → Performed row submit s s'
  unfolding perform
  Performed-submit h =
      let st : row.status ≡ working = status_eq_sound row.status working (ground arith) in
      transition-Performed x row reviewing submit p.name b.note ts s s' (rw st hand_in)
        (ground arith)

  send_back :
      status_eq row.status reviewing || status_eq row.status working ≡ true
      → Flow row.status return todo
  send_back h = elim (Bool-cases (status_eq row.status reviewing)) [
    | inl e ↦ rw (status_eq_sound row.status reviewing e) send_back_review
    | inr e ↦ rw (status_eq_sound row.status working (ground arith)) send_back_work
  ]

  Performed-return : perform x p row b ts s return ≡ ok s' → Performed row return s s'
  unfolding perform
  Performed-return h =
      transition-Performed x row todo return p.name (x.strip b.note) ts s s'
        (send_back (ground arith)) (ground arith)

  Performed-complete : perform x p row b ts s complete ≡ ok s' → Performed row complete s s'
  unfolding perform
  Performed-complete h =
      let st : row.status ≡ reviewing = status_eq_sound row.status reviewing (ground arith) in
      transition-Performed x row completed complete p.name b.note ts s s' (rw st sign_off)
        (ground arith)

  Performed-cancel : perform x p row b ts s cancel ≡ ok s' → Performed row cancel s s'
  unfolding perform
  Performed-cancel h =
      transition-Performed x row cancelled cancel p.name b.note ts s s' (call_off open_row) h

-- An update that keeps the status, the times of closing and the identity.
side-Performed :
    (row : Task) (a : Action) (f : Task → Task) (actor note : String) (ts : ℕ) (s s' : TaskStore)
    → Flow row.status a row.status
    → ((t : Task) → (f t).status ≡ t.status)
    → ((t : Task) → (f t).closed_at ≡ t.closed_at)
    → ((t : Task) → (f t).version ≡ t.version + 1)
    → ((t : Task) → ((f t).id ≡ t.id) × ((f t).case_id ≡ t.case_id))
    → guarded row f (side_event row a actor note ts) s ≡ ok s'
    → Performed row a s s'
side-Performed row a f actor note ts s s' fl st cl v i h = record {
  change = f;
  event = side_event row a actor note ts;
  fits = record {
    about = refl;
    from = refl;
    to = λ t e. st t ∙ e;
    flow = λ o. fl;
    counted = v;
    identity = i;
    closed = λ t c. rw (st t, cl t) c;
  };
  written = guarded-Written row _ _ s s' h;
}

assign_to-Performed :
    (row : Task) (o : Option ℕ) (actor : String) (ts : ℕ) (s s' : TaskStore)
    → is_open row.status ≡ true
    → assign_to s row o actor ts ≡ ok s'
    → Performed row assign s s'
assign_to-Performed row none actor ts s s' op h = cc
assign_to-Performed row (some m) actor ts s s' op h =
    let (name, e, r) = >>=-eq-ok (member_name s (some m) row.case_id) _ h in
    side-Performed row assign
      (λ t. record t {
        assignee_member_id = some m;
        assignee_name = name;
        updated_at = ts;
        version = t.version + 1;
      })
      actor (join_text "指派给 " name) ts s s' (hand_over op) (λ t. refl) (λ t. refl) (λ t. refl)
      (λ t. (refl, refl)) r

due-Performed :
    (x : TextLibrary) (row : Task) (o : Option String) (actor : String) (ts : ℕ) (s s' : TaskStore)
    → is_open row.status ≡ true
    → (parse_due x o >>= λ d.
        guarded row
          (λ t. record t { due_at = d; updated_at = ts; version = t.version + 1 })
          (side_event row due actor (due_text x d) ts)
          s)
      ≡ ok s'
    → Performed row due s s'
due-Performed x row o actor ts s s' op h =
    let (d, e, r) = >>=-eq-ok (parse_due x o) _ h in
    side-Performed row due (λ t. record t { due_at = d; updated_at = ts; version = t.version + 1 })
      actor (due_text x d) ts s s' (set_date op) (λ t. refl) (λ t. refl) (λ t. refl)
      (λ t. (refl, refl)) r

perform-Performed :
    (x : TextLibrary) (p : Principal) (row : Task) (b : TaskAction) (ts : ℕ) (s s' : TaskStore)
    (a : Action)
    → is_open row.status ≡ true
    → perform x p row b ts s a ≡ ok s'
    → Performed row a s s'
perform-Performed x p row b ts s s' start op h = Performed-start x p row b ts s s' op h
perform-Performed x p row b ts s s' submit op h = Performed-submit x p row b ts s s' op h
perform-Performed x p row b ts s s' return op h = Performed-return x p row b ts s s' op h
perform-Performed x p row b ts s s' complete op h = Performed-complete x p row b ts s s' op h
perform-Performed x p row b ts s s' cancel op h = Performed-cancel x p row b ts s s' op h
perform-Performed x p row b ts s s' assign op h =
    assign_to-Performed row b.assignee_member_id p.name ts s s' op (unfold perform in h)
perform-Performed x p row b ts s s' due op h =
    due-Performed x row b.due_at p.name ts s s' op (unfold perform in h)

audited-Performed :
    (row : Task) (a b : Action) (actor note : String) (s t : TaskStore)
    → Performed row a s t
    → Performed row a s (audited row b actor note t)
audited-Performed row a b actor note s t d = record {
  change = d.change;
  event = d.event;
  fits = d.fits;
  written = record {
    current = d.written.current;
    was = d.written.was;
    same_version = d.written.same_version;
    same_status = d.written.same_status;
    now = d.written.now;
    log = d.written.log;
    next_id = d.written.next_id;
  };
}

-- An accepted request: what it did, and what it was allowed by.
pub record Accepted (p : Principal) (hidden : List ℕ) (row : Task) (b : TaskAction)
    (s s' : TaskStore) : Type 0 where
  pub accessible : require_case_access p hidden row.case_id ≡ ok tt
  pub entitled : may_act p row b.action ≡ ok tt
  pub expected : version_expected b.expected_version row.version ≡ true
  pub live : is_open row.status ≡ true
  pub performed : Performed row b.action s s'

pub act_on_row-Accepted :
    (x : TextLibrary) (p : Principal) (hidden : List ℕ) (row : Task) (b : TaskAction) (ts : ℕ)
    (s s' : TaskStore)
    → act_on_row x p hidden row b ts s ≡ ok s'
    → Accepted p hidden row b s s'
unfolding act_on_row
act_on_row-Accepted x p hidden row b ts s s' h =
    let (u, access, h1) = >>=-eq-ok (require_case_access p hidden row.case_id) _ h in
    let (v, right, h2) = >>=-eq-ok (may_act p row b.action) _ h1 in
    let (w, version, h3) =
      >>=-eq-ok (require (version_expected b.expected_version row.version) 409 _) _ h2 in
    let (y, live, h4) = >>=-eq-ok (require (is_open row.status) 409 _) _ h3 in
    let (t, done, h5) = >>=-eq-ok (perform x p row b ts s b.action) _ h4 in
    let op = require-eq-ok (is_open row.status) 409 _ live in
    record {
      accessible = access;
      entitled = right;
      expected = require-eq-ok (version_expected b.expected_version row.version) 409 _ version;
      live = op;
      performed =
          let e : audited row b.action p.name b.note t ≡ s' = cc h5 in
          rw (← e) (
            audited-Performed row b.action b.action p.name b.note s t
              (perform-Performed x p row b ts s t b.action op done));
    }

-- A successful `act_on_row` finds its task as it was read, moves it along the state machine, adds
-- one to its version, keeps its id and case, leaves every other task, and appends one event with
-- the old and the new status.
pub act_on_row-Flow :
    (x : TextLibrary) (p : Principal) (hidden : List ℕ) (row : Task) (b : TaskAction) (ts : ℕ)
    (s s' : TaskStore)
    → act_on_row x p hidden row b ts s ≡ ok s'
    → (t t' : Task) × (e : TaskEvent) × (s.tasks row.id ≡ some t)
      × (t.version ≡ row.version)
      × (s'.tasks ≡ put_task row.id t' s.tasks)
      × Flow t.status b.action t'.status
      × (t'.version ≡ t.version + 1)
      × (t'.case_id ≡ t.case_id)
      × (s'.events ≡ s.events ++ e ∷ [])
      × (e.task_id ≡ row.id)
      × (e.from_status ≡ some t.status)
      × (e.to_status ≡ t'.status)
act_on_row-Flow x p hidden row b ts s s' h =
    let a = act_on_row-Accepted x p hidden row b ts s s' h in
    let d = a.performed in
    let w = d.written in
    let f = d.fits in
    let to : (d.change w.current).status ≡ d.event.to_status = f.to w.current w.same_status in
    (
      w.current,
      d.change w.current,
      d.event,
      w.was,
      w.same_version,
      w.now,
      rw (to, w.same_status) (f.flow a.live),
      f.counted w.current,
      (f.identity w.current).1,
      w.log,
      f.about,
      f.from ∙ ap some (sym w.same_status),
      sym to,
    )
