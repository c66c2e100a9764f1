-- ===== src/HumanTasks/Rights.antt =====
-- app/human_tasks.py: the rights on a task.
use law_review_local.HumanTasks.{
  TextLibrary, Action, start, submit, return, complete, cancel, assign, due, Task, TaskAction,
  TaskStore, is_manager, is_reviewer, is_assignee, can_work, may_act, act_on_row, guarded,
  TaskEvent, status_eq, todo, unassigned, working, reviewing, member_name, parse_due, perform,
  transition, version_expected, Status, completed, cancelled, is_open, assign_to,
}
use law_review_local.Access.{
  Principal, has_for_case, edit, approve, manager_roles, review_roles, require_case_access,
}
use law_review_local.Access.Narrowing.{Entitled, has_case_role_iff}
use law_review_local.HumanTasks.Lifecycle.{act_on_row-Accepted}
use law_review_local.Common.{
  some, ◌≡◌, List, Bool, ℕ, true, false, ◌⊎◌, ok, succeeded, arith, Bool-cases, require-eq-ok, ◌&&◌,
  inl, not, inr, str_eq, ◌||◌, is_some, Option, String, succeeded-ok, ◌>>=◌, none,
}

-- What an action needs of somebody who is no administrator.
pub data Warrant (p : Principal) (row : Task) : Action → Type 0 where
  to_assign : Entitled p edit (some row.case_id) manager_roles → Warrant p row assign
  to_date : Entitled p edit (some row.case_id) manager_roles → Warrant p row due
  to_cancel : Entitled p edit (some row.case_id) manager_roles → Warrant p row cancel
  to_return : Entitled p approve (some row.case_id) review_roles → Warrant p row return
  to_complete : Entitled p approve (some row.case_id) review_roles → Warrant p row complete
  to_start :
      has_for_case p edit (some row.case_id) ≡ true
      → ((is_assignee p row ≡ true) ⊎ Entitled p edit (some row.case_id) manager_roles)
      → Warrant p row start
  to_submit :
      has_for_case p edit (some row.case_id) ≡ true
      → ((is_assignee p row ≡ true) ⊎ Entitled p edit (some row.case_id) manager_roles)
      → Warrant p row submit

module _ (p : Principal) (row : Task) (member : p.admin ≡ false) where
  managing : is_manager p row.case_id ≡ true → Entitled p edit (some row.case_id) manager_roles
  unfolding is_manager
  managing h = (has_case_role_iff p edit (some row.case_id) manager_roles member).0 h

  reviewing_right :
      is_reviewer p row.case_id ≡ true → Entitled p approve (some row.case_id) review_roles
  unfolding is_reviewer
  reviewing_right h = (has_case_role_iff p approve (some row.case_id) review_roles member).0 h

  works_as :
      can_work p row.case_id row ≡ true
      → (is_assignee p row ≡ true) ⊎ Entitled p edit (some row.case_id) manager_roles
  works_as h = elim (Bool-cases (is_assignee p row)) [
    | inl e ↦ inl e
    | inr e ↦ inr (managing (unfold can_work in ground arith))
  ]

  may_edit : can_work p row.case_id row ≡ true → has_for_case p edit (some row.case_id) ≡ true
  may_edit h = unfold can_work in ground arith

  may_act-Warrant : (a : Action) → may_act p row a ≡ ok tt → Warrant p row a
  unfolding may_act
  may_act-Warrant assign h = to_assign (managing (require-eq-ok _ 403 _ h))
  may_act-Warrant due h = to_date (managing (require-eq-ok _ 403 _ h))
  may_act-Warrant cancel h = to_cancel (managing (require-eq-ok _ 403 _ h))
  may_act-Warrant return h = to_return (reviewing_right (require-eq-ok _ 403 _ h))
  may_act-Warrant complete h = to_complete (reviewing_right (require-eq-ok _ 403 _ h))
  may_act-Warrant start h =
      let w = require-eq-ok (can_work p row.case_id row) 403 _ h in
      to_start (may_edit w) (works_as w)
  may_act-Warrant submit h =
      let w = require-eq-ok (can_work p row.case_id row) 403 _ h in
      to_submit (may_edit w) (works_as w)

-- An action that somebody without the administrator's flag has carried out was warranted:
-- assigning, dating and cancelling by an owner of the case with the edit permission, returning and
-- completing by an owner or reviewer with the approve permission, starting and submitting by
-- someone who may edit on the case and is the assignee or an owner.
pub act_on_row-Warrant :
    (x : TextLibrary) (p : Principal) (hidden : List ℕ) (row : Task) (b : TaskAction) (ts : ℕ)
    (s s' : TaskStore)
    → p.admin ≡ false
    → act_on_row x p hidden row b ts s ≡ ok s'
    → Warrant p row b.action
act_on_row-Warrant x p hidden row b ts s s' n h =
    may_act-Warrant p row n b.action (act_on_row-Accepted x p hidden row b ts s s' h).entitled

-- What an action needs of the task and of the request's body.
abbrev pub payload_ok : TextLibrary → TaskStore → Task → TaskAction → Action → Bool
payload_ok x s row b start = status_eq row.status todo && not (unassigned row)
payload_ok x s row b submit = status_eq row.status working
payload_ok x s row b return =
    not (str_eq (x.strip b.note) "")
    && (status_eq row.status reviewing || status_eq row.status working)
payload_ok x s row b complete = status_eq row.status reviewing
payload_ok x s row b cancel = true
payload_ok x s row b assign =
    is_some b.assignee_member_id && succeeded (member_name s b.assignee_member_id row.case_id)
payload_ok x s row b due = succeeded (parse_due x b.due_at)

guarded-succeeds :
    (row : Task) (f : Task → Task) (e : TaskEvent) (s : TaskStore)
    → s.tasks row.id ≡ some row
    → succeeded (guarded row f e s) ≡ true
unfolding guarded
guarded-succeeds row f e s h = ground arith

transition-succeeds :
    (x : TextLibrary) (row : Task) (to : Status) (a : Action) (actor note : String) (ts : ℕ)
    (s : TaskStore)
    → s.tasks row.id ≡ some row
    → succeeded (transition x row to a actor note ts s) ≡ true
unfolding transition
transition-succeeds x row to a actor note ts s h = guarded-succeeds row _ _ s h

assign_to-succeeds :
    (row : Task) (o : Option ℕ) (actor : String) (ts : ℕ) (s : TaskStore)
    → s.tasks row.id ≡ some row
    → (is_some o && succeeded (member_name s o row.case_id)) ≡ true
    → succeeded (assign_to s row o actor ts) ≡ true
assign_to-succeeds row none actor ts s h k = cc k
assign_to-succeeds row (some m) actor ts s h k =
    let (name, e) = succeeded-ok (member_name s (some m) row.case_id) k in
    rw (e, succeeded, ◌>>=◌) (guarded-succeeds row _ _ s h)

perform-succeeds :
    (x : TextLibrary) (p : Principal) (row : Task) (b : TaskAction) (ts : ℕ) (s : TaskStore)
    (a : Action)
    → s.tasks row.id ≡ some row
    → payload_ok x s row b a ≡ true
    → succeeded (perform x p row b ts s a) ≡ true
unfolding perform
perform-succeeds x p row b ts s start h k =
    ground (arith, transition-succeeds x row working start p.name "" ts s h)
perform-succeeds x p row b ts s submit h k =
    ground (arith, transition-succeeds x row reviewing submit p.name b.note ts s h)
perform-succeeds x p row b ts s return h k =
    ground (arith, transition-succeeds x row todo return p.name (x.strip b.note) ts s h)
perform-succeeds x p row b ts s complete h k =
    ground (arith, transition-succeeds x row completed complete p.name b.note ts s h)
perform-succeeds x p row b ts s cancel h k =
    transition-succeeds x row cancelled cancel p.name b.note ts s h
perform-succeeds x p row b ts s assign h k =
    assign_to-succeeds row b.assignee_member_id p.name ts s h k
perform-succeeds x p row b ts s due h k =
    let (d, e) = succeeded-ok (parse_due x b.due_at) k in
    rw (e, succeeded, ◌>>=◌) (guarded-succeeds row _ _ s h)

-- No action is refused that the case, the rights, the expected version, the status and the body
-- allow: on an open task that still is as it was read, such an action succeeds.
pub act_on_row-succeeds :
    (x : TextLibrary) (p : Principal) (hidden : List ℕ) (row : Task) (b : TaskAction) (ts : ℕ)
    (s : TaskStore)
    → s.tasks row.id ≡ some row
    → require_case_access p hidden row.case_id ≡ ok tt
    → may_act p row b.action ≡ ok tt
    → version_expected b.expected_version row.version ≡ true
    → is_open row.status ≡ true
    → payload_ok x s row b b.action ≡ true
    → succeeded (act_on_row x p hidden row b ts s) ≡ true
unfolding act_on_row
act_on_row-succeeds x p hidden row b ts s h access right version live k =
    let (s', e) =
      succeeded-ok (perform x p row b ts s b.action)
        (perform-succeeds x p row b ts s b.action h k) in
    ground arith
