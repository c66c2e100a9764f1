-- ===== src/HumanTasks/Examples.antt =====
-- app/human_tasks.py: examples. Bo owns case 1; the task of Ann, an assistant, awaits its review.
use law_review_local.People.{bo, result_or}
use law_review_local.Common.{
  ◌≡◌, refl, ◌∷◌, [], true, false, none, some, List, succeeded, ◌+◌, ◌++◌,
}
use law_review_local.Access.{require_case_access, allowed_case_ids, role_for}
use law_review_local.HumanTasks.{
  TextLibrary, Task, TaskStore, TaskAction, TaskCreate, TaskEvent, start, cancel, todo, act_on_row,
  act_on_task, create_task, put_task, may_act, perform, is_reviewer, parse_due, Action, cancelled,
  is_manager, member_name, transition,
}
use law_review_local.HumanTasks.Lifecycle.{Flow, act_on_row-Flow}
use law_review_local.HumanTasks.Lifecycle.Records.{
  IsSound, act_on_task-IsSound, create_task-IsSound,
}
use law_review_local.HumanTasks.Lifecycle.Traces.{
  Request, act, create, serve, serve-IsSound, serve-keeps_finished,
}
use law_review_local.HumanTasks.Concurrency.{act_on_row-once}
use law_review_local.HumanTasks.Rights.{Warrant, act_on_row-Warrant, act_on_row-succeeds}

abbrev texts : TextLibrary
texts = record { strip = λ s. s; clip = λ n s. s; from_iso = λ s. some 20; iso = λ d. "date" }

abbrev empty_store : TaskStore
empty_store = record {
  tasks = λ i. none;
  events = [];
  audit = [];
  next_id = 1;
  cases = 1 ∷ [];
  evidence_case = λ e. none;
  assignees = λ c. [];
}

empty_store-IsSound : IsSound empty_store
empty_store-IsSound = record {
  keyed = λ i t h. absurd (cc h);
  known = λ i t h. absurd (cc h);
  counted = λ i t h. absurd (cc h);
  closed = λ i t h. absurd (cc h);
  silent = λ i h. refl;
}

abbrev wanted : TaskCreate
wanted = record {
  title = "read";
  kind = "阅卷";
  detail = "";
  assignee_member_id = none;
  due_at = none;
  evidence_id = none;
}

abbrev act_with : Action → TaskAction
act_with a = record {
  action = a;
  note = "";
  assignee_member_id = none;
  due_at = none;
  expected_version = none;
}

abbrev store_with_task : TaskStore
unfolding create_task is_manager role_for parse_due member_name act_on_task act_on_row
    require_case_access may_act perform transition is_reviewer allowed_case_ids
store_with_task = result_or empty_store (create_task texts bo 1 wanted 10 empty_store)

store_with_task-IsSound : IsSound store_with_task
unfolding create_task is_manager role_for parse_due member_name act_on_task act_on_row
    require_case_access may_act perform transition is_reviewer allowed_case_ids
store_with_task-IsSound =
    create_task-IsSound texts bo 1 wanted 10 empty_store store_with_task empty_store-IsSound refl

abbrev read_task : Task
read_task = record {
  id = 1;
  case_id = 1;
  kind = "阅卷";
  title = "read";
  detail = "";
  assignee_member_id = none;
  assignee_name = "";
  status = todo;
  due_at = none;
  evidence_id = none;
  created_by = "bo";
  created_at = 10;
  updated_at = 10;
  closed_at = none;
  version = 1;
}

abbrev cancelled_store : TaskStore
unfolding create_task is_manager role_for parse_due member_name act_on_task act_on_row
    require_case_access may_act perform transition is_reviewer allowed_case_ids
cancelled_store =
    result_or store_with_task (act_on_task texts bo [] 1 (act_with cancel) 20 store_with_task)

cancelled_store-IsSound : IsSound cancelled_store
unfolding create_task is_manager role_for parse_due member_name act_on_task act_on_row
    require_case_access may_act perform transition is_reviewer allowed_case_ids
cancelled_store-IsSound =
    act_on_task-IsSound texts bo [] 1 (act_with cancel) 20 store_with_task cancelled_store
      store_with_task-IsSound refl

act_on_row-Flow_example :
    (t t' : Task) × (e : TaskEvent) × (store_with_task.tasks 1 ≡ some t)
    × (t.version ≡ 1)
    × (cancelled_store.tasks ≡ put_task 1 t' store_with_task.tasks)
    × Flow t.status cancel t'.status
    × (t'.version ≡ t.version + 1)
    × (t'.case_id ≡ t.case_id)
    × (cancelled_store.events ≡ store_with_task.events ++ e ∷ [])
    × (e.task_id ≡ 1)
    × (e.from_status ≡ some t.status)
    × (e.to_status ≡ t'.status)
unfolding create_task is_manager role_for parse_due member_name act_on_task act_on_row
    require_case_access may_act perform transition is_reviewer allowed_case_ids
act_on_row-Flow_example =
    act_on_row-Flow texts bo [] read_task (act_with cancel) 20 store_with_task cancelled_store refl

act_on_row-once_example :
    succeeded (act_on_row texts bo [] read_task (act_with cancel) 30 cancelled_store) ≡ false
unfolding create_task is_manager role_for parse_due member_name act_on_task act_on_row
    require_case_access may_act perform transition is_reviewer allowed_case_ids
act_on_row-once_example =
    act_on_row-once texts bo bo [] [] read_task (act_with cancel) (act_with cancel) 20 30
      store_with_task cancelled_store refl

act_on_row-Warrant_example : Warrant bo read_task cancel
unfolding create_task is_manager role_for parse_due member_name act_on_task act_on_row
    require_case_access may_act perform transition is_reviewer allowed_case_ids
act_on_row-Warrant_example =
    act_on_row-Warrant texts bo [] read_task (act_with cancel) 20 store_with_task cancelled_store
      refl refl

act_on_row-succeeds_example :
    succeeded (act_on_row texts bo [] read_task (act_with cancel) 20 store_with_task) ≡ true
unfolding create_task is_manager role_for parse_due member_name act_on_task act_on_row
    require_case_access may_act perform transition is_reviewer allowed_case_ids
act_on_row-succeeds_example =
    act_on_row-succeeds texts bo [] read_task (act_with cancel) 20 store_with_task refl refl refl
      refl refl refl

abbrev requests : List Request
requests = act bo [] 1 (act_with start) 30 ∷ create bo 1 wanted 40 ∷ []

serve-IsSound_example : IsSound (serve texts requests empty_store)
serve-IsSound_example = serve-IsSound texts requests empty_store empty_store-IsSound

abbrev closed_task : Task
closed_task = record read_task {
  status = cancelled;
  updated_at = 20;
  closed_at = some 20;
  version = 2;
}

serve-keeps_finished_example : (serve texts requests cancelled_store).tasks 1 ≡ some closed_task
unfolding create_task is_manager role_for parse_due member_name act_on_task act_on_row
    require_case_access may_act perform transition is_reviewer allowed_case_ids
serve-keeps_finished_example =
    serve-keeps_finished texts requests 1 closed_task cancelled_store cancelled_store-IsSound refl
      refl
