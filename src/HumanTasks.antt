-- ===== src/HumanTasks.antt =====
-- app/human_tasks.py: review tasks, their guarded transitions and their events.
-- A task table is the map from ids to rows that its primary key gives. Dates are numbered in the
-- order of their ISO texts; `strip`, slicing and `date.fromisoformat` are given by a `TextLibrary`.
pub mod Lifecycle
pub mod Concurrency
pub mod Rights
pub mod Listing
mod Examples
use law_review_local.Access.{
  view, edit, approve, has_for_case, has_case_role, role_permissions, require_case_access,
  Principal, Permission, Role, manager_roles, review_roles, member,
}
use law_review_local.Audit.{AuditRow}
use law_review_local.Common.{
  Option, ℕ, Bool, Http, String, List, ◌==◌, ◌>>=◌, some, not, require, ◌>>◌, false, if◌then◌else◌,
  raise, ◌+◌, ◌∷◌, true, ok, ◌++◌, none, str_eq, is_some, ◌&&◌, find?, ◌||◌, any, [], keep,
  join_text,
}

pub record TextLibrary : Type 0 where
  pub strip : String → String
  pub clip : ℕ → String → String
  pub from_iso : String → Option ℕ
  pub iso : ℕ → String

pub data Status : Type 0 where
  todo working reviewing completed cancelled : Status

abbrev pub status_code : Status → ℕ
status_code todo = 0
status_code working = 1
status_code reviewing = 2
status_code completed = 3
status_code cancelled = 4

abbrev pub status_eq : Status → Status → Bool
status_eq a b = status_code a == status_code b

-- `OPEN_STATUSES`
abbrev pub is_open : Status → Bool
is_open todo = true
is_open working = true
is_open reviewing = true
is_open completed = false
is_open cancelled = false

abbrev pub task_kinds : List String
task_kinds = "阅卷" ∷ "核证" ∷ "补证" ∷ "复核" ∷ "归档" ∷ "其他" ∷ []

pub record Task : Type 0 where
  pub id : ℕ
  pub case_id : ℕ
  pub kind : String
  pub title : String
  pub detail : String
  pub assignee_member_id : Option ℕ
  pub assignee_name : String
  pub status : Status
  pub due_at : Option ℕ
  pub evidence_id : Option ℕ
  pub created_by : String
  pub created_at : ℕ
  pub updated_at : ℕ
  pub closed_at : Option ℕ
  pub version : ℕ

pub data Action : Type 0 where
  start submit return complete cancel assign due : Action

-- The action of an event; a new task has an event of its own.
pub data EventAction : Type 0 where
  created : EventAction
  acted : Action → EventAction

pub record TaskEvent : Type 0 where
  pub task_id : ℕ
  pub from_status : Option Status
  pub to_status : Status
  pub action : EventAction
  pub actor : String
  pub note : String
  pub created_at : ℕ

-- A member joined with the role on the case at hand.
pub record AssigneeRow : Type 0 where
  pub id : ℕ
  pub name : String
  pub active : Bool
  pub is_admin : Bool
  pub permissions : List Permission
  pub role : Option Role

pub record TaskStore : Type 0 where
  pub tasks : ℕ → Option Task
  pub events : List TaskEvent
  pub audit : List AuditRow
  pub next_id : ℕ
  pub cases : List ℕ
  pub evidence_case : ℕ → Option ℕ
  pub assignees : ℕ → List AssigneeRow

unfoldable pub parse_due : TextLibrary → Option String → Http (Option ℕ)
parse_due x none = ok none
parse_due x (some v) = if str_eq v "" then ok none else elim (x.from_iso (x.strip v)) [
  | some d ↦ ok (some d)
  | none ↦ raise 400 "期限格式应为 YYYY-MM-DD"
]

unfoldable pub is_manager : Principal → ℕ → Bool
unfolding has_case_role
is_manager p c = has_case_role p edit (some c) manager_roles

unfoldable pub is_reviewer : Principal → ℕ → Bool
unfolding has_case_role
is_reviewer p c = has_case_role p approve (some c) review_roles

abbrev same_assignee : Option ℕ → Option ℕ → String → String → Bool
same_assignee (some i) (some j) own name = i == j
same_assignee none j own name = not (str_eq name "") && str_eq name own
same_assignee (some i) none own name = not (str_eq name "") && str_eq name own

unfoldable pub is_assignee : Principal → Task → Bool
is_assignee p t = same_assignee p.member_id t.assignee_member_id p.name t.assignee_name

unfoldable pub can_work : Principal → ℕ → Task → Bool
unfolding has_for_case
can_work p c t =
    if not (has_for_case p edit (some c)) then false else is_assignee p t || is_manager p c

abbrev grants_work : Option Role → Bool
unfolding role_permissions
grants_work none = false
grants_work (some r) = member view (role_permissions r) && member edit (role_permissions r)

unfoldable pub can_assign : AssigneeRow → Bool
unfolding role_permissions
can_assign r =
    if r.is_admin
    then true
    else (member view r.permissions && member edit r.permissions) && grants_work r.role

abbrev assignable : Option AssigneeRow → Http String
assignable none = raise 404 "指派成员不存在"
assignable (some r) =
    if not r.active
    then raise 409 "指派成员已停用"
    else if not (can_assign r)
    then raise 409 "任务负责人必须有本案查看和编辑权限，请先完成案件分工与授权"
    else ok r.name

unfoldable pub member_name : TaskStore → Option ℕ → ℕ → Http String
unfolding can_assign
member_name s none c = ok ""
member_name s (some m) c = assignable (find? (λ r. r.id == m) (s.assignees c))

unfoldable pub task_assignees : Principal → ℕ → TaskStore → Http (List AssigneeRow)
unfolding is_manager can_assign
task_assignees p c s = do
  require (is_manager p c) 403 "需要编辑权限及案件负责人角色"
  require (any (λ d. d == c) s.cases) 404 "案件不存在"
  ok (keep (λ r. r.active && can_assign r) (s.assignees c))

abbrev pub load_task : TaskStore → ℕ → Http Task
load_task s i = elim (s.tasks i) [ some t ↦ ok t | none ↦ raise 404 "任务不存在" ]

abbrev pub put_task : ℕ → Task → (ℕ → Option Task) → ℕ → Option Task
put_task i t tasks j = if i == j then some t else tasks j

-- Whether the row found still is the row read: `WHERE id = ? AND version = ? AND status = ?`.
abbrev pub unchanged : Task → Option Task → Bool
unchanged row none = false
unchanged row (some t) = (t.version == row.version) && status_eq t.status row.status

-- The guarded `UPDATE` with its test of the row count, and the event.
unfoldable pub guarded : Task → (Task → Task) → TaskEvent → TaskStore → Http TaskStore
guarded row f e s = elim (s.tasks row.id) [
  | none ↦ raise 409 "任务已被其他人修改，请刷新后重试"
  | some t ↦
      if unchanged row (some t)
      then ok (record s { tasks = put_task row.id (f t) s.tasks; events = s.events ++ e ∷ [] })
      else raise 409 "任务已被其他人修改，请刷新后重试"
]

abbrev pub closing_time : Status → ℕ → Option ℕ
closing_time completed ts = some ts
closing_time cancelled ts = some ts
closing_time todo ts = none
closing_time working ts = none
closing_time reviewing ts = none

unfoldable pub transition :
    TextLibrary → Task → Status → Action → String → String → ℕ → TaskStore → Http TaskStore
unfolding guarded
transition x row to action actor note ts s =
    guarded row
      (λ t. record t {
        status = to;
        updated_at = ts;
        closed_at = closing_time to ts;
        version = t.version + 1;
      })
      (record {
        task_id = row.id;
        from_status = some row.status;
        to_status = to;
        action = acted action;
        actor = actor;
        note = x.clip 500 note;
        created_at = ts;
      })
      s

pub record TaskAction : Type 0 where
  pub action : Action
  pub note : String
  pub assignee_member_id : Option ℕ
  pub due_at : Option String
  pub expected_version : Option ℕ

abbrev pub due_text : TextLibrary → Option ℕ → String
due_text x none = "期限 清除"
due_text x (some d) = join_text "期限 " (x.iso d)

-- The event of an action that leaves the status.
abbrev pub side_event : Task → Action → String → String → ℕ → TaskEvent
side_event row action actor note ts = record {
  task_id = row.id;
  from_status = some row.status;
  to_status = row.status;
  action = acted action;
  actor = actor;
  note = note;
  created_at = ts;
}

abbrev pub assign_to : TaskStore → Task → Option ℕ → String → ℕ → Http TaskStore
assign_to s row none actor ts = raise 400 "请选择要指派的成员"
assign_to s row (some m) actor ts = do
  name ← member_name s (some m) row.case_id
  guarded row
      (λ t. record t {
        assignee_member_id = some m;
        assignee_name = name;
        updated_at = ts;
        version = t.version + 1;
      })
      (side_event row assign actor (join_text "指派给 " name) ts) s

-- `not row["assignee_member_id"] and not row["assignee_name"]`; an id is never 0.
abbrev pub unassigned : Task → Bool
unassigned t = not (is_some t.assignee_member_id) && str_eq t.assignee_name ""

-- The branches of `act_on_task`.
unfoldable pub perform :
    TextLibrary → Principal → Task → TaskAction → ℕ → TaskStore → Action → Http TaskStore
unfolding transition member_name parse_due
perform x p row a ts s start = do
  require (status_eq row.status todo) 409 "只有待处理任务可以开始"
  require (not (unassigned row)) 409 "请先指派任务负责人"
  transition x row working start p.name "" ts s
perform x p row a ts s submit = do
  require (status_eq row.status working) 409 "只有进行中的任务可以提交复核"
  transition x row reviewing submit p.name a.note ts s
perform x p row a ts s return = do
  require (not (str_eq (x.strip a.note) "")) 400 "退回任务必须填写原因"
  require (status_eq row.status reviewing || status_eq row.status working) 409 "只有待复核或进行中的任务可以退回"
  transition x row todo return p.name (x.strip a.note) ts s
perform x p row a ts s complete = do
  require (status_eq row.status reviewing) 409 "只有待复核的任务可以确认完成"
  transition x row completed complete p.name a.note ts s
perform x p row a ts s cancel = transition x row cancelled cancel p.name a.note ts s
perform x p row a ts s assign = assign_to s row a.assignee_member_id p.name ts
perform x p row a ts s due = do
  d ← parse_due x a.due_at
  guarded row (λ t. record t { due_at = d; updated_at = ts; version = t.version + 1 })
      (side_event row due p.name (due_text x d) ts) s

-- The three tests of rights, by the action.
unfoldable pub may_act : Principal → Task → Action → Http (Unit {0})
unfolding is_manager is_reviewer can_work is_assignee
may_act p row assign = require (is_manager p row.case_id) 403 "需要编辑权限及案件负责人角色"
may_act p row due = require (is_manager p row.case_id) 403 "需要编辑权限及案件负责人角色"
may_act p row cancel = require (is_manager p row.case_id) 403 "需要编辑权限及案件负责人角色"
may_act p row return = require (is_reviewer p row.case_id) 403 "需要审批确认权限及复核律师或案件负责人角色"
may_act p row complete = require (is_reviewer p row.case_id) 403 "需要审批确认权限及复核律师或案件负责人角色"
may_act p row start = require (can_work p row.case_id row) 403 "需要编辑权限且为任务负责人或案件负责人"
may_act p row submit = require (can_work p row.case_id row) 403 "需要编辑权限且为任务负责人或案件负责人"

abbrev pub version_expected : Option ℕ → ℕ → Bool
version_expected none v = true
version_expected (some w) v = w == v

abbrev pub audited : Task → Action → String → String → TaskStore → TaskStore
audited row action actor note s = record s {
  audit =
      s.audit
      ++ record { case_id = some row.case_id; action = "任务流转"; actor = actor; note = note } ∷ [];
}

-- `act_on_task` after the row was read; `s` is the state that its `UPDATE` finds.
unfoldable pub act_on_row :
    TextLibrary → Principal → List ℕ → Task → TaskAction → ℕ → TaskStore → Http TaskStore
act_on_row x p hidden row a ts s = do
  require_case_access p hidden row.case_id
  may_act p row a.action
  require (version_expected a.expected_version row.version) 409 "任务已被其他人修改，请刷新后重试"
  require (is_open row.status) 409 "任务已结束，不能再操作"
  s' ← perform x p row a ts s a.action
  ok (audited row a.action p.name a.note s')

unfoldable pub act_on_task :
    TextLibrary → Principal → List ℕ → ℕ → TaskAction → ℕ → TaskStore → Http TaskStore
act_on_task x p hidden i a ts s = do row ← load_task s i; act_on_row x p hidden row a ts s

pub record TaskCreate : Type 0 where
  pub title : String
  pub kind : String
  pub detail : String
  pub assignee_member_id : Option ℕ
  pub due_at : Option String
  pub evidence_id : Option ℕ

abbrev pub evidence_in : TaskStore → ℕ → Option ℕ → Bool
evidence_in s c none = true
evidence_in s c (some e) = elim (s.evidence_case e) [ none ↦ false | some d ↦ d == c ]

abbrev pub created_note : String → String
created_note name = if str_eq name "" then "待指派" else join_text "指派给 " name

abbrev pub new_task : TaskCreate → ℕ → ℕ → String → Option ℕ → String → ℕ → Task
new_task b i c name d actor ts = record {
  id = i;
  case_id = c;
  kind = b.kind;
  title = b.title;
  detail = b.detail;
  assignee_member_id = b.assignee_member_id;
  assignee_name = name;
  status = todo;
  due_at = d;
  evidence_id = b.evidence_id;
  created_by = actor;
  created_at = ts;
  updated_at = ts;
  closed_at = none;
  version = 1;
}

abbrev pub new_event : ℕ → String → String → ℕ → TaskEvent
new_event i name actor ts = record {
  task_id = i;
  from_status = none;
  to_status = todo;
  action = created;
  actor = actor;
  note = created_note name;
  created_at = ts;
}

unfoldable pub create_task :
    TextLibrary → Principal → ℕ → TaskCreate → ℕ → TaskStore → Http TaskStore
create_task x p c b ts s = do
  require (is_manager p c) 403 "需要编辑权限及案件负责人角色"
  require (any (str_eq b.kind) task_kinds) 400 "任务类型必须来自：阅卷、核证、补证、复核、归档、其他"
  d ← parse_due x b.due_at
  require (any (λ e. e == c) s.cases) 404 "案件不存在"
  name ← member_name s b.assignee_member_id c
  require (evidence_in s c b.evidence_id) 404 "关联证据不在本案"
  ok (record s {
    tasks = put_task s.next_id (new_task b s.next_id c name d p.name ts) s.tasks;
    events = s.events ++ new_event s.next_id name p.name ts ∷ [];
    next_id = s.next_id + 1;
  })
