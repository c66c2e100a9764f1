-- ===== src/CaseReports.antt =====
-- app/case_reports.py: the reports of a case, from draft to approval. What a freeze and a check of a
-- frozen body find in the files and in the live tables (app/report_delivery.py) is given by a `World`,
-- as it is at the moment of the request. A list of reports or versions is in the order of its ids.
pub mod Approval
pub mod Delivery
mod Examples
use law_review_local.Access.{
  approve, Principal, edit, review_roles, require_permission, require_case_access,
  require_case_role,
}
use law_review_local.Audit.{AuditRow}
use law_review_local.Common.{
  ℕ, ◌+◌, String, Bool, true, false, ◌&&◌, ◌||◌, not, Option, none, some, str_eq, ◌==◌,
  if◌then◌else◌, List, ◌∷◌, [], ◌++◌, any, find?, count, Http, ok, raise, require, ◌>>=◌, ◌>>◌, max,
}

pub data ReportStatus : Type 0 where
  draft in_review returned approved void : ReportStatus

abbrev pub report_code : ReportStatus → ℕ
report_code draft = 0
report_code in_review = 1
report_code returned = 2
report_code approved = 3
report_code void = 4

abbrev pub has_status : ReportStatus → ReportStatus → Bool
has_status a b = report_code a == report_code b

pub record Report : Type 0 where
  pub id : ℕ
  pub case_id : ℕ
  pub version : ℕ
  pub title : String
  pub template_id : Option ℕ
  pub status : ReportStatus
  pub basis_hash : String
  pub prepared_by : String
  pub reviewed_by : Option String
  pub approved_by : Option String
  pub return_reason : String
  pub frozen_version_id : Option ℕ
  pub approved_version_id : Option ℕ
  pub content_hash : Option String
  pub source_hash : Option String
  pub superseded_by : Option ℕ
  pub row_version : ℕ

-- A row of `case_report_versions`; `sheet` is the digest and the count of its transaction sheet.
pub record FrozenVersion : Type 0 where
  pub id : ℕ
  pub report_id : ℕ
  pub source_hash : String
  pub content_hash : String
  pub sheet_sha : String
  pub sheet_count : ℕ
  pub frozen_by : String

pub data ReportAction : Type 0 where
  submit_it return_it approve_it void_it : ReportAction

-- The action of an event; a new report has an event of its own.
pub data ReportEventAction : Type 0 where
  created : ReportEventAction
  acted : ReportAction → ReportEventAction

pub record ReportEvent : Type 0 where
  pub report_id : ℕ
  pub from_status : Option ReportStatus
  pub to_status : ReportStatus
  pub action : ReportEventAction
  pub actor : String
  pub note : String

pub record ReportStore : Type 0 where
  pub reports : List Report
  pub versions : List FrozenVersion
  pub events : List ReportEvent
  pub audit : List AuditRow
  pub next_id : ℕ
  pub next_version : ℕ
  pub cases : List ℕ
  pub templates : List ℕ

-- What the digest of the live source, a freeze (the digests of its source and its content) and the
-- check of a frozen body come to: a result, or the exception that the handler makes of a ValueError.
pub record World : Type 0 where
  pub strip : String → String
  pub clip : ℕ → String → String
  pub default_title : ℕ → String
  pub basis : ℕ → String
  pub source : ℕ → Option ℕ → Http String
  pub freeze : ℕ → Option ℕ → Http (String × String)
  pub sheet_sha : ℕ → String
  pub sheet_count : ℕ → ℕ
  pub verified : FrozenVersion → Http (Unit {0})

abbrev pub load_report : ReportStore → ℕ → Http Report
load_report s i = elim (find? (λ r. r.id == i) s.reports) [
  | none ↦ raise 404 "报告不存在"
  | some r ↦ ok r
]

-- `UPDATE … WHERE test`
unfoldable pub update_where : (Report → Bool) → (Report → Report) → List Report → List Report
update_where test f [] = []
update_where test f (r ∷ rs) =
    let rest = update_where test f rs in if test r then f r ∷ rest else r ∷ rest

abbrev report_event : Report → ReportEventAction → ReportStatus → String → String → ReportEvent
report_event row action to actor note = record {
  report_id = row.id;
  from_status = some row.status;
  to_status = to;
  action = action;
  actor = actor;
  note = note;
}

-- `freeze_for_submission`: the row of the frozen body, whose id is the next one.
unfoldable pub freeze_for_submission : World → Report → String → ReportStore → Http FrozenVersion
freeze_for_submission w row actor s = do
  digests ← w.freeze row.case_id row.template_id
  ok (record {
    id = s.next_version;
    report_id = row.id;
    source_hash = digests.0;
    content_hash = digests.1;
    sheet_sha = w.sheet_sha row.case_id;
    sheet_count = w.sheet_count row.case_id;
    frozen_by = actor;
  })

abbrev pub same_row : Report → ReportStatus → Report → Bool
same_row row st r =
    (r.id == row.id) && (has_status r.status st && (r.row_version == row.row_version))

abbrev pub submitted : World → FrozenVersion → String → Report → Report
submitted w v actor r = record r {
  status = in_review;
  basis_hash = w.basis r.case_id;
  prepared_by = actor;
  return_reason = "";
  frozen_version_id = some v.id;
  content_hash = some v.content_hash;
  source_hash = some v.source_hash;
  row_version = r.row_version + 1;
}

unfoldable pub submit_report : World → Report → String → ReportStore → Http ReportStore
unfolding freeze_for_submission update_where
submit_report w row actor s = do
  require (has_status row.status draft || has_status row.status returned) 409 "只有草稿或已退回的报告可以提交复核"
  v ← freeze_for_submission w row actor s
  require (count (same_row row row.status) s.reports == 1) 409 "报告已被其他人修改，请刷新后重试"
  ok (record s {
    reports = update_where (same_row row row.status) (submitted w v actor) s.reports;
    versions = s.versions ++ v ∷ [];
    next_version = s.next_version + 1;
    events = s.events ++ report_event row (acted submit_it) in_review actor "" ∷ [];
  })

abbrev pub sent_back : String → String → Report → Report
sent_back actor reason r = record r {
  status = returned;
  reviewed_by = some actor;
  return_reason = reason;
  row_version = r.row_version + 1;
}

unfoldable pub return_report : World → Report → String → String → ReportStore → Http ReportStore
unfolding update_where
return_report w row actor note s = do
  require (not (str_eq (w.strip note) "")) 400 "退回报告必须填写原因"
  require (has_status row.status in_review) 409 "只有待复核的报告可以退回"
  ok (record s {
    reports = update_where (λ r. r.id == row.id) (sent_back actor (w.strip note)) s.reports;
    events =
        s.events
        ++ report_event row (acted return_it) returned actor (w.clip 500 (w.strip note)) ∷ [];
  })

-- The approved reports of a case other than the one at hand.
abbrev pub others_approved : Report → Report → Bool
others_approved row r =
    (r.case_id == row.case_id) && (has_status r.status approved && not (r.id == row.id))

abbrev pub superseded : ℕ → Report → Report
superseded i r = record r { status = void; superseded_by = some i; row_version = r.row_version + 1 }

abbrev pub granted : FrozenVersion → String → Report → Report
granted v actor r = record r {
  status = approved;
  reviewed_by = some actor;
  approved_by = some actor;
  approved_version_id = some v.id;
  content_hash = some v.content_hash;
  source_hash = some v.source_hash;
  row_version = r.row_version + 1;
}

abbrev pub frozen_of : ReportStore → Report → Option FrozenVersion
frozen_of s row = elim row.frozen_version_id [
  | none ↦ none
  | some i ↦ find? (λ v. v.id == i) s.versions
]

-- The tests of an approval, on the version found.
unfoldable pub approvable : World → Report → Option FrozenVersion → Http FrozenVersion
approvable w row none = raise 409 "该报告没有冻结的交付正文，请重新提交复核后再批准"
approvable w row (some v) = do
  w.verified v
  live ← w.source row.case_id row.template_id
  require (str_eq live v.source_hash) 409 "提交复核后材料、证据、问答或模板已变化，请退回并要求重新提交"
  require
      (str_eq (w.sheet_sha row.case_id) v.sheet_sha && (w.sheet_count row.case_id == v.sheet_count))
      409 "提交复核后资金流水已变化，请退回并要求重新提交"
  ok v

unfoldable pub approve_report : World → Report → String → String → ReportStore → Http ReportStore
unfolding approvable update_where
approve_report w row actor note s = do
  require (has_status row.status in_review) 409 "只有待复核的报告可以批准"
  v ← approvable w row (frozen_of s row)
  require
      (count (same_row row in_review)
          (update_where (others_approved row) (superseded row.id) s.reports)
        == 1)
      409 "报告已被其他人处理，请刷新后重试"
  ok (record s {
    reports =
        update_where (same_row row in_review) (granted v actor)
          (update_where (others_approved row) (superseded row.id) s.reports);
    events = s.events ++ report_event row (acted approve_it) approved actor (w.clip 500 note) ∷ [];
  })

abbrev pub voided : Report → Report
voided r = record r { status = void; row_version = r.row_version + 1 }

unfoldable pub void_report : World → Report → String → String → ReportStore → Http ReportStore
unfolding update_where
void_report w row actor note s = do
  require (not (has_status row.status void)) 409 "报告已作废"
  ok (record s {
    reports = update_where (λ r. r.id == row.id) voided s.reports;
    events = s.events ++ report_event row (acted void_it) void actor (w.clip 500 note) ∷ [];
  })

abbrev pub review_label : String
review_label = "需要审批确认权限及复核律师或案件负责人角色"

-- The test of rights and the branch of an action.
unfoldable pub do_report :
    World → Principal → Report → String → ReportStore → ReportAction → Http ReportStore
unfolding submit_report return_report approve_report void_report require_permission
    require_case_role
do_report w p row note s submit_it = do
  require_permission p edit (some row.case_id)
  submit_report w row p.name s
do_report w p row note s return_it = do
  require_case_role p approve row.case_id review_roles review_label
  return_report w row p.name note s
do_report w p row note s approve_it = do
  require_case_role p approve row.case_id review_roles review_label
  approve_report w row p.name note s
do_report w p row note s void_it = do
  require_case_role p approve row.case_id review_roles review_label
  void_report w row p.name note s

abbrev reported : Report → String → String → ReportStore → ReportStore
reported row actor note s = record s {
  audit =
      s.audit
      ++ record { case_id = some row.case_id; action = "报告流转"; actor = actor; note = note } ∷ [];
}

-- `BEGIN IMMEDIATE` lets one writer in at a time, so the row read is the row written.
unfoldable pub act_on_report :
    World → Principal → List ℕ → ℕ → ReportAction → String → ReportStore → Http ReportStore
unfolding require_case_access
act_on_report w p hidden i action note s = do
  row ← load_report s i
  require_case_access p hidden row.case_id
  s' ← do_report w p row note s action
  ok (reported row p.name (w.clip 200 note) s')

-- `COALESCE(MAX(version), 0) + 1`
unfoldable pub last_version : ℕ → List Report → ℕ
last_version c [] = 0
last_version c (r ∷ rs) =
    let rest = last_version c rs in if r.case_id == c then max r.version rest else rest

abbrev known_template : Option ℕ → List ℕ → Bool
known_template none ts = true
known_template (some t) ts = any (λ u. u == t) ts

abbrev or_default : String → String → String
or_default a b = if str_eq a "" then b else a

abbrev pub new_report : World → ℕ → ℕ → ℕ → String → Option ℕ → String → Report
new_report w i c n title template actor = record {
  id = i;
  case_id = c;
  version = n;
  title = or_default (w.strip title) (w.default_title n);
  template_id = template;
  status = draft;
  basis_hash = "";
  prepared_by = actor;
  reviewed_by = none;
  approved_by = none;
  return_reason = "";
  frozen_version_id = none;
  approved_version_id = none;
  content_hash = none;
  source_hash = none;
  superseded_by = none;
  row_version = 1;
}

unfoldable pub create_report :
    World → Principal → ℕ → String → Option ℕ → ReportStore → Http ReportStore
unfolding last_version require_permission
create_report w p c title template s = do
  require_permission p edit (some c)
  require (any (λ d. d == c) s.cases) 404 "案件不存在"
  require (known_template template s.templates) 404 "结案模板不存在"
  ok (record s {
    reports =
        s.reports
        ++ new_report w s.next_id c (last_version c s.reports + 1) title template p.name ∷ [];
    next_id = s.next_id + 1;
    events =
        s.events
        ++ record {
          report_id = s.next_id;
          from_status = none;
          to_status = draft;
          action = created;
          actor = p.name;
          note = "";
        }
          ∷ [];
  })
