-- ===== src/CaseReports/Examples.antt =====
-- app/case_reports.py: examples. Report 1 of case 1 is submitted and approved by the case's owner.
use law_review_local.People.{bo, result_or}
use law_review_local.Common.{◌≡◌, refl, ◌∷◌, [], none, some, ok, arith, any, ◌==◌, ◌&&◌, not, false}
use law_review_local.Access.{
  role_for, require_permission, require_case_role, require_case_access, has_case_role,
}
use law_review_local.CaseReports.{
  World, Report, ReportStore, FrozenVersion, create_report, act_on_report, approve_report,
  submit_it, approve_it, in_review, has_status, frozen_of, do_report, submit_report,
  freeze_for_submission, update_where, last_version, approvable, approved,
}
use law_review_local.CaseReports.Approval.{IsSound, create_report-IsSound, act_on_report-IsSound}
use law_review_local.CaseReports.Delivery.{
  Current, approve_report-Current, ApprovedWith, AllReplaced,
}

abbrev world : World
world = record {
  strip = λ s. s;
  clip = λ n s. s;
  default_title = λ n. "report";
  basis = λ c. "basis";
  source = λ c t. ok "source";
  freeze = λ c t. ok ("source", "content");
  sheet_sha = λ c. "sheet";
  sheet_count = λ c. 3;
  verified = λ v. ok tt;
}

abbrev no_reports : ReportStore
no_reports = record {
  reports = [];
  versions = [];
  events = [];
  audit = [];
  next_id = 1;
  next_version = 1;
  cases = 1 ∷ [];
  templates = [];
}

no_reports-IsSound : IsSound no_reports
no_reports-IsSound = record {
  unique = λ i. omega arith;
  known = λ i h. refl;
  single = λ c. omega arith;
}

abbrev drafted : ReportStore
unfolding create_report act_on_report do_report role_for require_permission require_case_role
    require_case_access approve_report submit_report freeze_for_submission update_where last_version
    approvable has_case_role
drafted = result_or no_reports (create_report world bo 1 "closing" none no_reports)

drafted-IsSound : IsSound drafted
unfolding create_report act_on_report do_report role_for require_permission require_case_role
    require_case_access approve_report submit_report freeze_for_submission update_where last_version
    approvable has_case_role
drafted-IsSound =
    create_report-IsSound world bo 1 "closing" none no_reports drafted no_reports-IsSound refl

abbrev waiting : ReportStore
unfolding create_report act_on_report do_report role_for require_permission require_case_role
    require_case_access approve_report submit_report freeze_for_submission update_where last_version
    approvable has_case_role
waiting = result_or drafted (act_on_report world bo [] 1 submit_it "" drafted)

waiting-IsSound : IsSound waiting
unfolding create_report act_on_report do_report role_for require_permission require_case_role
    require_case_access approve_report submit_report freeze_for_submission update_where last_version
    approvable has_case_role
waiting-IsSound =
    act_on_report-IsSound world bo [] 1 submit_it "" drafted waiting drafted-IsSound refl

abbrev delivered : ReportStore
unfolding create_report act_on_report do_report role_for require_permission require_case_role
    require_case_access approve_report submit_report freeze_for_submission update_where last_version
    approvable has_case_role
delivered = result_or waiting (act_on_report world bo [] 1 approve_it "" waiting)

act_on_report-IsSound_example : IsSound delivered
unfolding create_report act_on_report do_report role_for require_permission require_case_role
    require_case_access approve_report submit_report freeze_for_submission update_where last_version
    approvable has_case_role
act_on_report-IsSound_example =
    act_on_report-IsSound world bo [] 1 approve_it "" waiting delivered waiting-IsSound refl

abbrev reviewed : Report
reviewed = record {
  id = 1;
  case_id = 1;
  version = 1;
  title = "closing";
  template_id = none;
  status = in_review;
  basis_hash = "basis";
  prepared_by = "bo";
  reviewed_by = none;
  approved_by = none;
  return_reason = "";
  frozen_version_id = some 1;
  approved_version_id = none;
  content_hash = some "content";
  source_hash = some "source";
  superseded_by = none;
  row_version = 2;
}

abbrev approved_reports : ReportStore
unfolding create_report act_on_report do_report role_for require_permission require_case_role
    require_case_access approve_report submit_report freeze_for_submission update_where last_version
    approvable has_case_role
approved_reports = result_or waiting (approve_report world reviewed "bo" "" waiting)

approve_report-Current_example :
    (v : FrozenVersion) × (frozen_of waiting reviewed ≡ some v)
    × (in_review ≡ in_review)
    × Current world reviewed v
    × ApprovedWith reviewed v "bo" approved_reports.reports
    × (any
          (λ r.
            (r.case_id == reviewed.case_id)
            && (has_status r.status approved && not (r.id == reviewed.id)))
          approved_reports.reports
        ≡ false)
    × AllReplaced reviewed waiting.reports approved_reports.reports
unfolding create_report act_on_report do_report role_for require_permission require_case_role
    require_case_access approve_report submit_report freeze_for_submission update_where last_version
    approvable has_case_role
approve_report-Current_example =
    approve_report-Current world reviewed "bo" "" waiting approved_reports refl
