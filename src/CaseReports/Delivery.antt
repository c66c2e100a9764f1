-- ===== src/CaseReports/Delivery.antt =====
-- app/case_reports.py: what an approval covers.
use law_review_local.CaseReports.{
  World, Report, approve_report, approvable, FrozenVersion, ReportStore, frozen_of, has_status,
  in_review, ReportStatus, update_where, approved, same_row, void, others_approved, superseded,
  granted,
}
use law_review_local.Common.{
  ◌≡◌, ok, Option, String, some, arith, >>=-eq-ok, require, true, str_eq, ◌&&◌, require-eq-ok, ◌==◌,
  ◌∙◌, ap, str_eq_iff, none, refl, ◌⊎◌, any, List, [], count, Bool, ◌∷◌, Mem, ◌≤◌, not, Bool-cases,
  false, inl, mem-cons_self, inr, mem-cons_of_mem, ==_iff,
}
use law_review_local.CaseReports.Approval.{approved_list}

-- The tests that a frozen version has passed.
abbrev pub Current : World → Report → FrozenVersion → Type 0
Current w row v =
    (w.verified v ≡ ok tt)
    × (w.source row.case_id row.template_id ≡ ok v.source_hash)
    × (w.sheet_sha row.case_id ≡ v.sheet_sha)
    × (w.sheet_count row.case_id ≡ v.sheet_count)

approvable-Current :
    (w : World) (row : Report) (o : Option FrozenVersion) (v' : FrozenVersion)
    → approvable w row o ≡ ok v'
    → (o ≡ some v') × Current w row v'
unfolding approvable
approvable-Current w row none v' h = absurd (ground arith)
approvable-Current w row (some v) v' h =
    let (x, ver, more) = >>=-eq-ok (w.verified v) _ h in
    let (live, src, more) = >>=-eq-ok (w.source row.case_id row.template_id) _ more in
    let (y, hash, more) = >>=-eq-ok (require (str_eq live v.source_hash) 409 _) _ more in
    let (z, sheet, last) =
      >>=-eq-ok
        (require
          (str_eq (w.sheet_sha row.case_id) v.sheet_sha
            && (w.sheet_count row.case_id == v.sheet_count))
          409 _)
        _ more in
    let same : v ≡ v' = ground (arith, last) in
    let hashes : str_eq live v.source_hash ≡ true = require-eq-ok _ 409 _ hash in
    let sheets : (str_eq (w.sheet_sha row.case_id) v.sheet_sha
          && (w.sheet_count row.case_id == v.sheet_count))
        ≡ true =
      require-eq-ok _ 409 _ sheet in
    let sha : str_eq (w.sheet_sha row.case_id) v.sheet_sha ≡ true = ground (arith, sheets) in
    rw (← same) (
      refl,
      (
        ver,
        src ∙ ap ok ((str_eq_iff live v.source_hash).0 hashes),
        (str_eq_iff (w.sheet_sha row.case_id) v.sheet_sha).0 sha,
        ground (arith, sheets),
      ),
    )

-- The report at hand is there as approved by an actor with a version.
abbrev pub ApprovedWith : Report → FrozenVersion → String → List Report → Type 0
ApprovedWith row v actor rs =
    (r : Report) × Mem r rs
    × (r.id ≡ row.id)
    × (r.status ≡ approved)
    × (r.approved_version_id ≡ some v.id)
    × (r.content_hash ≡ some v.content_hash)
    × (r.source_hash ≡ some v.source_hash)
    × (r.approved_by ≡ some actor)

-- A row as it was, the row of the report at hand, or one that this report has superseded.
abbrev pub Replaced : Report → Report → Report → Type 0
Replaced row r x =
    (x ≡ r)
    ⊎ ((x.id ≡ r.id)
        × ((r.id ≡ row.id)
            ⊎ ((r.case_id ≡ row.case_id)
                × (r.status ≡ approved)
                × (x.status ≡ void)
                × (x.superseded_by ≡ some row.id))))

abbrev pub AllReplaced : Report → List Report → List Report → Type 0
AllReplaced row [] [] = Unit {0}
AllReplaced row [] (x ∷ xs) = true ≡ false
AllReplaced row (r ∷ rs) [] = true ≡ false
AllReplaced row (r ∷ rs) (x ∷ xs) = Replaced row r x × AllReplaced row rs xs

updated_there :
    (q : Report → Bool) (f : Report → Report) (rs : List Report)
    → 1 ≤ count q rs
    → (r : Report) × (q r ≡ true) × Mem (f r) (update_where q f rs)
unfolding update_where
updated_there q f [] h = absurd (omega (arith, h))
updated_there q f (r ∷ rs) h = elim (Bool-cases (q r)) [
  | inl e ↦ (r, e, rw e mem-cons_self)
  | inr e ↦
      let (x, passes, there) = updated_there q f rs (ground (arith, e, h)) in
      (x, passes, rw e (mem-cons_of_mem r there))
]

approved_list-ApprovedWith :
    (row : Report) (v : FrozenVersion) (actor : String) (rs : List Report)
    → (count (same_row row in_review) (update_where (others_approved row) (superseded row.id) rs)
        == 1)
      ≡ true
    → ApprovedWith row v actor (approved_list row v actor rs)
approved_list-ApprovedWith row v actor rs h =
    let (r, passes, there) =
      updated_there (same_row row in_review) (granted v actor)
        (update_where (others_approved row) (superseded row.id) rs) (ground (arith, h)) in
    let own : (r.id == row.id) ≡ true = ground (arith, passes) in
    (granted v actor r, there, (==_iff r.id row.id).0 own, refl, refl, refl, refl, refl)

no_other_approved :
    (row : Report) (v : FrozenVersion) (actor : String) (rs : List Report)
    → any
        (λ r. (r.case_id == row.case_id) && (has_status r.status approved && not (r.id == row.id)))
        (approved_list row v actor rs)
      ≡ false
unfolding update_where
no_other_approved row v actor [] = refl
no_other_approved row v actor (r ∷ rs) = ground (arith, no_other_approved row v actor rs)

has_status-approved : (st : ReportStatus) → has_status st approved ≡ true → st ≡ approved
has_status-approved st h = ground (arith, h)

has_status-in_review : (st : ReportStatus) → has_status st in_review ≡ true → st ≡ in_review
has_status-in_review st h = ground (arith, h)

approved_list-AllReplaced :
    (row : Report) (v : FrozenVersion) (actor : String) (rs : List Report)
    → AllReplaced row rs (approved_list row v actor rs)
unfolding update_where
approved_list-AllReplaced row v actor [] = tt
approved_list-AllReplaced row v actor (r ∷ rs) =
    let rest = approved_list-AllReplaced row v actor rs in
    elim (Bool-cases (others_approved row r)) [
      | inl e ↦
          let case_same : (r.case_id == row.case_id) ≡ true = ground (arith, e) in
          let was : has_status r.status approved ≡ true = ground (arith, e) in
          let other : same_row row in_review (superseded row.id r) ≡ false = ground arith in
          rw (e, other)
            (
              inr (
                refl,
                inr (
                  (==_iff r.case_id row.case_id).0 case_same,
                  has_status-approved r.status was,
                  refl,
                  refl,
                ),
              ),
              rest,
            )
      | inr e ↦ elim (Bool-cases (same_row row in_review r)) [
        | inl here ↦
            let own : (r.id == row.id) ≡ true = ground (arith, here) in
            rw (e, here) (inr (refl, inl ((==_iff r.id row.id).0 own)), rest)
        | inr away ↦ rw (e, away) (inl refl, rest)
      ]
    ]

-- A successful approval covers the frozen version and leaves one report of the case to rely on: the
-- report awaited review, its frozen version is there and verified, and the live source and the
-- transaction sheet are those of that version; afterwards the report is approved by the actor with
-- the version's id and hashes, no report of the case with another id is approved, and every row with
-- another id is as it was, or it was an approved one of the case and is void now and superseded by the
-- report.
pub approve_report-Current :
    (w : World) (row : Report) (actor note : String) (s s' : ReportStore)
    → approve_report w row actor note s ≡ ok s'
    → (v : FrozenVersion) × (frozen_of s row ≡ some v)
      × (row.status ≡ in_review)
      × Current w row v
      × ApprovedWith row v actor s'.reports
      × (any
            (λ r.
              (r.case_id == row.case_id) && (has_status r.status approved && not (r.id == row.id)))
            s'.reports
          ≡ false)
      × AllReplaced row s.reports s'.reports
unfolding approve_report
approve_report-Current w row actor note s s' h =
    let (u, a, rest) = >>=-eq-ok (require (has_status row.status in_review) 409 _) _ h in
    let (v, b, rest) = >>=-eq-ok (approvable w row (frozen_of s row)) _ rest in
    let (z, c, last) =
      >>=-eq-ok
        (require
          (count (same_row row in_review)
              (update_where (others_approved row) (superseded row.id) s.reports)
            == 1)
          409 _)
        _ rest in
    let (e, now) = approvable-Current w row (frozen_of s row) v b in
    let same : s'.reports ≡ approved_list row v actor s.reports = ground arith in
    let waited : has_status row.status in_review ≡ true = require-eq-ok _ 409 _ a in
    (
      v,
      e,
      has_status-in_review row.status waited,
      now,
      rw same (approved_list-ApprovedWith row v actor s.reports (require-eq-ok _ 409 _ c)),
      rw same (no_other_approved row v actor s.reports),
      rw same (approved_list-AllReplaced row v actor s.reports),
    )
