-- ===== src/CaseReports/Approval.antt =====
-- app/case_reports.py: the approved reports of a case.
use law_review_local.CaseReports.{
  sent_back, voided, ReportStore, World, submit_report, return_report, approve_report, void_report,
  draft, returned, freeze_for_submission, submitted, approvable, frozen_of, Report, FrozenVersion,
  has_status, approved, in_review, update_where, same_row, others_approved, superseded, granted,
  do_report, create_report, act_on_report, load_report, ReportAction, new_report, last_version,
  review_label, submit_it, return_it, approve_it, void_it,
}
use law_review_local.Common.{
  ℕ, ◌+◌, ◌≤◌, ◌≡◌, refl, arith, Bool, false, ◌&&◌, not, ◌==◌, List, [], ◌∷◌, count, String, find?,
  some, ok, >>=-eq-ok, require, ◌∙◌, ◌||◌, Bool-cases, inl, ==_iff, inr, Option, ◌++◌, count-append,
  ap,
}
use law_review_local.Access.{
  Principal, require_case_access, require_permission, edit, require_case_role, approve,
  review_roles,
}

abbrev pub with_id : ℕ → Report → Bool
with_id i r = r.id == i

abbrev pub approved_in : ℕ → Report → Bool
approved_in c r = (r.case_id == c) && has_status r.status approved

-- An update that keeps what is counted keeps the count.
count-update_where :
    (p test : Report → Bool) (f : Report → Report) (rs : List Report)
    → ((r : Report) → p (f r) ≡ p r)
    → count p (update_where test f rs) ≡ count p rs
unfolding update_where
count-update_where p test f [] h = refl
count-update_where p test f (r ∷ rs) h = ground (arith, h r, count-update_where p test f rs h)

-- An update to rows that do not count lowers the count, if anything.
count-update_where_le :
    (p test : Report → Bool) (f : Report → Report) (rs : List Report)
    → ((r : Report) → p (f r) ≡ false)
    → count p (update_where test f rs) ≤ count p rs
unfolding update_where
count-update_where_le p test f [] h = omega arith
count-update_where_le p test f (r ∷ rs) h = ground (arith, h r, count-update_where_le p test f rs h)

-- The reports after an approval.
abbrev pub approved_list : Report → FrozenVersion → String → List Report → List Report
approved_list row v actor rs =
    update_where (same_row row in_review) (granted v actor)
      (update_where (others_approved row) (superseded row.id) rs)

in_case :
    (row : Report) (v : FrozenVersion) (actor : String) (rs : List Report)
    → count (approved_in row.case_id) (approved_list row v actor rs) ≤ count (with_id row.id) rs
unfolding update_where
in_case row v actor [] = omega arith
in_case row v actor (r ∷ rs) = ground (arith, in_case row v actor rs)

-- The rows with the report's id in another case.
abbrev stray : Report → Report → Bool
stray row r = (r.id == row.id) && not (r.case_id == row.case_id)

elsewhere :
    (row : Report) (v : FrozenVersion) (actor : String) (c : ℕ) (rs : List Report)
    → (row.case_id == c) ≡ false
    → count (approved_in c) (approved_list row v actor rs)
      ≤ count (approved_in c) rs + count (stray row) rs
unfolding update_where
elsewhere row v actor c [] h = omega arith
elsewhere row v actor c (r ∷ rs) h = ground (arith, elsewhere row v actor c rs h)

stray-le : (row : Report) (rs : List Report) → count (stray row) rs ≤ count (with_id row.id) rs
stray-le row [] = omega arith
stray-le row (r ∷ rs) = ground (arith, stray-le row rs)

found-with_id :
    (i : ℕ) (row : Report) (rs : List Report) → find? (with_id i) rs ≡ some row → row.id ≡ i
found-with_id i row [] h = absurd (ground arith)
found-with_id i row (r ∷ rs) h = ground (arith, found-with_id i row rs)

no_stray :
    (i : ℕ) (row : Report) (rs : List Report)
    → find? (with_id i) rs ≡ some row
    → row.id ≡ i
    → count (with_id i) rs ≤ 1
    → count (stray row) rs ≡ 0
no_stray i row [] h e u = refl
no_stray i row (r ∷ rs) h e u = ground (arith, no_stray i row rs, stray-le row rs)

-- The ids are distinct and below the next one, and no case has two approved reports.
pub record IsSound (s : ReportStore) : Type 0 where
  pub unique : (i : ℕ) → count (with_id i) s.reports ≤ 1
  pub known : (i : ℕ) → s.next_id ≤ i → count (with_id i) s.reports ≡ 0
  pub single : (c : ℕ) → count (approved_in c) s.reports ≤ 1

-- A change of rows that keeps the ids and the next id, and approves none.
demoted :
    (test : Report → Bool) (f : Report → Report) (s s' : ReportStore)
    → ((i : ℕ) (r : Report) → with_id i (f r) ≡ with_id i r)
    → ((c : ℕ) (r : Report) → approved_in c (f r) ≡ false)
    → s'.reports ≡ update_where test f s.reports
    → s'.next_id ≡ s.next_id
    → IsSound s
    → IsSound s'
demoted test f s s' ids low e n v = record {
  unique = λ i. rw (e, count-update_where (with_id i) test f s.reports (ids i)) (v.unique i);
  known = λ i h.
      rw (e, count-update_where (with_id i) test f s.reports (ids i)) (v.known i (rw (← n) h));
  single = λ c.
      rw e
        (omega (arith, count-update_where_le (approved_in c) test f s.reports (low c), v.single c));
}

submit_report-IsSound :
    (w : World) (row : Report) (actor : String) (s s' : ReportStore)
    → submit_report w row actor s ≡ ok s'
    → IsSound s
    → IsSound s'
unfolding submit_report
submit_report-IsSound w row actor s s' h v =
    let (u, a, rest) =
      >>=-eq-ok (require (has_status row.status draft || has_status row.status returned) 409 _) _
        h in
    let (fv, b, rest) = >>=-eq-ok (freeze_for_submission w row actor s) _ rest in
    demoted (same_row row row.status) (submitted w fv actor) s s' (λ i r. refl)
      (λ c r. ground arith) (ground arith) (ground arith) v

return_report-IsSound :
    (w : World) (row : Report) (actor note : String) (s s' : ReportStore)
    → return_report w row actor note s ≡ ok s'
    → IsSound s
    → IsSound s'
unfolding return_report
return_report-IsSound w row actor note s s' h v =
    demoted (λ r. r.id == row.id) (sent_back actor (w.strip note)) s s' (λ i r. refl)
      (λ c r. ground arith) (ground arith) (ground arith) v

void_report-IsSound :
    (w : World) (row : Report) (actor note : String) (s s' : ReportStore)
    → void_report w row actor note s ≡ ok s'
    → IsSound s
    → IsSound s'
unfolding void_report
void_report-IsSound w row actor note s s' h v =
    demoted (λ r. r.id == row.id) voided s s' (λ i r. refl) (λ c r. ground arith) (ground arith)
      (ground arith) v

approve_report-IsSound :
    (w : World) (row : Report) (actor note : String) (s s' : ReportStore)
    → find? (with_id row.id) s.reports ≡ some row
    → approve_report w row actor note s ≡ ok s'
    → IsSound s
    → IsSound s'
unfolding approve_report
approve_report-IsSound w row actor note s s' f h v =
    let (u, a, rest) = >>=-eq-ok (require (has_status row.status in_review) 409 _) _ h in
    let (fv, b, rest) = >>=-eq-ok (approvable w row (frozen_of s row)) _ rest in
    let e : s'.reports ≡ approved_list row fv actor s.reports = ground arith in
    let n : s'.next_id ≡ s.next_id = ground arith in
    let ids : (i : ℕ)
        → count (with_id i) (approved_list row fv actor s.reports) ≡ count (with_id i) s.reports =
      λ i.
        count-update_where (with_id i) (same_row row in_review) (granted fv actor) _ (λ r. refl)
        ∙ count-update_where (with_id i) (others_approved row) (superseded row.id) s.reports
            (λ r. refl) in
    record {
      unique = λ i. rw (e, ids i) (v.unique i);
      known = λ i k. rw (e, ids i) (v.known i (rw (← n) k));
      single = λ c. rw e (elim (Bool-cases (row.case_id == c)) [
        | inl here ↦
            rw (← (==_iff row.case_id c).0 here)
              (omega (arith, in_case row fv actor s.reports, v.unique row.id))
        | inr there ↦ omega (
          arith,
          elsewhere row fv actor c s.reports there,
          v.single c,
          no_stray row.id row s.reports f refl (v.unique row.id),
        )
      ]);
    }

do_report-IsSound :
    (w : World) (p : Principal) (row : Report) (note : String) (s s' : ReportStore)
    (a : ReportAction)
    → find? (with_id row.id) s.reports ≡ some row
    → do_report w p row note s a ≡ ok s'
    → IsSound s
    → IsSound s'
unfolding do_report
do_report-IsSound w p row note s s' submit_it f h v =
    let (u, a, rest) = >>=-eq-ok (require_permission p edit (some row.case_id)) _ h in
    submit_report-IsSound w row p.name s s' rest v
do_report-IsSound w p row note s s' return_it f h v =
    let (u, a, rest) =
      >>=-eq-ok (require_case_role p approve row.case_id review_roles review_label) _ h in
    return_report-IsSound w row p.name note s s' rest v
do_report-IsSound w p row note s s' approve_it f h v =
    let (u, a, rest) =
      >>=-eq-ok (require_case_role p approve row.case_id review_roles review_label) _ h in
    approve_report-IsSound w row p.name note s s' f rest v
do_report-IsSound w p row note s s' void_it f h v =
    let (u, a, rest) =
      >>=-eq-ok (require_case_role p approve row.case_id review_roles review_label) _ h in
    void_report-IsSound w row p.name note s s' rest v

load_report-found :
    (s : ReportStore) (i : ℕ) (row : Report)
    → load_report s i ≡ ok row
    → find? (with_id row.id) s.reports ≡ some row
load_report-found s i row h =
    let f : find? (with_id i) s.reports ≡ some row = ground arith in
    ap (λ j. find? (with_id j) s.reports) (found-with_id i row s.reports f) ∙ f

-- A successful action on a report keeps the store sound: the ids stay distinct, and no case gets a
-- second approved report.
pub act_on_report-IsSound :
    (w : World) (p : Principal) (hidden : List ℕ) (i : ℕ) (a : ReportAction) (note : String)
    (s s' : ReportStore)
    → IsSound s
    → act_on_report w p hidden i a note s ≡ ok s'
    → IsSound s'
unfolding act_on_report
act_on_report-IsSound w p hidden i a note s s' v h =
    let (row, l, rest) = >>=-eq-ok (load_report s i) _ h in
    let (u, b, rest) = >>=-eq-ok (require_case_access p hidden row.case_id) _ rest in
    let (t, d, last) = >>=-eq-ok (do_report w p row note s a) _ rest in
    let r = do_report-IsSound w p row note s t a (load_report-found s i row l) d v in
    let reports : s'.reports ≡ t.reports = ground arith in
    let next : s'.next_id ≡ t.next_id = ground arith in
    record {
      unique = λ j. rw reports (r.unique j);
      known = λ j k. rw reports (r.known j (rw (← next) k));
      single = λ c. rw reports (r.single c);
    }

-- The creation of a report keeps the store sound.
pub create_report-IsSound :
    (w : World) (p : Principal) (c : ℕ) (title : String) (template : Option ℕ) (s s' : ReportStore)
    → IsSound s
    → create_report w p c title template s ≡ ok s'
    → IsSound s'
unfolding create_report
create_report-IsSound w p c title template s s' v h =
    let new : Report =
      new_report w s.next_id c (last_version c s.reports + 1) title template p.name in
    let e : s'.reports ≡ s.reports ++ new ∷ [] = ground arith in
    let n : s'.next_id ≡ s.next_id + 1 = ground arith in
    record {
      unique = λ i. rw (e, count-append) (ground (arith, v.unique i, v.known i));
      known = λ i k. rw (e, count-append) (ground (arith, n, v.known i));
      single = λ d. rw (e, count-append) (ground (arith, v.single d));
    }
