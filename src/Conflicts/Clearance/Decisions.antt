-- ===== src/Conflicts/Clearance/Decisions.antt =====
-- app/conflicts.py, `decide`: who may decide a check, what a decision changes, and two at once.
use law_review_local.Conflicts.Clearance.{
  CheckStatus, Check, ConflictStore, latest_check, clearance, status_of, settle, undecided,
  Decision, decided_status, decide, decide_between, admit_decision, pending,
}
use law_review_local.Common.{
  ℕ, String, List, ◌≡◌, Option, count, find?, if◌then◌else◌, ok, ◌==◌, ◌∷◌, some, none, arith, ◌||◌,
  true, [], refl, not, str_eq, ap, Option-cases, inl, inr, succeeded, false, Bool-cases,
  succeeded-ok, ◌≤◌, ◌<◌, ◌≢◌,
}
use law_review_local.Access.{Principal, has_for_case, manage, actor_name}

-- What the guarded update does to one row.
abbrev settled : ℕ → CheckStatus → String → String → Check → Check
settled i st a r k =
    if undecided i k
    then record k { status = st; decided_by = some a; decision_reason = some r }
    else k

abbrev settled? : ℕ → CheckStatus → String → String → Option Check → Option Check
settled? i st a r none = none
settled? i st a r (some k) = some (settled i st a r k)

find?-settle :
    (i c : ℕ) (st : CheckStatus) (a r : String) (ks : List Check)
    → find? (λ k. k.case_id == c) (settle i st a r ks)
      ≡ settled? i st a r (find? (λ k. k.case_id == c) ks)
unfolding settle
find?-settle i c st a r [] = refl
find?-settle i c st a r (k ∷ ks) = ground (arith, find?-settle i c st a r ks)

-- After the update no row with the id waits for a decision.
count-settle :
    (i : ℕ) (d : Decision) (a r : String) (ks : List Check)
    → count (undecided i) (settle i (decided_status d) a r ks) ≡ 0
unfolding settle
count-settle i d a r [] = refl
count-settle i d a r (k ∷ ks) = ground (arith, count-settle i d a r ks)

-- The check that a decision is made on, with what was tested of it.
pub record Admitted (p : Principal) (actor : String) (o : Option Check) (k : Check) : Type 0 where
  pub is_latest : o ≡ some k
  pub waits : k.status ≡ pending
  pub by_another : (p.local || not (str_eq k.requested_by actor)) ≡ true

admit_decision-Admitted :
    (p : Principal) (actor : String) (o : Option Check) {k : Check}
    → admit_decision p actor o ≡ ok k
    → Admitted p actor o k
unfolding admit_decision
admit_decision-Admitted p actor none h = cc
admit_decision-Admitted p actor (some j) {k} h = record {
  is_latest = ground arith;
  waits = ground arith;
  by_another = ground arith;
}

pub record Decided (p : Principal) (d : Decision) (reason : String) (c : ℕ)
    (read s s' : ConflictStore) : Type 0 where
  pub check : Check
  pub may_manage : has_for_case p manage none ≡ true
  pub admitted : Admitted p (actor_name p "本机律师") (latest_check read c) check
  pub still_waits : count (undecided check.id) s.checks ≡ 1
  pub checks : s'.checks ≡ settle check.id (decided_status d) (actor_name p "本机律师") reason s.checks

decide_between-Decided :
    (p : Principal) (hidden : List ℕ) (c : ℕ) (d : Decision) (reason : String)
    (read s s' : ConflictStore)
    → decide_between p hidden c d reason read s ≡ ok s'
    → Decided p d reason c read s s'
unfolding decide_between
decide_between-Decided p hidden c d reason read s s' h = elim (Option-cases (latest_check read c)) [
  | inl e ↦ absurd (ground arith)
  | inr (k, e) ↦ record {
    check = k;
    may_manage = ground arith;
    admitted = record { is_latest = e; waits = ground arith; by_another = ground arith };
    still_waits = ground arith;
    checks = ground arith;
  }
]

after-settle :
    (k : Check) (c : ℕ) (st : CheckStatus) (a r : String) (ks : List Check)
    → find? (λ j. j.case_id == c) ks ≡ some k
    → k.status ≡ pending
    → status_of (find? (λ j. j.case_id == c) (settle k.id st a r ks)) ≡ some st
after-settle k c st a r ks e w = rw (find?-settle k.id c st a r ks, e) (ground arith)

-- A successful decision was made by a holder of `manage` who, outside the local single-user mode,
-- is not the person who ran the check; the case was pending, and now it has the decided status.
pub decide-clearance :
    (p : Principal) (hidden : List ℕ) (c : ℕ) (d : Decision) (reason : String)
    (s s' : ConflictStore)
    → decide p hidden c d reason s ≡ ok s'
    → (has_for_case p manage none ≡ true)
      × (clearance s c ≡ some pending)
      × ((k : Check) × (latest_check s c ≡ some k)
          × ((p.local || not (str_eq k.requested_by (actor_name p "本机律师"))) ≡ true))
      × (clearance s' c ≡ some (decided_status d))
unfolding decide clearance latest_check
decide-clearance p hidden c d reason s s' h =
    let r = decide_between-Decided p hidden c d reason s s s' h in
    let k : Check = r.check in
    (
      r.may_manage,
      rw r.admitted.is_latest (ap some r.admitted.waits),
      (k, r.admitted.is_latest, r.admitted.by_another),
      rw r.checks (
          after-settle k c (decided_status d) (actor_name p "本机律师") reason s.checks
            r.admitted.is_latest r.admitted.waits),
    )

-- Two people who have read the same pending check cannot both decide it: once one decision is
-- written, the other, made on what was read before, is refused.
pub decide_between-once :
    (p q : Principal) (hidden hidden' : List ℕ) (c : ℕ) (d d' : Decision) (reason reason' : String)
    (read s s' : ConflictStore)
    → decide_between p hidden c d reason read s ≡ ok s'
    → succeeded (decide_between q hidden' c d' reason' read s') ≡ false
decide_between-once p q hidden hidden' c d d' reason reason' read s s' h =
    elim (Bool-cases (succeeded (decide_between q hidden' c d' reason' read s'))) [
      | inr e ↦ e
      | inl e ↦
          let (t, w) = succeeded-ok (decide_between q hidden' c d' reason' read s') e in
          let a = decide_between-Decided p hidden c d reason read s s' h in
          let b = decide_between-Decided q hidden' c d' reason' read s' t w in
          let same : a.check ≡ b.check = cc (a.admitted.is_latest, b.admitted.is_latest) in
          let none_waits : count (undecided a.check.id) s'.checks ≡ 0 =
            rw a.checks (count-settle a.check.id d (actor_name p "本机律师") reason s.checks) in
          let one_waits : count (undecided a.check.id) s'.checks ≡ 1 = rw same b.still_waits in
          absurd (omega (arith, none_waits, one_waits))
    ]

-- Ids fall along the list, from below a bound.
abbrev pub Falling : ℕ → List Check → Type 0
Falling n [] = Unit
Falling n (k ∷ ks) = (k.id < n) × Falling k.id ks

no_check_below :
    (i n : ℕ) (st : CheckStatus) (a r : String) (ks : List Check)
    → Falling n ks
    → n ≤ i
    → settle i st a r ks ≡ ks
unfolding settle
no_check_below i n st a r [] f h = refl
no_check_below i n st a r (k ∷ ks) f h =
    ground (arith, no_check_below i k.id st a r ks f.1 (omega arith))

found_below :
    (k : Check) (c n : ℕ) (ks : List Check)
    → Falling n ks
    → find? (λ j. j.case_id == c) ks ≡ some k
    → k.id < n
found_below k c n [] f e = cc
found_below k c n (j ∷ ks) f e = elim (Bool-cases (j.case_id == c)) [
  | inl here ↦ ground arith
  | inr there ↦ omega (arith, f.0, found_below k c j.id ks f.1 (ground arith))
]

-- With distinct ids the update of one check leaves the latest check of any other case.
find?-settle_ne :
    (k : Check) (c d n : ℕ) (st : CheckStatus) (a r : String) (ks : List Check)
    → Falling n ks
    → c ≢ d
    → find? (λ j. j.case_id == c) ks ≡ some k
    → find? (λ j. j.case_id == d) (settle k.id st a r ks) ≡ find? (λ j. j.case_id == d) ks
unfolding settle
find?-settle_ne k c d n st a r [] f ne e = refl
find?-settle_ne k c d n st a r (j ∷ ks) f ne e = elim (Bool-cases (j.case_id == c)) [
  | inl here ↦
      let same : j ≡ k = ground arith in
      let ids : j.id ≡ k.id = ap (λ (i : Check). i.id) same in
      let rest : settle k.id st a r ks ≡ ks =
        no_check_below k.id j.id st a r ks f.1 (omega (arith, ids)) in
      ground (arith, rest)
  | inr there ↦
      let later : find? (λ i. i.case_id == c) ks ≡ some k = ground arith in
      ground (
        arith,
        found_below k c j.id ks f.1 later,
        find?-settle_ne k c d j.id st a r ks f.1 ne later,
      )
]

-- A decision on one case leaves the status of every other case, as long as the ids of the checks
-- are distinct.
pub decide-clearance_ne :
    (p : Principal) (hidden : List ℕ) (c e : ℕ) (d : Decision) (reason : String)
    (s s' : ConflictStore)
    → Falling s.next_id s.checks
    → c ≢ e
    → decide p hidden c d reason s ≡ ok s'
    → clearance s' e ≡ clearance s e
unfolding decide clearance latest_check
decide-clearance_ne p hidden c e d reason s s' f ne h =
    let r = decide_between-Decided p hidden c d reason s s s' h in
    rw r.checks (
      ap status_of (
        find?-settle_ne r.check c e s.next_id (decided_status d) (actor_name p "本机律师") reason
          s.checks f ne r.admitted.is_latest))
