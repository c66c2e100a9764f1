-- ===== src/Middleware/Gate.antt =====
-- app/security.py, `AccessMiddleware.dispatch`: what an admitted and a refused request have met.
use law_review_local.Middleware.Dispatch.{
  admit_principal, admit_token, admit, Settings, admit_owned, case_rules, admit_mode, admit_loaded,
  identified, World, Admission, misconfigured, admitted, Request, Mode, verdict_of, refused,
  after_tests, with_members, request_principal, local_identity, token_identity, identity_providers,
  require_origin, local, token,
}
use law_review_local.Access.{
  Principal, require_case_access, require_permission, may_open, allowed_case_ids, has_for_case,
}
use law_review_local.Common.{
  Option, ℕ, String, Http, not, Bool, ◌≡◌, ◌≢◌, ok, some, any, true, >>=-eq-ok, some_inj, some≢none,
  str_eq, raise, refl, ◌||◌, sym, require, ap, Bool-cases, none, require-eq-ok, subst, false, ◌∙◌,
  arith, inl, succeeded, inr,
}
use law_review_local.CaseWalls.{
  shut_out, WallStore, has_wall, hidden_case_ids, is_insider, has_grant,
}
use law_review_local.Members.{MemberStore}
use law_review_local.Middleware.{owned_case, required_case_permission, under_api}
use law_review_local.CaseWalls.Visibility.{hides, hides_lem}
use law_review_local.Conflicts.Clearance.Gate.{enforce_clearance-passes, stops}
use law_review_local.Conflicts.Clearance.{writes, clearance_exempt, clearance}

pub refused≢admitted :
    {p q : Option Principal} {c k : Option ℕ} {n : ℕ} {e : String} → refused p c n e ≢ admitted q k
refused≢admitted = cc

pub misconfigured≢admitted : {q : Option Principal} {k : Option ℕ} → misconfigured ≢ admitted q k
misconfigured≢admitted = cc

pub admitted_parts :
    (p q : Option Principal) (c k : Option ℕ) → admitted p c ≡ admitted q k → (p ≡ q) × (c ≡ k)
admitted_parts p q c k h = (cc, cc)

verdict_of-admitted :
    (p q : Principal) (c k : Option ℕ) (m : Http (Unit {0}))
    → verdict_of p c m ≡ admitted (some q) k
    → (p ≡ q) × (c ≡ k) × (m ≡ ok tt)
verdict_of-admitted p q c k (ok done) h =
    let (same, at) = admitted_parts (some p) (some q) c k h in (some_inj same, at, refl)
verdict_of-admitted p q c k (raise n e) h = absurd (refused≢admitted h)

-- The owner of the path, and the three tests of `dispatch` on a case.
abbrev Passes : Settings → World → ℕ → Request → Principal → ℕ → Type 0
Passes d w t r p c =
    (owned_case d.digits d.number w.tables r.path ≡ ok (some c)) × (case_rules d w t r p c ≡ ok tt)

admit_owned-Passes :
    (d : Settings) (w : World) (t : ℕ) (r : Request) (p q : Principal) (c : ℕ) (o : Http (Option ℕ))
    → admit_owned d w t r p o ≡ admitted (some q) (some c)
    → (o ≡ ok (some c)) × (case_rules d w t r q c ≡ ok tt)
unfolding admit_owned
admit_owned-Passes d w t r p q c (raise n e) h = absurd (refused≢admitted h)
admit_owned-Passes d w t r p q c (ok none) h =
    let (same, at, rules) = verdict_of-admitted p q none (some c) _ h in absurd (some≢none (sym at))
admit_owned-Passes d w t r p q c (ok (some b)) h =
    let (same, at, rules) = verdict_of-admitted p q (some b) (some c) _ h in
    let (done, first, rest) = >>=-eq-ok (case_rules d w t r p b) _ rules in
    let here = some_inj at in
    (
      ap (λ z. ok (some z)) here,
      subst (λ z. case_rules d w t r q z ≡ ok tt) here
          (subst (λ z. case_rules d w t r z b ≡ ok tt) same first),
    )

admit_principal-Passes :
    (d : Settings) (w : World) (t : ℕ) (r : Request) (o : Option Principal) (p : Principal) (c : ℕ)
    → admit_principal d w t r o ≡ admitted (some p) (some c)
    → Passes d w t r p c
unfolding admit_principal
admit_principal-Passes d w t r none p c h =
    absurd (some≢none (sym (admitted_parts none (some p) none (some c) h).0))
admit_principal-Passes d w t r (some q) p c h = elim (Bool-cases (under_api r.path)) [
  | inl e ↦
      admit_owned-Passes d w t r q p c (owned_case d.digits d.number w.tables r.path)
        (ground (arith, e, h))
  | inr e ↦
      let at : admitted (some q) none ≡ admitted (some p) (some c) = ground (arith, e, h) in
      absurd (some≢none (sym (admitted_parts (some q) (some p) none (some c) at).1))
]

identified-Passes :
    (d : Settings) (w : World) (t : ℕ) (r : Request) (o : Http (Option Principal)) (p : Principal)
    (c : ℕ)
    → identified d w t r o ≡ admitted (some p) (some c)
    → Passes d w t r p c
unfolding identified
identified-Passes d w t r (raise n e) p c h = absurd (refused≢admitted h)
identified-Passes d w t r (ok o) p c h = admit_principal-Passes d w t r o p c h

Passes-with_members :
    (d : Settings) (w : World) (s : MemberStore) (t : ℕ) (r : Request) (p : Principal) (c : ℕ)
    → Passes d (with_members w s) t r p c
    → Passes d w t r p c
unfolding case_rules
Passes-with_members d w s t r p c h = h

admit_token-Passes :
    (d : Settings) (t : ℕ) (r : Request) (w : World) (o : Option Bool) (p : Principal) (c : ℕ)
    → (admit_token d t r w o).1 ≡ admitted (some p) (some c)
    → Passes d w t r p c
unfolding admit_token
admit_token-Passes d t r w none p c h = absurd (misconfigured≢admitted h)
admit_token-Passes d t r w (some false) p c h = absurd (misconfigured≢admitted h)
admit_token-Passes d t r w (some true) p c h =
    let found = request_principal d.identities t r w.members in
    Passes-with_members d w found.0 t r p c
      (identified-Passes d (with_members w found.0) t r (token_identity r found.1) p c h)

admit_mode-Passes :
    (d : Settings) (t : ℕ) (r : Request) (w : World) (m : Mode) (p : Principal) (c : ℕ)
    → (admit_mode d t r w m).1 ≡ admitted (some p) (some c)
    → Passes d w t r p c
unfolding admit_mode
admit_mode-Passes d t r w local p c h = identified-Passes d w t r (local_identity d r) p c h
admit_mode-Passes d t r w token p c h =
    admit_token-Passes d t r w (identity_providers d.environment_tokens w.members) p c h

after_tests-admitted :
    (w : World) (rest : World × Admission) (m : Http (Unit {0})) (q : Option Principal)
    (k : Option ℕ)
    → (after_tests w rest m).1 ≡ admitted q k
    → (rest.1 ≡ admitted q k) × (m ≡ ok tt)
after_tests-admitted w rest (raise n e) q k h = absurd (refused≢admitted h)
after_tests-admitted w rest (ok done) q k h = (h, refl)

abbrev FirstTests : Settings → ℕ → Request → World → Admission → Mode → Type 0
FirstTests d t r w a m =
    (any (λ h. str_eq h r.host) d.hosts ≡ true)
    × (require_origin m r ≡ ok tt)
    × ((admit_mode d t r w m).1 ≡ a)

admit_loaded-mode :
    (d : Settings) (t : ℕ) (r : Request) (w : World) (o : Option Mode) (q : Option Principal)
    (k : Option ℕ)
    → (admit_loaded d t r w o).1 ≡ admitted q k
    → (m : Mode) × (o ≡ some m) × FirstTests d t r w (admitted q k) m
unfolding admit_loaded
admit_loaded-mode d t r w none q k h = absurd (misconfigured≢admitted h)
admit_loaded-mode d t r w (some m) q k h =
    let (mode, tests) = after_tests-admitted w (admit_mode d t r w m) _ q k h in
    let (done, host, origin) =
      >>=-eq-ok (require (any (λ h. str_eq h r.host) d.hosts) 400 "不允许的 Host") _ tests in
    (m, refl, (require-eq-ok _ 400 _ host, origin, mode))

-- The mode of an admitted request, and what the first tests have let pass.
pub admit-mode :
    (d : Settings) (t : ℕ) (r : Request) (w : World) (q : Option Principal) (k : Option ℕ)
    → (admit d t r w).1 ≡ admitted q k
    → (m : Mode) × (d.mode ≡ some m) × FirstTests d t r w (admitted q k) m
unfolding admit
admit-mode d t r w q k h = admit_loaded-mode d t r w d.mode q k h

abbrev Allowed : Settings → ℕ → Request → World → Principal → ℕ → Type 0
Allowed d t r w p c =
    (may_open (allowed_case_ids p) c ≡ true)
    × ((not (has_wall c w.walls.walls)
          || (is_insider w.walls c p.name || has_grant w.walls c p.name t))
        ≡ true)
    × (has_for_case p (required_case_permission d.digits r.method r.path) (some c) ≡ true)
    × ((not (writes r.method)
          || (clearance_exempt d.digits r.path || not (stops (clearance w.conflicts c))))
        ≡ true)

insider_of :
    (s : WallStore) (p : Principal) (t c : ℕ)
    → not (hides s p t c) ≡ true
    → (not (has_wall c s.walls) || (is_insider s c p.name || has_grant s c p.name t)) ≡ true
unfolding shut_out
insider_of s p t c h = ground (arith, h, hides_lem s p t c)

case_rules-allows :
    (d : Settings) (w : World) (t : ℕ) (r : Request) (p : Principal) (c : ℕ)
    → case_rules d w t r p c ≡ ok tt
    → Allowed d t r w p c
unfolding case_rules require_case_access require_permission
case_rules-allows d w t r p c h =
    let (a, access, rest) =
      >>=-eq-ok (require_case_access p (hidden_case_ids w.walls (some p) t) c) _ h in
    let (b, permission, clear) =
      >>=-eq-ok (require_permission p (required_case_permission d.digits r.method r.path) (some c))
        _ rest in
    let (u, mine, seen) = >>=-eq-ok (require (may_open (allowed_case_ids p) c) 404 _) _ access in
    (
      require-eq-ok _ 404 _ mine,
      insider_of w.walls p t c (require-eq-ok _ 404 _ seen),
      require-eq-ok _ 403 _ permission,
      sym (enforce_clearance-passes d.digits w.conflicts c r.method r.path) ∙ ap succeeded clear,
    )

-- A request that reaches its handler with a case: the path belongs to that case, the principal may
-- open it, is one of its insiders or holds a live grant if it has a wall, has the permission that the
-- method and the path take, and a pending or rejected conflict check stops no request but the
-- readings and the exempt paths.
pub admit-cleared :
    (d : Settings) (t : ℕ) (r : Request) (w : World) (p : Principal) (c : ℕ)
    → (admit d t r w).1 ≡ admitted (some p) (some c)
    → (owned_case d.digits d.number w.tables r.path ≡ ok (some c))
      × (may_open (allowed_case_ids p) c ≡ true)
      × ((not (has_wall c w.walls.walls)
            || (is_insider w.walls c p.name || has_grant w.walls c p.name t))
          ≡ true)
      × (has_for_case p (required_case_permission d.digits r.method r.path) (some c) ≡ true)
      × ((not (writes r.method)
            || (clearance_exempt d.digits r.path || not (stops (clearance w.conflicts c))))
          ≡ true)
admit-cleared d t r w p c h =
    let (m, at, (host, origin, mode)) = admit-mode d t r w (some p) (some c) h in
    let (owner, rules) = admit_mode-Passes d t r w m p c mode in
    let (mine, inside, permitted, cleared) = case_rules-allows d w t r p c rules in
    (owner, mine, inside, permitted, cleared)
