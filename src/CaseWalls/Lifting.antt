-- ===== src/CaseWalls/Lifting.antt =====
-- app/case_walls.py: break-glass access and the removal of a wall.
use law_review_local.CaseWalls.Visibility.{hides, hides_lem, any-away}
use law_review_local.CaseWalls.{
  break_glass, remove_wall, has_grant, is_insider, shut_out, granted, dropped_wall, WallStore,
  has_wall, Wall, Insider, Grant, break_glass_seconds,
}
use law_review_local.Common.{
  ℕ, List, String, any, ◌==◌, ◌≡◌, succeeded, keep, ok, ◌&&◌, not, false, str_eq, arith, ltb, ◌∷◌,
  ◌+◌, ◌||◌, [], refl,
}
use law_review_local.Access.{require_permission, has_for_case, role_for, Principal, has, manage}

has_grant-granted :
    (c d t u : ℕ) (a r n : String) (s : WallStore)
    → has_grant (granted c a r t s) d n u
      ≡ (((c == d) && (str_eq a n && ltb u (t + break_glass_seconds))) || has_grant s d n u)
unfolding has_grant granted
has_grant-granted c d t u a r n s = refl

has_wall-granted :
    (c d t : ℕ) (a r : String) (s : WallStore)
    → has_wall d (granted c a r t s).walls ≡ has_wall d s.walls
unfolding granted
has_wall-granted c d t a r s = refl

is_insider-granted :
    (c d t : ℕ) (a r n : String) (s : WallStore)
    → is_insider (granted c a r t s) d n ≡ is_insider s d n
unfolding granted is_insider
is_insider-granted c d t a r n s = refl

-- A successful break-glass call at time `t` opens the walled case to its caller alone, and only
-- before `t` plus `break_glass_seconds`: for every principal, case and time `u`, a case is hidden
-- afterwards exactly when it was hidden before and this grant does not cover it.
pub hides-break_glass :
    (strip : String → String) (p q : Principal) (c d t u : ℕ) (reason : String) (s s' : WallStore)
    → break_glass strip p c reason t s ≡ ok s'
    → hides s' q u d ≡ (
        hides s q u d
        && not ((c == d) && (str_eq p.name q.name && ltb u (t + break_glass_seconds))))
unfolding break_glass shut_out
hides-break_glass strip p q c d t u reason s s' h =
    let e : s' ≡ granted c p.name (strip reason) t s = ground arith in
    rw e (
      rw (hides_lem (granted c p.name (strip reason) t s) q u d, hides_lem s q u d)
        (ground (
          arith,
          has_wall-granted c d t p.name (strip reason) s,
          has_grant-granted c d t u p.name (strip reason) q.name s,
          is_insider-granted c d t p.name (strip reason) q.name s,
        )))

-- A break-glass call succeeds exactly for a holder of `manage`, on a case that has a wall, whose
-- insiders do not include the caller.
pub break_glass_succeeds :
    (strip : String → String) (p : Principal) (c t : ℕ) (reason : String) (s : WallStore)
    → succeeded (break_glass strip p c reason t s)
      ≡ (has p manage && (has_wall c s.walls && not (is_insider s c p.name)))
unfolding break_glass require_permission has_for_case role_for
break_glass_succeeds strip p c t reason s = ground arith

any-away-keep {ℓ} :
    {A : Type ℓ} (f : A → ℕ) (c d : ℕ) (xs : List A)
    → any (λ x. f x == d) (keep (λ x. not (f x == c)) xs) ≡ (not (c == d) && any (λ x. f x == d) xs)
any-away-keep f c d [] = ground arith
any-away-keep f c d (x ∷ xs) = ground (arith, any-away-keep f c d xs)

has_grant-dropped_wall :
    (c d t : ℕ) (a r n : String) (s : WallStore)
    → has_grant (dropped_wall c a r s) d n t ≡ (not (c == d) && has_grant s d n t)
unfolding has_grant dropped_wall
has_grant-dropped_wall c d t a r n s =
    any-away (λ (g : Grant). g.case_id) (λ g. str_eq g.principal_name n && ltb t g.expires_at) c d
      s.grants

is_insider-dropped_wall :
    (c d : ℕ) (a r n : String) (s : WallStore)
    → is_insider (dropped_wall c a r s) d n ≡ (not (c == d) && is_insider s d n)
unfolding is_insider dropped_wall
is_insider-dropped_wall c d a r n s =
    any-away (λ (i : Insider). i.case_id) (λ i. str_eq i.principal_name n) c d s.insiders

has_wall-dropped_wall :
    (c d : ℕ) (a r : String) (s : WallStore)
    → has_wall d (dropped_wall c a r s).walls ≡ (not (c == d) && has_wall d s.walls)
unfolding dropped_wall
has_wall-dropped_wall c d a r s = any-away-keep (λ (w : Wall). w.case_id) c d s.walls

-- After a successful `remove_wall` the case is hidden from nobody, no insider or grant of the case
-- is left to take effect under a later wall, and every other case keeps its visibility.
pub hides-remove_wall :
    (strip : String → String) (p q : Principal) (c d t : ℕ) (reason : String) (s s' : WallStore)
    → remove_wall strip p c reason s ≡ ok s'
    → (hides s' q t d ≡ (not (c == d) && hides s q t d))
      × (is_insider s' c q.name ≡ false)
      × (has_grant s' c q.name t ≡ false)
unfolding remove_wall shut_out
hides-remove_wall strip p q c d t reason s s' h =
    let e : s' ≡ dropped_wall c p.name (strip reason) s = ground arith in
    rw e (
      rw (hides_lem (dropped_wall c p.name (strip reason) s) q t d, hides_lem s q t d)
          (ground (
            arith,
            has_wall-dropped_wall c d p.name (strip reason) s,
            has_grant-dropped_wall c d t p.name (strip reason) q.name s,
            is_insider-dropped_wall c d p.name (strip reason) q.name s,
          )),
      ground (arith, is_insider-dropped_wall c c p.name (strip reason) q.name s),
      ground (arith, has_grant-dropped_wall c c t p.name (strip reason) q.name s),
    )
