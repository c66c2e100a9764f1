-- ===== src/CaseWalls/Visibility.antt =====
-- app/case_walls.py: who is kept out of a case, after each operation on its wall.
use law_review_local.Common.{
  ℕ, String, Bool, ◌&&◌, ◌≡◌, refl, some, List, [], ◌∷◌, arith, any, ◌==◌, ==_iff, Bool-cases, inl,
  inr, keep, str_eq, not, str_eq_iff, ◌||◌, if◌then◌else◌, any-append, ok,
}
use law_review_local.Access.{Principal}
use law_review_local.CaseWalls.{
  Wall, WallStore, shut_out, hidden_of, hidden_case_ids, has_wall, upsert_wall, is_insider,
  insider_rows, written_wall, Insider, set_wall, has_grant, clean_names,
}

-- Whether the case is among the hidden ones of a principal at a time.
abbrev pub hides : WallStore → Principal → ℕ → ℕ → Bool
hides s p t c = any (λ d. d == c) (hidden_case_ids s (some p) t)

any-hidden_of :
    (s : WallStore) (n : String) (t c : ℕ) (ws : List Wall)
    → any (λ d. d == c) (hidden_of s n t ws) ≡ (has_wall c ws && shut_out s n t c)
unfolding hidden_of
any-hidden_of s n t c [] = refl
any-hidden_of s n t c (w ∷ ws) = elim (Bool-cases (w.case_id == c)) [
  | inl e ↦ rw ((==_iff w.case_id c).0 e) (ground (arith, any-hidden_of s n t c ws))
  | inr e ↦ ground (arith, any-hidden_of s n t c ws)
]

-- A case is hidden exactly when it has a wall and the principal is neither an insider nor a
-- holder of a live grant.
pub hides_lem :
    (s : WallStore) (p : Principal) (t c : ℕ)
    → hides s p t c ≡ (has_wall c s.walls && shut_out s p.name t c)
unfolding hidden_case_ids
hides_lem s p t c = any-hidden_of s p.name t c s.walls

abbrev pub named : String → List String → Bool
named n ns = any (λ k. str_eq k n) ns

any-insider_rows :
    (c d : ℕ) (a n : String) (ns : List String)
    → any (λ i. (i.case_id == d) && str_eq i.principal_name n) (insider_rows c a ns)
      ≡ ((c == d) && named n ns)
any-insider_rows c d a n [] = ground arith
any-insider_rows c d a n (m ∷ ns) = elim (Bool-cases (str_eq m n)) [
  | inl e ↦ rw ((str_eq_iff m n).0 e) (ground (arith, any-insider_rows c d a n ns))
  | inr e ↦ ground (arith, any-insider_rows c d a n ns)
]

pub any-away {ℓ} :
    {A : Type ℓ} (f : A → ℕ) (q : A → Bool) (c d : ℕ) (xs : List A)
    → any (λ x. (f x == d) && q x) (keep (λ x. not (f x == c)) xs)
      ≡ (not (c == d) && any (λ x. (f x == d) && q x) xs)
any-away f q c d [] = ground arith
any-away f q c d (x ∷ xs) = ground (arith, any-away f q c d xs)

has_wall-upsert_wall :
    (v : Wall) (d : ℕ) (ws : List Wall)
    → has_wall d (upsert_wall v ws) ≡ ((v.case_id == d) || has_wall d ws)
unfolding upsert_wall
has_wall-upsert_wall v d [] = ground arith
has_wall-upsert_wall v d (w ∷ ws) = ground (arith, has_wall-upsert_wall v d ws)

is_insider-written_wall :
    (c d : ℕ) (a r n : String) (ns : List String) (s : WallStore)
    → is_insider (written_wall c a r ns s) d n ≡ (if c == d then named n ns else is_insider s d n)
unfolding is_insider written_wall
is_insider-written_wall c d a r n ns s = rw any-append (
    ground (
      arith,
      any-insider_rows c d a n ns,
      any-away (λ (i : Insider). i.case_id) (λ i. str_eq i.principal_name n) c d s.insiders,
    ))

has_wall-written_wall :
    (c d : ℕ) (a r : String) (ns : List String) (s : WallStore)
    → has_wall d (written_wall c a r ns s).walls ≡ ((c == d) || has_wall d s.walls)
unfolding written_wall
has_wall-written_wall c d a r ns s = has_wall-upsert_wall _ d s.walls

has_grant-written_wall :
    (c d t : ℕ) (a r n : String) (ns : List String) (s : WallStore)
    → has_grant (written_wall c a r ns s) d n t ≡ has_grant s d n t
unfolding has_grant written_wall
has_grant-written_wall c d t a r n ns s = refl

-- The visibility after a write, by the case: the wall's own, or another.
abbrev visibility_after : WallStore → Principal → List String → ℕ → ℕ → ℕ → Bool
visibility_after s q ns t c d =
    if c == d then not (named q.name ns) && not (has_grant s c q.name t) else hides s q t d

hides-written_wall :
    (c d t : ℕ) (a r : String) (ns : List String) (s : WallStore) (q : Principal)
    → hides (written_wall c a r ns s) q t d ≡ visibility_after s q ns t c d
unfolding shut_out
hides-written_wall c d t a r ns s q =
    rw (hides_lem (written_wall c a r ns s) q t d, hides_lem s q t d)
      (ground (
        arith,
        has_wall-written_wall c d a r ns s,
        has_grant-written_wall c d t a r q.name ns s,
        is_insider-written_wall c d a r q.name ns s,
      ))

-- After a successful `set_wall` on a case, at any time: that case is hidden from a principal,
-- administrators included, exactly when the stripped list does not name them and no grant made
-- earlier is live; the visibility of every other case is what it was.
pub hides-set_wall :
    (strip : String → String) (p q : Principal) (local_mode : Bool) (c d t : ℕ) (reason : String)
    (ns : List String) (s s' : WallStore)
    → set_wall strip p local_mode c reason ns s ≡ ok s'
    → hides s' q t d ≡ (
        if c == d
        then not (named q.name (clean_names strip ns)) && not (has_grant s c q.name t)
        else hides s q t d)
unfolding set_wall
hides-set_wall strip p q local_mode c d t reason ns s s' h =
    let e : s' ≡ written_wall c p.name (strip reason) (clean_names strip ns) s = ground arith in
    rw e (hides-written_wall c d t p.name (strip reason) (clean_names strip ns) s q)
