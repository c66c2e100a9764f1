-- ===== src/Members/Directory.antt =====
-- app/members.py: administrators, and the access of a member who is deactivated.
use law_review_local.Members.{
  Member, MemberUpdate, update_members, another_admin, lowers, deactivate_member, update_member,
  revoke_sessions, Deployment, MemberStore, opened_by, principal_for_fingerprint,
  require_token_mode, require_member, checked_name, checked_permissions, no_change, is_self,
  find_member, load_principal, after_update, Token, live_token, is_false, AuthSession, is_active,
}
use law_review_local.Common.{
  ℕ, ◌≤◌, ◌≡◌, arith, Bool, true, false, ◌&&◌, ◌==◌, List, [], ◌∷◌, count, any, find?, some, String,
  ok, >>=-eq-ok, ◌≢◌, none, require, not, ◌||◌, require-eq-ok, ap, ◌∙◌, sym, refl, some_inj, keep,
  Bool-cases, inr, inl, Option-cases, Option,
}
use law_review_local.Access.{Principal, require_permission, manage}

abbrev pub is_live_admin : Member → Bool
is_live_admin m = m.active && m.is_admin

ok_inj {ℓ} : {A : Type ℓ} {a b : A} → ok a ≡ ok b → a ≡ b
ok_inj h = cc

others_stay :
    (i : ℕ) (u : MemberUpdate) (ms : List Member)
    → any (another_admin i) ms ≡ true
    → any is_live_admin (update_members i u ms) ≡ true
unfolding update_members
others_stay i u [] h = cc h
others_stay i u (m ∷ ms) h = ground (arith, others_stay i u ms)

raised_stay :
    (i : ℕ) (u : MemberUpdate) (ms : List Member)
    → lowers u ≡ false
    → any is_live_admin ms ≡ true
    → any is_live_admin (update_members i u ms) ≡ true
unfolding update_members
raised_stay i u [] l h = cc h
raised_stay i u (m ∷ ms) l h = ground (arith, raised_stay i u ms)

absent_others :
    (i : ℕ) (ms : List Member)
    → count (λ m. m.id == i) ms ≡ 0
    → any is_live_admin ms ≡ true
    → any (another_admin i) ms ≡ true
absent_others i [] u h = h
absent_others i (m ∷ ms) u h = ground (arith, absent_others i ms)

-- If the member at hand is no administrator, another one is.
others_admin :
    (i : ℕ) (row : Member) (ms : List Member)
    → find? (λ m. m.id == i) ms ≡ some row
    → row.is_admin ≡ false
    → count (λ m. m.id == i) ms ≤ 1
    → any is_live_admin ms ≡ true
    → any (another_admin i) ms ≡ true
others_admin i row [] f a u h = h
others_admin i row (m ∷ ms) f a u h = ground (arith, others_admin i row ms, absent_others i ms)

found_updated :
    (i j : ℕ) (u : MemberUpdate) (ms : List Member) (m : Member)
    → u.active ≡ some false
    → find? (λ n. n.id == j) (update_members i u ms) ≡ some m
    → i ≡ j
    → m.active ≡ false
unfolding update_members
found_updated i j u [] m a f e = absurd (ground arith)
found_updated i j u (n ∷ ms) m a f e = ground (arith, found_updated i j u ms m)

-- What a successful update has found and done.
record Changed (e : Deployment) (i : ℕ) (b : MemberUpdate) (s s' : MemberStore) : Type 0 where
  row : Member
  change : MemberUpdate
  active : change.active ≡ b.active
  found : find_member s i ≡ some row
  guard :
      (not (lowers change && row.is_admin)
        || (any (another_admin i) s.members || e.environment_admin))
      ≡ true
  now :
      s'
      ≡ after_update i
          (is_false change.active)
          (record s { members = update_members i change s.members })

found_member :
    (s : MemberStore) (i : ℕ) (row : Member)
    → require_member s i ≡ ok row
    → find_member s i ≡ some row
found_member s i row h = ground arith

update_member-Changed :
    (e : Deployment) (p : Principal) (i : ℕ) (b : MemberUpdate) (s s' : MemberStore)
    → update_member e p i b s ≡ ok s'
    → Changed e i b s s'
unfolding update_member revoke_sessions
update_member-Changed e p i b s s' h =
    let (x, a, rest) = >>=-eq-ok (require_permission p manage none) _ h in
    let (x, a, rest) = >>=-eq-ok (require_token_mode e) _ rest in
    let (row, f, rest) = >>=-eq-ok (require_member s i) _ rest in
    let (name, a, rest) = >>=-eq-ok (checked_name e s i b.name) _ rest in
    let (permissions, a, rest) = >>=-eq-ok (checked_permissions b.permissions) _ rest in
    let u : MemberUpdate = record b { name = name; permissions = permissions } in
    let (x, a, rest) = >>=-eq-ok (require (not (no_change u)) 400 _) _ rest in
    let (x, a, rest) = >>=-eq-ok (require (not (is_self p.member_id i && lowers u)) 409 _) _ rest in
    let (x, kept, last) =
      >>=-eq-ok
        (require
          (not (lowers u && row.is_admin)
            || (any (another_admin i) s.members || e.environment_admin))
          409 _)
        _ rest in
    record {
      row = row;
      change = u;
      active = refl;
      found = found_member s i row f;
      guard = require-eq-ok _ 409 _ kept;
      now = ok_inj (sym last);
    }

members-after_update :
    (i : ℕ) (lost : Bool) (s : MemberStore) → (after_update i lost s).members ≡ s.members
unfolding revoke_sessions
members-after_update i true s = refl
members-after_update i false s = refl

-- An update that goes through leaves an active administrator in the directory, if there was one and
-- none is configured in the environment; the id of the member is taken to be its own.
pub update_member-keeps_admin :
    (e : Deployment) (p : Principal) (i : ℕ) (b : MemberUpdate) (s s' : MemberStore)
    → e.environment_admin ≡ false
    → count (λ m. m.id == i) s.members ≤ 1
    → any is_live_admin s.members ≡ true
    → update_member e p i b s ≡ ok s'
    → any is_live_admin s'.members ≡ true
update_member-keeps_admin e p i b s s' outside unique before h =
    let c = update_member-Changed e p i b s s' h in
    let same : s'.members ≡ update_members i c.change s.members =
      ap (λ (t : MemberStore). t.members) c.now
      ∙ members-after_update i (is_false c.change.active) _ in
    let guard = c.guard in
    rw same (elim (Bool-cases (lowers c.change)) [
      | inr raised ↦ raised_stay i c.change s.members raised before
      | inl lowered ↦ elim (Bool-cases c.row.is_admin) [
        | inl admin ↦
            others_stay i c.change s.members (ground (arith, guard, admin, lowered, outside))
        | inr plain ↦
            others_stay i c.change s.members
              (others_admin i c.row s.members c.found plain unique before)
      ]
    ])

no_opened :
    (i : ℕ) (ts : List Token) (xs : List AuthSession)
    → any (opened_by i ts) (keep (λ x. not (opened_by i ts x)) xs) ≡ false
no_opened i ts [] = refl
no_opened i ts (x ∷ xs) = ground (arith, no_opened i ts xs)

live_owner :
    (s : MemberStore) (f : String) (t : Token) (ts : List Token)
    → find? (live_token s f) ts ≡ some t
    → is_active (find_member s t.member_id) ≡ true
live_owner s f t [] h = absurd (ground arith)
live_owner s f t (u ∷ ts) h = ground (arith, live_owner s f t ts)

found-with_member_id :
    (i : ℕ) (m : Member) (ms : List Member) → find? (λ n. n.id == i) ms ≡ some m → m.id ≡ i
found-with_member_id i m [] h = absurd (ground arith)
found-with_member_id i m (n ∷ ms) h = ground (arith, found-with_member_id i m ms)

-- A principal that a token identifies is an active member under its own id.
pub identified :
    (s : MemberStore) (f : String) (q : Principal)
    → principal_for_fingerprint s f ≡ some q
    → (m : Member) × (find_member s m.id ≡ some m) × (m.active ≡ true) × (q.member_id ≡ some m.id)
unfolding principal_for_fingerprint load_principal
identified s f q h = elim (Option-cases (find? (live_token s f) s.tokens)) [
  | inl e ↦ absurd (ground (arith, e))
  | inr (t, e) ↦
      let live : is_active (find_member s t.member_id) ≡ true = live_owner s f t s.tokens e in
      elim (Option-cases (find_member s t.member_id)) [
        | inl z ↦ absurd (ground (arith, z, live))
        | inr (m, z) ↦
            let own : m.id ≡ t.member_id = found-with_member_id t.member_id m s.members z in
            let principal : load_principal s m ≡ q = ground (arith, z, e) in
            (
              m,
              ap (λ j. find_member s j) own ∙ z,
              ground (arith, z, live),
              sym (ap (λ (x : Principal). x.member_id) principal),
            )
      ]
]

-- What a deactivation leaves: the sessions without the member's, and the member's row inactive.
abbrev Deactivated : ℕ → MemberStore → MemberStore → Type 0
Deactivated i s s' =
    (u : MemberUpdate) × (u.active ≡ some false)
    × (s' ≡ revoke_sessions i (record s { members = update_members i u s.members }))

deactivate_member-Deactivated :
    (e : Deployment) (p : Principal) (i : ℕ) (s s' : MemberStore)
    → deactivate_member e p i s ≡ ok s'
    → Deactivated i s s'
unfolding deactivate_member revoke_sessions
deactivate_member-Deactivated e p i s s' h =
    let b : MemberUpdate = record {
      name = none;
      admin = none;
      permissions = none;
      active = some false;
    } in
    let c = update_member-Changed e p i b s s' h in
    let now : s' ≡ revoke_sessions i (record s { members = update_members i c.change s.members }) =
      c.now
      ∙ ap (λ l. after_update i l (record s { members = update_members i c.change s.members }))
          (ap is_false c.active) in
    (c.change, c.active, now)

-- Nobody is identified as a member after its deactivation, whatever token is presented.
pub deactivate_member-unknown :
    (e : Deployment) (p q : Principal) (i : ℕ) (f : String) (s s' : MemberStore)
    → deactivate_member e p i s ≡ ok s'
    → principal_for_fingerprint s' f ≡ some q
    → q.member_id ≢ some i
unfolding revoke_sessions
deactivate_member-unknown e p q i f s s' h k same =
    let (u, off, now) = deactivate_member-Deactivated e p i s s' h in
    let (m, at, live, is) = identified s' f q k in
    let ids : m.id ≡ i = some_inj (sym is ∙ same) in
    let there : find? (λ n. n.id == m.id) (update_members i u s.members) ≡ some m =
      ap (λ (t : MemberStore). find_member t m.id) (sym now) ∙ at in
    let dead = found_updated i m.id u s.members m off there (sym ids) in
    absurd (ground (arith, dead, live))

abbrev pub has_member_id : ℕ → Option ℕ → Bool
has_member_id i none = false
has_member_id i (some j) = j == i

-- Whether a lookup has found the member.
abbrev pub finds : ℕ → Option Principal → Bool
finds i none = false
finds i (some q) = has_member_id i q.member_id

has_member_id-differs : (i : ℕ) (o : Option ℕ) → o ≢ some i → has_member_id i o ≡ false
has_member_id-differs i none h = refl
has_member_id-differs i (some j) h = elim (Bool-cases (j == i)) [
  | inl e ↦ let same : j ≡ i = ground (arith, e) in absurd (h (ap (λ n. some n) same))
  | inr e ↦ e
]

-- After a member's deactivation no session that was opened with one of its tokens is left, and
-- no token that is presented finds the member.
pub deactivate_member-shuts_out :
    (e : Deployment) (p : Principal) (i : ℕ) (f : String) (s s' : MemberStore)
    → deactivate_member e p i s ≡ ok s'
    → (any (opened_by i s'.tokens) s'.sessions ≡ false)
      × (finds i (principal_for_fingerprint s' f) ≡ false)
unfolding revoke_sessions
deactivate_member-shuts_out e p i f s s' h =
    let (u, off, now) = deactivate_member-Deactivated e p i s s' h in
    (
      rw now (no_opened i s.tokens s.sessions),
      elim (Option-cases (principal_for_fingerprint s' f)) [
        | inl k ↦ rw k refl
        | inr (q, k) ↦
            rw k
              (has_member_id-differs i q.member_id (deactivate_member-unknown e p q i f s s' h k))
      ],
    )
