-- ===== src/Sessions/Opening.antt =====
-- app/security.py, `login` and `logout`: the session that a login opens.
-- No other configured token has the hash of this one.
use law_review_local.Common.{
  ℕ, String, All, List, str_eq, ◌≡◌, find?, false, ◌∷◌, arith, true, ◌++◌, [], some, refl, Bool,
  keep, Bool-cases, inl, ◌≤◌, inr, ◌<◌, ◌+◌, ok, ltb, length, str_eq_refl, Option, Http, none,
  raise, ap, ◌≢◌, sym, ◌∙◌, not,
}
use law_review_local.Sessions.{
  Identities, has_hash, usable, register_session, purge_sessions, session_idle_ttl, new_session,
  in_time, session_capacity, principal_of_token, session_principal, login, resolve_kind,
  revoke_session, open_session, logged_in,
}
use law_review_local.Members.{
  AuthSession, SessionKind, MemberStore, principal_for_fingerprint, by_token, load_principal,
}
use law_review_local.Access.{Principal}
use law_review_local.Login.{
  limited_token_principal, Limit, tried, over_limit, login_limit, purge_limits,
}
use law_review_local.Sessions.Identify.{find?-in_time, resolve_kind-purge_sessions}

abbrev pub NoCollision : Identities → String → Type 0
NoCollision e token = All (λ x. str_eq (e.hash x.0) (e.hash token) ≡ str_eq x.0 token) e.tokens

find?-token :
    (hash : String → String) (token : String) (xs : List (String × Principal))
    → All (λ x. str_eq (hash x.0) (hash token) ≡ str_eq x.0 token) xs
    → find? (λ x. str_eq (hash x.0) (hash token)) xs ≡ find? (λ x. str_eq x.0 token) xs
find?-token hash token [] a = refl
find?-token hash token (x ∷ xs) a = ground (arith, a.0, find?-token hash token xs a.1)

find?-fresh :
    (t u : ℕ) (h : String) (n : AuthSession) (xs : List AuthSession)
    → All (λ x. has_hash h x ≡ false) xs
    → usable u h n ≡ true
    → find? (usable u h) (xs ++ n ∷ []) ≡ some n
find?-fresh t u h n [] a k = ground (arith, k)
find?-fresh t u h n (x ∷ xs) a k = ground (arith, a.0, find?-fresh t u h n xs a.1 k)

All-keep {ℓ} :
    {A : Type ℓ} (P : A → Type 0) (q : A → Bool) (xs : List A) → All P xs → All P (keep q xs)
All-keep P q [] a = tt
All-keep P q (x ∷ xs) a = elim (Bool-cases (q x)) [
  | inl e ↦ rw e (a.0, All-keep P q xs a.1)
  | inr e ↦ rw e (All-keep P q xs a.1)
]

stored-sessions :
    (e : Identities) (kind : SessionKind) (value : String) (t : ℕ) (s s' : MemberStore)
    → register_session e kind value t s ≡ ok s'
    → s' ≡ record s {
      sessions = keep (in_time t) s.sessions ++ new_session t (e.hash value) kind ∷ [];
    }
unfolding register_session purge_sessions
stored-sessions e kind value t s s' r =
    elim (Bool-cases (ltb (length (keep (in_time t) s.sessions)) session_capacity)) [
      | inl f ↦ ground (arith, f, r)
      | inr f ↦ absurd (ground (arith, f, r))
    ]

-- A registered session is found, with its own kind.
register_session-found :
    (e : Identities) (kind : SessionKind) (value : String) (t u : ℕ) (s s' : MemberStore)
    → All (λ x. has_hash (e.hash value) x ≡ false) s.sessions
    → t ≤ u
    → u < t + session_idle_ttl
    → register_session e kind value t s ≡ ok s'
    → find? (usable u (e.hash value)) s'.sessions ≡ some (new_session t (e.hash value) kind)
register_session-found e kind value t u s s' fresh h k r =
    rw (stored-sessions e kind value t s s' r) (
      find?-fresh t u (e.hash value) (new_session t (e.hash value) kind)
        (keep (in_time t) s.sessions)
        (All-keep (λ x. has_hash (e.hash value) x ≡ false) (in_time t) s.sessions fresh)
        (ground (arith, str_eq_refl (e.hash value), h, k)))

-- What a token gives at a login, a session of it gives too.
resolve_kind-principal_of_token :
    (e : Identities) (s : MemberStore) (token : String) (p : Principal)
    → NoCollision e token
    → principal_of_token e s token ≡ some p
    → resolve_kind e s (by_token (e.hash token)) ≡ some p
unfolding principal_of_token resolve_kind
resolve_kind-principal_of_token e s token p c h =
    let same = find?-token e.hash token e.tokens c in ground (arith, same, h)

resolve_kind-stored :
    (e : Identities) (xs : List AuthSession) (k : SessionKind) (s : MemberStore)
    → resolve_kind e (record s { sessions = xs }) k ≡ resolve_kind e s k
unfolding resolve_kind principal_for_fingerprint load_principal
resolve_kind-stored e xs k s = ground arith

tried-resolved :
    (b : String) (t : ℕ) (limits : String → Option Limit) (o : Option Principal) (p : Principal)
    → (tried b t limits o).1 ≡ ok (some p)
    → o ≡ some p
unfolding tried
tried-resolved b t limits none p h = cc
tried-resolved b t limits (some q) p h = ground (arith, h)

limited_token_principal-resolved :
    (resolve : String → Option Principal) (b token : String) (t : ℕ)
    (limits : String → Option Limit) (p : Principal)
    → (limited_token_principal resolve b token t limits).1 ≡ ok (some p)
    → resolve token ≡ some p
unfolding limited_token_principal
limited_token_principal-resolved resolve b token t limits p h =
    elim (Bool-cases (over_limit login_limit b (purge_limits t limits))) [
      | inl f ↦ absurd (ground (arith, f, h))
      | inr f ↦ tried-resolved b t (purge_limits t limits) (resolve token) p (ground (arith, f, h))
    ]

logged_in-stored :
    (p q : Principal) (s : MemberStore) (m : Http MemberStore)
    → (logged_in p s m).1 ≡ ok q
    → (p ≡ q) × (m ≡ ok (logged_in p s m).0)
logged_in-stored p q s (ok s') h = (ground (arith, h), refl)
logged_in-stored p q s (raise n d) h = absurd (ground (arith, h))

raise≢ok {ℓ} : {A : Type ℓ} {n : ℕ} {d : String} {a : A} → raise n d ≢ ok a
raise≢ok = cc

open_session-opens :
    (e : Identities) (token cookie value : String) (t : ℕ) (s : MemberStore)
    (m : Http (Option Principal)) (p : Principal)
    → (open_session e token cookie value t s m).1 ≡ ok p
    → (m ≡ ok (some p))
      × (register_session e (by_token (e.hash token)) value t (revoke_session e cookie s)
          ≡ ok (open_session e token cookie value t s m).0)
unfolding open_session
open_session-opens e token cookie value t s (raise n d) p h = absurd (raise≢ok h)
open_session-opens e token cookie value t s (ok none) p h = absurd (raise≢ok h)
open_session-opens e token cookie value t s (ok (some q)) p h =
    let revoked = revoke_session e cookie s in
    let (same, at) =
      logged_in-stored q p revoked (register_session e (by_token (e.hash token)) value t revoked)
        h in
    (ap (λ r. ok (some r)) same, at)

login-mode :
    (e : Identities) (token bucket cookie value : String) (t : ℕ) (limits : String → Option Limit)
    (s : MemberStore)
    → e.token_mode ≡ true
    → (login e token bucket cookie value t limits s).1
      ≡ open_session e token cookie value t s
          (limited_token_principal (principal_of_token e s) bucket token t limits).1
unfolding login
login-mode e token bucket cookie value t limits s m = rw m refl

login-local :
    (e : Identities) (token bucket cookie value : String) (t : ℕ) (limits : String → Option Limit)
    (s : MemberStore)
    → e.token_mode ≡ false
    → (login e token bucket cookie value t limits s).1.1 ≡ raise 409 "本机模式无需登录"
unfolding login
login-local e token bucket cookie value t limits s m = rw m refl

login-opens :
    (e : Identities) (token bucket cookie value : String) (t : ℕ) (limits : String → Option Limit)
    (s : MemberStore) (p : Principal)
    → (login e token bucket cookie value t limits s).1.1 ≡ ok p
    → (principal_of_token e s token ≡ some p)
      × (register_session e (by_token (e.hash token)) value t (revoke_session e cookie s)
          ≡ ok (login e token bucket cookie value t limits s).1.0)
login-opens e token bucket cookie value t limits s p h = elim (Bool-cases e.token_mode) [
  | inl m ↦
      let same = login-mode e token bucket cookie value t limits s m in
      let (found, at) =
        open_session-opens e token cookie value t s _ p (ap (λ r. r.1) (sym same) ∙ h) in
      (
        limited_token_principal-resolved (principal_of_token e s) bucket token t limits p found,
        at ∙ ap (λ r. ok r.0) (sym same),
      )
  | inr m ↦ absurd (raise≢ok (sym (login-local e token bucket cookie value t limits s m) ∙ h))
]

-- What a usable session gives, given back.
found-session_principal :
    (e : Identities) (v : String) (t : ℕ) (s : MemberStore) (x : AuthSession) (p : Principal)
    → str_eq v "" ≡ false
    → find? (usable t (e.hash v)) s.sessions ≡ some x
    → resolve_kind e s x.kind ≡ some p
    → (session_principal e v t s).1 ≡ some p
unfolding session_principal
found-session_principal e v t s x p h f k =
    let at = find?-in_time t (e.hash v) s.sessions ∙ f in
    let is = resolve_kind-purge_sessions e t s x ∙ k in rw h (rw at is)

revoked-fresh :
    (e : Identities) (cookie value : String) (s : MemberStore)
    → All (λ x. has_hash (e.hash value) x ≡ false) s.sessions
    → All (λ x. has_hash (e.hash value) x ≡ false) (revoke_session e cookie s).sessions
unfolding revoke_session
revoked-fresh e cookie value s a = elim (Bool-cases (str_eq cookie "")) [
  | inl f ↦ rw f a
  | inr f ↦ rw f (
      All-keep (λ x. has_hash (e.hash value) x ≡ false) (λ x. not (has_hash (e.hash cookie) x))
        s.sessions a)
]

revoked-rest :
    (e : Identities) (cookie : String) (s : MemberStore)
    → revoke_session e cookie s ≡ record s { sessions = (revoke_session e cookie s).sessions }
unfolding revoke_session
revoked-rest e cookie s = elim (Bool-cases (str_eq cookie "")) [
  | inl f ↦ rw f refl
  | inr f ↦ rw f refl
]

-- A session that a login opens identifies, within `session_idle_ttl`, the principal that the login has
-- returned. The new value is one that no stored session has, and it is not empty.
pub session_principal-login :
    (e : Identities) (token bucket cookie value : String) (t u : ℕ) (limits : String → Option Limit)
    (s : MemberStore) (p : Principal)
    → NoCollision e token
    → str_eq value "" ≡ false
    → All (λ x. has_hash (e.hash value) x ≡ false) s.sessions
    → t ≤ u
    → u < t + session_idle_ttl
    → (login e token bucket cookie value t limits s).1.1 ≡ ok p
    → (session_principal e value u (login e token bucket cookie value t limits s).1.0).1 ≡ some p
session_principal-login e token bucket cookie value t u limits s p c v fresh h k i =
    let revoked = revoke_session e cookie s in
    let s' = (login e token bucket cookie value t limits s).1.0 in
    let (resolved, stored) = login-opens e token bucket cookie value t limits s p i in
    let found =
      register_session-found e (by_token (e.hash token)) value t u revoked s'
        (revoked-fresh e cookie value s fresh) h k stored in
    let gone : s' ≡ record s {
      sessions =
          keep (in_time t) revoked.sessions
          ++ new_session t (e.hash value) (by_token (e.hash token)) ∷ [];
    } =
      stored-sessions e (by_token (e.hash token)) value t revoked s' stored
      ∙ ap
          (λ (r : MemberStore). record r {
            sessions =
                keep (in_time t) revoked.sessions
                ++ new_session t (e.hash value) (by_token (e.hash token)) ∷ [];
          })
          (revoked-rest e cookie s) in
    let is =
      resolve_kind-stored e _ (by_token (e.hash token)) s
      ∙ resolve_kind-principal_of_token e s token p c resolved in
    found-session_principal e value u s' (new_session t (e.hash value) (by_token (e.hash token))) p
      v found (rw gone is)
