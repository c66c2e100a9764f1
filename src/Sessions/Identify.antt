-- ===== src/Sessions/Identify.antt =====
-- app/security.py, `session_principal`: whom a session identifies.
use law_review_local.Sessions.{
  Identities, session_principal, usable, in_time, purge_sessions, resolve_kind, found_principal,
}
use law_review_local.Members.{
  MemberStore, AuthSession, by_token, by_oidc, principal_for_fingerprint, deactivate_member,
  load_principal, Deployment, SessionKind,
}
use law_review_local.Members.Directory.{deactivate_member-unknown}
use law_review_local.Access.{Principal}
use law_review_local.Common.{
  ℕ, String, Bool, Option, none, some, ◌≡◌, ◌≢◌, refl, arith, List, [], ◌∷◌, keep, find?, ◌∙◌, sym,
  All, ok, str_eq, Option-cases, inl, inr, subst, ◌⊎◌, Bool-cases, Mem, ◌<◌, ◌+◌, find?-Mem, true,
  str_eq_iff,
}

-- The purge of the expired sessions does not hide a usable one.
pub find?-in_time :
    (t : ℕ) (h : String) (xs : List AuthSession)
    → find? (usable t h) (keep (in_time t) xs) ≡ find? (usable t h) xs
find?-in_time t h [] = refl
find?-in_time t h (x ∷ xs) = ground (arith, find?-in_time t h xs)

pub resolve_kind-purge_sessions :
    (e : Identities) (t : ℕ) (s : MemberStore) (x : AuthSession)
    → resolve_kind e (purge_sessions t s) x.kind ≡ resolve_kind e s x.kind
unfolding resolve_kind purge_sessions principal_for_fingerprint load_principal
resolve_kind-purge_sessions e t s x = ground arith

session_principal-found :
    (e : Identities) (v : String) (t : ℕ) (s : MemberStore) (p : Principal)
    → (session_principal e v t s).1 ≡ some p
    → (x : AuthSession) × (find? (usable t (e.hash v)) s.sessions ≡ some x)
      × (resolve_kind e s x.kind ≡ some p)
unfolding session_principal
session_principal-found e v t s p h =
    elim (Option-cases (find? (usable t (e.hash v)) (keep (in_time t) s.sessions))) [
      | inl f ↦ absurd (ground (arith, f))
      | inr (x, f) ↦ (
        x,
        sym (find?-in_time t (e.hash v) s.sessions) ∙ f,
        sym (resolve_kind-purge_sessions e t s x) ∙ ground (arith, f),
      )
    ]

-- Whoever a session identifies at a time, a session under the hash of its value is stored then which
-- has not expired and was last seen less than 1800 seconds before, and the principal is the one that
-- the tokens, members and subjects of the moment give to it.
pub session_principal-usable :
    (e : Identities) (v : String) (t : ℕ) (s : MemberStore) (p : Principal)
    → (session_principal e v t s).1 ≡ some p
    → (x : AuthSession) × Mem x s.sessions
      × (x.session_hash ≡ e.hash v)
      × (t < x.expires_at)
      × (t < x.last_seen_at + 1800)
      × (resolve_kind e s x.kind ≡ some p)
session_principal-usable e v t s p h =
    let (x, at, is) = session_principal-found e v t s p h in
    let (there, tests) = find?-Mem (usable t (e.hash v)) x s.sessions at in
    let own : str_eq x.session_hash (e.hash v) ≡ true = ground (arith, tests) in
    (x, there, (str_eq_iff _ _).0 own, ground (arith, tests), ground (arith, tests), is)

abbrev subject_list : Option (List (String × Principal)) → List (String × Principal)
subject_list none = []
subject_list (some m) = m

-- No principal that the deployment configures carries a member's id.
abbrev pub IsConfigured : Identities → Type 0
IsConfigured e =
    All (λ x. x.1.member_id ≡ none) e.tokens
    × All (λ x. x.1.member_id ≡ none) (subject_list e.subjects)

configured_id :
    (q : String × Principal → Bool) (xs : List (String × Principal)) (p : Principal)
    → All (λ x. x.1.member_id ≡ none) xs
    → found_principal (find? q xs) ≡ some p
    → p.member_id ≡ none
configured_id q [] p a h = absurd (ground (arith, h))
configured_id q ((k, r) ∷ xs) p a h = elim (Bool-cases (q (k, r))) [
  | inl e ↦ let same : r ≡ p = ground (arith, h, e) in rw (← same) a.0
  | inr e ↦ configured_id q xs p a.1 (ground (arith, h, e))
]

subject_id :
    (e : Identities) (s : MemberStore) (k : String) (p : Principal)
    → IsConfigured e
    → resolve_kind e s (by_oidc k) ≡ some p
    → p.member_id ≡ none
unfolding resolve_kind
subject_id e s k p c h = elim (Option-cases e.subjects) [
  | inl z ↦ absurd (ground (arith, z, h))
  | inr (m, z) ↦
      let all : All (λ (x : String × Principal). x.1.member_id ≡ none) m =
        subst (λ o. All (λ (x : String × Principal). x.1.member_id ≡ none) (subject_list o)) z
          c.1 in
      configured_id (λ x. str_eq x.0 k) m p all (ground (arith, z, h))
]

token_id :
    (e : Identities) (s : MemberStore) (f : String) (p : Principal)
    → IsConfigured e
    → resolve_kind e s (by_token f) ≡ some p
    → (p.member_id ≡ none) ⊎ (principal_for_fingerprint s f ≡ some p)
unfolding resolve_kind
token_id e s f p c h =
    elim (Option-cases (found_principal (find? (λ x. str_eq (e.hash x.0) f) e.tokens))) [
      | inl z ↦ inr (ground (arith, z, h))
      | inr (q, z) ↦
          let same : q ≡ p = ground (arith, z, h) in
          inl (rw (← same) (configured_id (λ x. str_eq (e.hash x.0) f) e.tokens q c.0 z))
    ]

kind_id :
    (e : Identities) (s : MemberStore) (k : SessionKind) (p : Principal) (i : ℕ)
    → IsConfigured e
    → ((f : String) → principal_for_fingerprint s f ≡ some p → p.member_id ≢ some i)
    → resolve_kind e s k ≡ some p
    → p.member_id ≢ some i
kind_id e s (by_oidc k) p i c shut h same = absurd (ground (arith, subject_id e s k p c h, same))
kind_id e s (by_token f) p i c shut h same = elim (token_id e s f p c h) [
  | inl none_id ↦ absurd (ground (arith, none_id, same))
  | inr member ↦ shut f member same
]

-- After a member's deactivation no session at all identifies anybody as that member, as long as the
-- configured principals carry no member's id.
pub session_principal-deactivated :
    (d : Deployment) (e : Identities) (actor p : Principal) (i : ℕ) (v : String) (t : ℕ)
    (s s' : MemberStore)
    → IsConfigured e
    → deactivate_member d actor i s ≡ ok s'
    → (session_principal e v t s').1 ≡ some p
    → p.member_id ≢ some i
session_principal-deactivated d e actor p i v t s s' c h k =
    let (x, at, is) = session_principal-found e v t s' p k in
    kind_id e s' x.kind p i c (λ f m. deactivate_member-unknown d actor p i f s s' h m) is
