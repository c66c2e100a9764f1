-- ===== src/Middleware/Anonymous.antt =====
-- app/security.py, `AccessMiddleware.dispatch`: requests that nobody is identified for.
use law_review_local.Middleware.Dispatch.{
  admit_principal, local_identity, admit_token, require_origin, admit_mode, admit_owned,
  token_identity, identified, Request, Settings, World, Mode, admitted, admit, public, token,
  verdict_of, callback_get, identity_providers, request_principal, local, local_peer, with_members,
  safe,
}
use law_review_local.Access.{Principal}
use law_review_local.Common.{
  ok, Option, some, ◌≡◌, ℕ, ◌≢◌, Bool, none, Http, >>=-eq-ok, Bool-cases, raise, require, some≢none,
  true, ap, inl, require-eq-ok, not, ◌||◌, refl, arith, false, inr, subst, ◌∙◌, ◌&&◌, str_eq,
}
use law_review_local.Middleware.Gate.{
  refused≢admitted, admitted_parts, misconfigured≢admitted, admit-mode,
}
use law_review_local.Middleware.{under_api, owned_case}
use law_review_local.Conflicts.Clearance.{
  Method, writes, get, head, options, post, put, patch, delete,
}

verdict_of-named :
    (p : Principal) (c k : Option ℕ) (m : Http (Unit {0})) → verdict_of p c m ≢ admitted none k
verdict_of-named p c k (ok done) h = some≢none (admitted_parts (some p) none c k h).0
verdict_of-named p c k (raise n e) h = refused≢admitted h

admit_owned-named :
    (d : Settings) (w : World) (t : ℕ) (r : Request) (p : Principal) (o : Http (Option ℕ))
    (k : Option ℕ)
    → admit_owned d w t r p o ≢ admitted none k
unfolding admit_owned
admit_owned-named d w t r p (raise n e) k h = refused≢admitted h
admit_owned-named d w t r p (ok none) k h = verdict_of-named p none k _ h
admit_owned-named d w t r p (ok (some c)) k h = verdict_of-named p (some c) k _ h

admit_principal-anonymous :
    (d : Settings) (w : World) (t : ℕ) (r : Request) (o : Option Principal) (k : Option ℕ)
    → admit_principal d w t r o ≡ admitted none k
    → o ≡ none
unfolding admit_principal
admit_principal-anonymous d w t r none k h = refl
admit_principal-anonymous d w t r (some p) k h = elim (Bool-cases (under_api r.path)) [
  | inl e ↦
      let at : admit_owned d w t r p (owned_case d.digits d.number w.tables r.path)
          ≡ admitted none k =
        ground (arith, e, h) in
      absurd (admit_owned-named d w t r p _ k at)
  | inr e ↦
      let at : admitted (some p) none ≡ admitted none k = ground (arith, e, h) in
      absurd (some≢none (admitted_parts (some p) none none k at).0)
]

identified-anonymous :
    (d : Settings) (w : World) (t : ℕ) (r : Request) (o : Http (Option Principal)) (k : Option ℕ)
    → identified d w t r o ≡ admitted none k
    → o ≡ ok none
unfolding identified
identified-anonymous d w t r (raise n e) k h = absurd (refused≢admitted h)
identified-anonymous d w t r (ok o) k h = ap (λ z. ok z) (admit_principal-anonymous d w t r o k h)

ok_some≢ok_none : {p : Principal} → ok (some p) ≢ ok none
ok_some≢ok_none = cc

local_identity-named : (d : Settings) (r : Request) → local_identity d r ≢ ok none
unfolding local_identity
local_identity-named d r h =
    let (a, first, rest) = >>=-eq-ok (require (not r.forwarded) 403 _) _ h in
    let (b, second, last) = >>=-eq-ok (require (local_peer d r.peer) 403 _) _ rest in
    ok_some≢ok_none last

token_identity-public :
    (r : Request) (o : Option Principal) → token_identity r o ≡ ok none → public r.path ≡ true
unfolding token_identity
token_identity-public r none h =
    let (done, first, rest) = >>=-eq-ok (require (public r.path) 401 _) _ h in
    require-eq-ok _ 401 _ first
token_identity-public r (some p) h = absurd (ok_some≢ok_none h)

admit_token-public :
    (d : Settings) (t : ℕ) (r : Request) (w : World) (o : Option Bool) (k : Option ℕ)
    → (admit_token d t r w o).1 ≡ admitted none k
    → public r.path ≡ true
unfolding admit_token
admit_token-public d t r w none k h = absurd (misconfigured≢admitted h)
admit_token-public d t r w (some false) k h = absurd (misconfigured≢admitted h)
admit_token-public d t r w (some true) k h =
    let found = request_principal d.identities t r w.members in
    token_identity-public r found.1
      (identified-anonymous d (with_members w found.0) t r (token_identity r found.1) k h)

admit_mode-public :
    (d : Settings) (t : ℕ) (r : Request) (w : World) (m : Mode) (k : Option ℕ)
    → (admit_mode d t r w m).1 ≡ admitted none k
    → (m ≡ token) × (public r.path ≡ true)
unfolding admit_mode
admit_mode-public d t r w local k h =
    absurd (local_identity-named d r (identified-anonymous d w t r (local_identity d r) k h))
admit_mode-public d t r w token k h =
    (refl, admit_token-public d t r w (identity_providers d.environment_tokens w.members) k h)

writes-safe : (m : Method) → safe m ≡ not (writes m)
writes-safe get = refl
writes-safe head = refl
writes-safe options = refl
writes-safe post = refl
writes-safe put = refl
writes-safe patch = refl
writes-safe delete = refl

-- A request that reaches its handler without a principal is one in token mode to a public path; and
-- but for the callback of the OIDC login, one that writes or goes to the API has no origin or the
-- origin that is expected, and does not say that it is cross-site.
pub admit-public :
    (d : Settings) (t : ℕ) (r : Request) (w : World) (k : Option ℕ)
    → (admit d t r w).1 ≡ admitted none k
    → (d.mode ≡ some token)
      × (public r.path ≡ true)
      × ((callback_get token r
            || ((not (writes r.method) && not (under_api r.path))
                || ((str_eq r.origin "" || str_eq r.origin r.expected_origin) && not r.cross_site)))
          ≡ true)
unfolding require_origin
admit-public d t r w k h =
    let (m, at, (host, origin, mode)) = admit-mode d t r w none k h in
    let (same, open_path) = admit_mode-public d t r w m k mode in
    let tested = require-eq-ok _ 403 _ (subst (λ z. require_origin z r ≡ ok tt) same origin) in
    (at ∙ ap (λ z. some z) same, open_path, ground (arith, tested, writes-safe r.method))
