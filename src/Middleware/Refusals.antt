-- ===== src/Middleware/Refusals.antt =====
-- app/security.py, `AccessMiddleware.dispatch`: what a refused request leaves behind.
use law_review_local.Middleware.Dispatch.{
  admit, admit_token, admit_loaded, admit_mode, request_principal, World, Admission, Settings,
  after_tests, Request, SecurityEvent, Mode, refused, identity_providers, local, with_members,
  token,
}
use law_review_local.Sessions.{session_principal, Identities, purge_sessions}
use law_review_local.Middleware.Answers.{dispatch, answer, Response, name_of, add_event}
use law_review_local.Common.{
  String, Option, ◌≡◌, ℕ, Http, raise, Option-cases, Bool-cases, Bool, ok, some, str_eq, ◌++◌, inl,
  none, ap, refl, inr, ◌∷◌, [], ◌∙◌, false, true,
}
use law_review_local.Access.{Principal}
use law_review_local.Members.{MemberStore}

abbrev OnlySessions : World → World → Type 0
OnlySessions w w' = w' ≡ record w { members = record w.members { sessions = w'.members.sessions } }

session_principal-sessions :
    (e : Identities) (v : String) (t : ℕ) (s : MemberStore)
    → (session_principal e v t s).0 ≡ record s { sessions = (session_principal e v t s).0.sessions }
unfolding session_principal purge_sessions
session_principal-sessions e v t s = elim (Bool-cases (str_eq v "")) [
  | inl f ↦ rw f refl
  | inr f ↦ rw f refl
]

request_principal-sessions :
    (e : Identities) (t : ℕ) (r : Request) (s : MemberStore)
    → (request_principal e t r s).0 ≡ record s { sessions = (request_principal e t r s).0.sessions }
unfolding request_principal
request_principal-sessions e t r s = elim (Option-cases r.bearer) [
  | inl f ↦ rw f (session_principal-sessions e r.cookie t s)
  | inr (v, f) ↦ rw f refl
]

admit_token-sessions :
    (d : Settings) (t : ℕ) (r : Request) (w : World) (o : Option Bool)
    → OnlySessions w (admit_token d t r w o).0
unfolding admit_token
admit_token-sessions d t r w none = refl
admit_token-sessions d t r w (some false) = refl
admit_token-sessions d t r w (some true) =
    ap (λ s. with_members w s) (request_principal-sessions d.identities t r w.members)

admit_mode-sessions :
    (d : Settings) (t : ℕ) (r : Request) (w : World) (m : Mode)
    → OnlySessions w (admit_mode d t r w m).0
unfolding admit_mode
admit_mode-sessions d t r w local = refl
admit_mode-sessions d t r w token =
    admit_token-sessions d t r w (identity_providers d.environment_tokens w.members)

after_tests-sessions :
    (w : World) (rest : World × Admission) (m : Http (Unit {0}))
    → OnlySessions w rest.0
    → OnlySessions w (after_tests w rest m).0
after_tests-sessions w rest (raise n e) h = refl
after_tests-sessions w rest (ok done) h = h

admit_loaded-sessions :
    (d : Settings) (t : ℕ) (r : Request) (w : World) (o : Option Mode)
    → OnlySessions w (admit_loaded d t r w o).0
unfolding admit_loaded
admit_loaded-sessions d t r w none = refl
admit_loaded-sessions d t r w (some m) =
    after_tests-sessions w (admit_mode d t r w m) _ (admit_mode-sessions d t r w m)

admit-sessions : (d : Settings) (t : ℕ) (r : Request) (w : World) → OnlySessions w (admit d t r w).0
unfolding admit
admit-sessions d t r w = admit_loaded-sessions d t r w d.mode

abbrev denial : (String → String) → Option Principal → Option ℕ → String → SecurityEvent
denial clip p c e = record {
  event_type = "access";
  outcome = "denied";
  actor = name_of p;
  case_id = c;
  detail = clip e;
}

answer-refused :
    (handler : Option Principal → World → World × Response) (line : Request → String)
    (clip : String → String) (r : Request) (w : World) (a : Admission) (p : Option Principal)
    (c : Option ℕ) (n : ℕ) (e : String)
    → a ≡ refused p c n e
    → answer handler line clip r (w, a)
      ≡ (add_event (denial clip p c e) w, record { status = n; detail = e })
unfolding answer
answer-refused handler line clip r w a p c n e h = rw h refl

-- A refused request never runs its handler: it answers with the refusal, appends one event under the
-- principal and the case that were known, and changes nothing else but the sessions.
pub dispatch-refused :
    (handler : Option Principal → World → World × Response) (line : Request → String)
    (clip : String → String) (d : Settings) (t : ℕ) (r : Request) (w : World) (p : Option Principal)
    (c : Option ℕ) (n : ℕ) (e : String)
    → (admit d t r w).1 ≡ refused p c n e
    → dispatch handler line clip d t r w ≡ (
      record w {
        members = record w.members { sessions = (admit d t r w).0.members.sessions };
        events =
            w.events
            ++ record {
              event_type = "access";
              outcome = "denied";
              actor = name_of p;
              case_id = c;
              detail = clip e;
            }
              ∷ [];
      },
      record { status = n; detail = e },
    )
unfolding dispatch
dispatch-refused handler line clip d t r w p c n e h =
    let here = answer-refused handler line clip r (admit d t r w).0 (admit d t r w).1 p c n e h in
    here
    ∙ ap (λ z. (add_event (denial clip p c e) z, record { status = n; detail = e }))
        (admit-sessions d t r w)
