-- ===== src/Middleware/Answers.antt =====
-- app/security.py, `AccessMiddleware.dispatch` from `call_next` on, which is an argument.
use law_review_local.Common.{
  ℕ, Option, List, String, some, ◌++◌, Bool, none, ◌∷◌, if◌then◌else◌, not, [], ◌&&◌, str_eq, ltb,
  false, ◌||◌,
}
use law_review_local.Middleware.Dispatch.{
  SecurityEvent, Request, World, Admission, Settings, admitted, admit, refused, misconfigured,
}
use law_review_local.Access.{Principal}
use law_review_local.Conflicts.Clearance.{writes}
use law_review_local.Middleware.{ends_export}

pub record Response : Type 0 where
  pub status : ℕ
  pub detail : String

abbrev pub add_event : SecurityEvent → World → World
add_event x w = record w { events = w.events ++ x ∷ [] }

abbrev under_auth : List String → Bool
under_auth (a ∷ b ∷ c ∷ rest) = str_eq a "api" && str_eq b "auth"
under_auth _ = false

abbrev audited : Request → Principal → ℕ → Bool
audited r p status =
    not p.local
    && (ltb status 400 && ((writes r.method || ends_export r.path) && not (under_auth r.path)))

-- `write_audit`; `line` prints the method and the path.
unfoldable pub write_audit :
    (Request → String) → Request → Option Principal → Option ℕ → ℕ → World → World
write_audit line r none c status w = w
write_audit line r (some p) c status w =
    if audited r p status
    then record w {
      audit =
          w.audit ++ record { case_id = c; action = "认证操作"; actor = p.name; note = line r } ∷ [];
    }
    else w

abbrev pub name_of : Option Principal → Option String
name_of none = none
name_of (some p) = some p.name

-- The answer of a request: `handler` is what `call_next` does for the principal, `clip` cuts a text to
-- 120 characters.
unfoldable pub answer :
    (Option Principal → World → World × Response)
    → (Request → String)
    → (String → String)
    → Request
    → World × Admission
    → World × Response
unfolding write_audit
answer handler line clip r (w, admitted p c) =
    let done = handler p w in (write_audit line r p c done.1.status done.0, done.1)
answer handler line clip r (w, refused p c n e) = (
  add_event
      (record {
        event_type = "access";
        outcome = "denied";
        actor = name_of p;
        case_id = c;
        detail = clip e;
      })
      w,
  record { status = n; detail = e },
)
answer handler line clip r (w, misconfigured) = (
  add_event
      (record {
        event_type = "config";
        outcome = "error";
        actor = none;
        case_id = none;
        detail = "访问控制配置错误";
      })
      w,
  record { status = 503; detail = "访问控制配置错误，请联系管理员" },
)

unfoldable pub dispatch :
    (Option Principal → World → World × Response)
    → (Request → String)
    → (String → String)
    → Settings
    → ℕ
    → Request
    → World
    → World × Response
unfolding answer
dispatch handler line clip d t r w = answer handler line clip r (admit d t r w)
