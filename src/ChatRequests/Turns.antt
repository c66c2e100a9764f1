-- ===== src/ChatRequests/Turns.antt =====
-- app/context.py, `record_turn_with_id`, and app/routes/chat.py, `case_chat`.
use law_review_local.Common.{
  ℕ, ◌+◌, String, Bool, false, not, Option, none, some, str_eq, ◌==◌, if◌then◌else◌, List, ◌∷◌, [],
  ◌++◌, any, find?,
}
use law_review_local.Audit.{AuditRow}
use law_review_local.ChatRequests.{
  ChatLibrary, ChatStore, Conversation, Message, user, assistant, commit, begin, began, busy,
  finish, failed, committed, RequestStatus, BeginResult, Begun, in_progress, cancelled,
}

-- The arguments of `record_turn_with_id` but the case, the conversation and the request key.
pub record Draft (Body : Type 0) : Type 0 where
  pub question : String
  pub answer : String
  pub citations : String
  pub route : String
  pub provenance : String
  pub user_name : String
  pub kind : String
  pub source_run_id : Option ℕ
  pub audit : Option AuditRow
  pub result : ℕ → Option ℕ → Body

-- The exceptions of a turn.
pub data Fault : Type 0 where
  bad_value client_gone conversation_not_found conversation_archived : Fault
  model_failed : ℕ → Fault

pub data Turn {ℓ} (A : Type ℓ) : Type ℓ where
  done : A → Turn A
  fault : Fault → Turn A

abbrev turn_kinds : List String
turn_kinds = "answer" ∷ "clarification" ∷ "insufficient_evidence" ∷ []

pub record TurnRecord : Type 0 where
  pub conversation_id : ℕ
  pub message_id : Option ℕ

abbrev or_text : String → String → String
or_text a b = if str_eq a "" then b else a

-- The conversation of the turn: the one given, checked again, or a new one.
abbrev pub open_conversation : ℕ → Option Conversation → ChatStore → Turn (ChatStore × ℕ)
open_conversation c none s = fault conversation_not_found
open_conversation c (some v) s =
    if not (v.case_id == c)
    then fault conversation_not_found
    else if v.archived
    then fault conversation_archived
    else done (s, v.id)

abbrev pub ran : Option ℕ → Message → Bool
ran none m = false
ran (some r) m = elim m.source_run_id [ none ↦ false | some q ↦ q == r ]

module _ {Body : Type 0} (k : ChatLibrary Body) where
  unfoldable pub conversation_for : ℕ → Option ℕ → Draft Body → ChatStore → Turn (ChatStore × ℕ)
  conversation_for c (some v) d s = open_conversation c (find? (λ w. w.id == v) s.conversations) s
  conversation_for c none d s = done (
    record s {
      conversations =
          s.conversations
          ++ record {
            id = s.next_conversation;
            case_id = c;
            user_name = or_text d.user_name "本机律师";
            title = k.title (k.strip d.question);
            archived = false;
          }
            ∷ [];
      next_conversation = s.next_conversation + 1;
    },
    s.next_conversation,
  )

  abbrev pub asked : Draft Body → ℕ → String → ℕ → Message
  asked d v ts i = record {
    id = i;
    conversation_id = v;
    role = user;
    content = k.strip d.question;
    citations = "[]";
    route = d.route;
    provenance = none;
    kind = "answer";
    source_run_id = none;
    created_at = ts;
  }

  abbrev pub answered : Draft Body → ℕ → String → ℕ → Message
  answered d v ts i = record {
    id = i;
    conversation_id = v;
    role = assistant;
    content = d.answer;
    citations = d.citations;
    route = d.route;
    provenance = some d.provenance;
    kind = d.kind;
    source_run_id = d.source_run_id;
    created_at = ts;
  }

  abbrev audit_rows : Option AuditRow → List AuditRow
  audit_rows none = []
  audit_rows (some a) = a ∷ []

  unfoldable pub write_messages : Draft Body → ℕ → String → ChatStore → ChatStore
  write_messages d v ts s = record s {
    messages =
        s.messages ++ asked d v ts s.next_message ∷ answered d v ts (s.next_message + 1) ∷ [];
    next_message = s.next_message + 2;
    audit = s.audit ++ audit_rows d.audit;
  }

  abbrev commit_key : Option (ℕ × String) → ℕ → ℕ → Body → ℕ → ChatStore → ChatStore
  commit_key none v m b t s = s
  commit_key (some (c, q)) v m b t s = commit k c q v (some m) b t s

  -- The writes after the check for a run that was recorded before.
  abbrev pub write_turn :
      Option (ℕ × String) → Draft Body → ℕ → ℕ → ChatStore → Option Message → ChatStore × TurnRecord
  write_turn key d t v s (some m) =
      (s, record { conversation_id = m.conversation_id; message_id = some m.id })
  write_turn key d t v s none = (
    commit_key key v (s.next_message + 1) (d.result v (some (s.next_message + 1))) t
        (write_messages d v (k.iso t) s),
    record { conversation_id = v; message_id = some (s.next_message + 1) },
  )

  abbrev pub write_in :
      Option (ℕ × String) → Draft Body → ℕ → Turn (ChatStore × ℕ) → Turn (ChatStore × TurnRecord)
  write_in key d t (fault e) = fault e
  write_in key d t (done (s, v)) =
      done (write_turn key d t v s (find? (ran d.source_run_id) s.messages))

  -- A fault leaves the store as it was, since `transaction` rolls back. `gone` is the answer of
  -- `should_cancel`; a call without that argument has `false`.
  unfoldable pub record_turn :
      ℕ
      → Option ℕ
      → Draft Body
      → Option (ℕ × String)
      → Bool
      → ℕ
      → ChatStore
      → Turn (ChatStore × TurnRecord)
  unfolding conversation_for write_messages
  record_turn c v d key gone t s =
      if not (any (str_eq d.kind) turn_kinds)
      then fault bad_value
      else if str_eq (k.strip d.question) ""
      then fault bad_value
      else if gone
      then fault client_gone
      else write_in key d t (conversation_for c v d s)

  -- The answer of `case_chat`: a fresh or a replayed body, or a fault with its HTTP status.
  pub data Reply : Type 0 where
    fresh_body : Body → Reply
    replayed_body : Body → Reply
    refused : ℕ → Reply

  -- The `except` clauses; `ChatCancelled` does not occur without `should_cancel`. A failure of the
  -- pipeline carries the status that `model_operation_error`, or the server, gives it.
  abbrev pub fault_status : Fault → ℕ
  fault_status bad_value = 400
  fault_status client_gone = 500
  fault_status conversation_not_found = 404
  fault_status conversation_archived = 409
  fault_status (model_failed n) = n

  abbrev finished : Option ChatStore → ChatStore → ChatStore
  finished none s = s
  finished (some s') s = s'

  abbrev pub marked : Option (ℕ × String) → RequestStatus → ℕ → ChatStore → ChatStore
  marked none to t s = s
  marked (some (c, q)) to t s = finished (finish k c q to t s) s

  abbrev pub chat_reply :
      Option (ℕ × String)
      → Draft Body
      → ℕ
      → ChatStore
      → Turn (ChatStore × TurnRecord)
      → ChatStore × Reply
  chat_reply key d t s (done (s', r)) = (s', fresh_body (d.result r.conversation_id r.message_id))
  chat_reply key d t s (fault e) = (marked key failed t s, refused (fault_status e))

  -- The call of `chat` once the request id is claimed: what the pipeline of retrieval and model
  -- has come to is a draft or a fault, which `chat` then records.
  unfoldable pub chat_turn :
      ℕ → Option ℕ → Option (ℕ × String) → Turn (Draft Body) → ℕ → ChatStore → ChatStore × Reply
  unfolding record_turn finish commit
  chat_turn c v key (fault e) t s = (marked key failed t s, refused (fault_status e))
  chat_turn c v key (done d) t s = chat_reply key d t s (record_turn c v d key false t s)

  abbrev pub body_of : BeginResult Body → Body
  body_of b = elim b.result [ none ↦ k.loads "{}" | some x ↦ x ]

  abbrev pub by_state :
      ℕ
      → Option ℕ
      → String
      → Turn (Draft Body)
      → ℕ
      → ChatStore
      → BeginResult Body
      → RequestStatus
      → ChatStore × Reply
  by_state c v q d t s b committed = (s, replayed_body (body_of b))
  by_state c v q d t s b in_progress = chat_turn c v (some (c, q)) d t s
  by_state c v q d t s b failed = chat_turn c v (some (c, q)) d t s
  by_state c v q d t s b cancelled = chat_turn c v (some (c, q)) d t s

  abbrev pub after_begin :
      ℕ → Option ℕ → String → Turn (Draft Body) → ℕ → ChatStore × Begun Body → ChatStore × Reply
  after_begin c v q d t (s, busy) = (s, refused 409)
  after_begin c v q d t (s, began b) = by_state c v q d t s b b.state

  -- `case_chat` after `require_case`; `t` is the time of the claim, `u` that of the end.
  unfoldable pub case_chat :
      ℕ → Option ℕ → Option String → Turn (Draft Body) → ℕ → ℕ → ℕ → ChatStore → ChatStore × Reply
  unfolding chat_turn begin
  case_chat c v none d t mono u s = chat_turn c v none d u s
  case_chat c v (some q) d t mono u s = after_begin c v q d u (begin k c q t mono s)
