-- ===== src/ChatRequests.antt =====
-- app/chat_idempotency.py and `record_turn_with_id` of app/context.py: one row per client request id,
-- written in the transaction that writes the messages of a turn. Times are in microseconds; the
-- texts of times, JSON and `strip` are given by a `ChatLibrary`. The table `chat_requests` is the map
-- that its primary key (case_id, request_id) gives.
pub mod Turns
pub mod Replay
pub mod Recording
pub mod Exactly
pub mod Failures
mod Examples
use law_review_local.Common.{
  ℕ, ◌-◌, String, Bool, true, false, ◌&&◌, Option, none, some, str_eq, ltb, ◌==◌, if◌then◌else◌,
  List, ◌∷◌, [],
}
use law_review_local.Audit.{AuditRow}

-- A parsed time: the instant, and whether it carries an offset.
pub record Moment : Type 0 where
  pub at : ℕ
  pub zoned : Bool

pub record ChatLibrary (Body : Type 0) : Type 0 where
  pub from_iso : String → Option Moment
  pub iso : ℕ → String
  pub before : String → String → Bool
  pub dumps : Body → String
  pub loads : String → Body
  pub strip : String → String
  pub title : String → String

pub data RequestStatus : Type 0 where
  in_progress committed failed cancelled : RequestStatus

pub record ChatRow : Type 0 where
  pub conversation_id : Option ℕ
  pub status : RequestStatus
  pub result_json : Option String
  pub message_id : Option ℕ
  pub created_at : String
  pub updated_at : String

pub record Conversation : Type 0 where
  pub id : ℕ
  pub case_id : ℕ
  pub user_name : String
  pub title : String
  pub archived : Bool

pub data Speaker : Type 0 where
  user assistant : Speaker

pub record Message : Type 0 where
  pub id : ℕ
  pub conversation_id : ℕ
  pub role : Speaker
  pub content : String
  pub citations : String
  pub route : String
  pub provenance : Option String
  pub kind : String
  pub source_run_id : Option ℕ
  pub created_at : String

-- The tables, the two next ids, and the global `_last_purge`.
pub record ChatStore : Type 0 where
  pub rows : ℕ → String → Option ChatRow
  pub last_purge : ℕ
  pub conversations : List Conversation
  pub next_conversation : ℕ
  pub messages : List Message
  pub next_message : ℕ
  pub audit : List AuditRow

-- `STALE_IN_PROGRESS`, `RETENTION` and `_PURGE_INTERVAL_SECONDS`, in microseconds
abbrev pub stale_after : ℕ
stale_after = 900000000

abbrev pub retention : ℕ
retention = 604800000000

abbrev pub purge_interval : ℕ
purge_interval = 3600000000

module _ {Body : Type 0} (k : ChatLibrary Body) where
  abbrev stale_at : ℕ → Option Moment → Bool
  stale_at t none = true
  stale_at t (some m) = if m.zoned then ltb stale_after (t - m.at) else true

  -- A text that does not parse, or that has no offset, counts as stale.
  unfoldable pub is_stale : ℕ → String → Bool
  is_stale t updated_at = stale_at t (k.from_iso updated_at)

  abbrev kept_row : String → Option ChatRow → Option ChatRow
  kept_row cutoff none = none
  kept_row cutoff (some r) = if k.before r.updated_at cutoff then none else some r

  -- `t` is the time of the day, `mono` that of `time.monotonic()`.
  unfoldable pub maybe_purge : ℕ → ℕ → ChatStore → ChatStore
  maybe_purge t mono s = if ltb (mono - s.last_purge) purge_interval then s else record s {
    last_purge = mono;
    rows = λ c q. kept_row (k.iso (t - retention)) (s.rows c q);
  }

abbrev pub set_row :
    ℕ → String → ChatRow → (ℕ → String → Option ChatRow) → ℕ → String → Option ChatRow
set_row c q r rows d p = if (c == d) && str_eq q p then some r else rows d p

abbrev pub write_row : ℕ → String → ChatRow → ChatStore → ChatStore
write_row c q r s = record s { rows = set_row c q r s.rows }

abbrev pub new_row : String → ChatRow
new_row ts = record {
  conversation_id = none;
  status = in_progress;
  result_json = none;
  message_id = none;
  created_at = ts;
  updated_at = ts;
}

abbrev pub claimed_row : String → ChatRow → ChatRow
claimed_row ts r = record r {
  conversation_id = none;
  result_json = none;
  message_id = none;
  status = in_progress;
  updated_at = ts;
}

-- `int(x or 0) or None`
abbrev pub nonzero : Option ℕ → Option ℕ
nonzero none = none
nonzero (some n) = if n == 0 then none else some n

-- `x or "{}"`
abbrev pub json_text : Option String → String
json_text none = "{}"
json_text (some j) = if str_eq j "" then "{}" else j

pub record BeginResult (Body : Type 0) : Type 0 where
  pub state : RequestStatus
  pub result : Option Body
  pub conversation_id : Option ℕ
  pub message_id : Option ℕ

-- What `begin` does: it returns, or raises `RequestInProgress`.
pub data Begun (Body : Type 0) : Type 0 where
  began : BeginResult Body → Begun Body
  busy : Begun Body

module _ {Body : Type 0} (k : ChatLibrary Body) where
  abbrev pub fresh : BeginResult Body
  fresh = record { state = in_progress; result = none; conversation_id = none; message_id = none }

  abbrev pub stored : ChatRow → BeginResult Body
  stored r = record {
    state = committed;
    result = some (k.loads (json_text r.result_json));
    conversation_id = nonzero r.conversation_id;
    message_id = r.message_id;
  }

  abbrev claim : ℕ → String → String → ChatRow → ChatStore → ChatStore × Begun Body
  claim c q ts r s = (write_row c q (claimed_row ts r) s, began fresh)

  -- `begin` on the row found, by its status; `undone` is the state that an exception leaves. The
  -- two updates of a stale row are one, since the second overwrites both columns of the first.
  abbrev pub begin_row :
      ℕ → String → ℕ → ChatStore → ChatStore → ChatRow → RequestStatus → ChatStore × Begun Body
  begin_row c q t undone s r committed = (s, began (stored r))
  begin_row c q t undone s r in_progress =
      if is_stale k t r.updated_at then claim c q (k.iso t) r s else (undone, busy)
  begin_row c q t undone s r failed = claim c q (k.iso t) r s
  begin_row c q t undone s r cancelled = claim c q (k.iso t) r s

  abbrev pub begin_found :
      ℕ → String → ℕ → ChatStore → ChatStore → Option ChatRow → ChatStore × Begun Body
  begin_found c q t undone s none = (write_row c q (new_row (k.iso t)) s, began fresh)
  begin_found c q t undone s (some r) = begin_row c q t undone s r r.status

  -- `transaction` rolls the tables back when `begin` raises; `_last_purge` stays.
  unfoldable pub begin : ℕ → String → ℕ → ℕ → ChatStore → ChatStore × Begun Body
  unfolding maybe_purge is_stale
  begin c q t mono s =
      let swept = maybe_purge k t mono s in
      begin_found c q t (record s { last_purge = swept.last_purge }) swept (swept.rows c q)

  abbrev pub finished_row : RequestStatus → String → ChatRow → RequestStatus → ChatRow
  finished_row to ts r in_progress = record r { status = to; updated_at = ts }
  finished_row to ts r committed = r
  finished_row to ts r failed = r
  finished_row to ts r cancelled = r

  abbrev pub finish_found :
      ℕ → String → RequestStatus → String → ChatStore → Option ChatRow → ChatStore
  finish_found c q to ts s none = s
  finish_found c q to ts s (some r) = write_row c q (finished_row to ts r r.status) s

  -- `none` is the ValueError for a status that may not be recorded.
  unfoldable pub finish : ℕ → String → RequestStatus → ℕ → ChatStore → Option ChatStore
  finish c q in_progress t s = none
  finish c q committed t s = none
  finish c q failed t s = some (finish_found c q failed (k.iso t) s (s.rows c q))
  finish c q cancelled t s = some (finish_found c q cancelled (k.iso t) s (s.rows c q))

  abbrev pub committed_row : Option ℕ → Option ℕ → String → String → ChatRow → ChatRow
  committed_row v m j ts r = record r {
    status = committed;
    conversation_id = v;
    message_id = m;
    result_json = some j;
    updated_at = ts;
  }

  abbrev pub commit_found :
      ℕ → String → ℕ → Option ℕ → Body → ℕ → ChatStore → Option ChatRow → ChatStore
  commit_found c q v m b t s none = s
  commit_found c q v m b t s (some r) =
      write_row c q (committed_row (some v) m (k.dumps b) (k.iso t) r) s

  unfoldable pub commit : ℕ → String → ℕ → Option ℕ → Body → ℕ → ChatStore → ChatStore
  commit c q v m b t s = commit_found c q v m b t s (s.rows c q)

  abbrev looked_up : ChatRow → RequestStatus → BeginResult Body
  looked_up r committed = stored r
  looked_up r in_progress = record {
    state = in_progress;
    result = none;
    conversation_id = nonzero r.conversation_id;
    message_id = r.message_id;
  }
  looked_up r failed = record {
    state = failed;
    result = none;
    conversation_id = nonzero r.conversation_id;
    message_id = r.message_id;
  }
  looked_up r cancelled = record {
    state = cancelled;
    result = none;
    conversation_id = nonzero r.conversation_id;
    message_id = r.message_id;
  }

  unfoldable pub lookup : ℕ → String → ChatStore → Option (BeginResult Body)
  lookup c q s = elim (s.rows c q) [ none ↦ none | some r ↦ some (looked_up r r.status) ]
