-- ===== src/ChatRequests/Examples.antt =====
-- app/chat_idempotency.py and app/routes/chat.py: examples. Bodies are numbers, and only the texts
-- of 7 and of the empty object occur; a time is its number of microseconds.
use law_review_local.Common.{◌≡◌, refl, [], true, false, none, some, ℕ, ◌⊎◌, arith, List, ◌∷◌}
use law_review_local.ChatRequests.{
  ChatLibrary, ChatStore, begin, began, busy, fresh, ChatRow, in_progress,
}
use law_review_local.ChatRequests.Turns.{Draft, done, fault, case_chat, model_failed}
use law_review_local.ChatRequests.Replay.{begin-once, AllBusy, after_claims}
use law_review_local.ChatRequests.Exactly.{Submission}
use law_review_local.ChatRequests.Failures.{case_chat-refused}

data Answer : Type 0 where
  seven : Answer

abbrev plain : ChatLibrary Answer
plain = record {
  from_iso = λ s. some (record { at = 5; zoned = true });
  iso = λ t. "day";
  before = λ a b. false;
  dumps = λ b. "7";
  loads = λ j. seven;
  strip = λ s. s;
  title = λ s. s;
}

abbrev quiet : ChatStore
quiet = record {
  rows = λ c q. none;
  last_purge = 0;
  conversations = [];
  next_conversation = 1;
  messages = [];
  next_message = 1;
  audit = [];
}

abbrev draft : Draft Answer
draft = record {
  question = "who signed?";
  answer = "the buyer";
  citations = "[]";
  route = "all";
  provenance = "{}";
  user_name = "bo";
  kind = "answer";
  source_run_id = none;
  audit = none;
  result = λ v m. seven;
}

abbrev claimed : ChatStore
unfolding begin
claimed = (begin plain 1 "request-1" 10 0 quiet).0

abbrev two_claims : List (ℕ × ℕ)
two_claims = (20, 0) ∷ (25, 0) ∷ []

begin-once_example :
    AllBusy plain 1 "request-1" two_claims claimed
    × ((r : ChatRow) × ((after_claims plain 1 "request-1" two_claims claimed).rows 1 "request-1"
          ≡ some r)
        × (claimed.rows 1 "request-1" ≡ some r)
        × (r.status ≡ in_progress))
unfolding begin
begin-once_example =
    begin-once plain 1 "request-1" 10 0 (record { at = 5; zoned = true }) two_claims quiet claimed
      refl refl ((omega arith, refl), ((omega arith, refl), tt)) refl

abbrev answered_store : ChatStore
unfolding case_chat
answered_store = (case_chat plain 1 none (some "request-1") (done draft) 10 0 20 quiet).0

abbrev retry : ℕ → Submission plain
retry t = record {
  conversation = some 4;
  outcome = fault (model_failed 503);
  time = t;
  mono = 0;
  answer_time = t;
}

abbrev retries : List (Submission plain)
retries = retry 30 ∷ retry 40 ∷ []

abbrev failed_store : ChatStore
unfolding case_chat
failed_store =
    (case_chat plain 1 none (some "request-1") (fault (model_failed 503)) 10 0 20 quiet).0

case_chat-refused_example :
    (failed_store.messages ≡ quiet.messages)
    × (failed_store.conversations ≡ quiet.conversations)
    × (((begin plain 1 "request-1" 10 0 quiet).1 ≡ busy)
        ⊎ ((t mono : ℕ) → (begin plain 1 "request-1" t mono failed_store).1 ≡ began (fresh plain)))
unfolding case_chat
case_chat-refused_example =
    case_chat-refused plain 1 "request-1" none (fault (model_failed 503)) 10 0 20 503 quiet
      failed_store refl
