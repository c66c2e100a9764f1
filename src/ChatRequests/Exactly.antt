-- ===== src/ChatRequests/Exactly.antt =====
-- app/routes/chat.py, `case_chat`: a fresh answer, and later submissions of its request id.
use law_review_local.Common.{ℕ, String, Option, some, ◌≡◌, List, ◌∷◌, []}
use law_review_local.ChatRequests.{json_text, ChatLibrary, ChatStore, json_text}
use law_review_local.ChatRequests.Turns.{Reply, replayed_body, Draft, Turn, case_chat}

module _ {Body : Type 0} (k : ChatLibrary Body) where
  -- A later submission of a request id: its conversation, what the model gives for it, and its times.
  pub record Submission : Type 0 where
    pub conversation : Option ℕ
    pub outcome : Turn (Draft Body)
    pub time : ℕ
    pub mono : ℕ
    pub answer_time : ℕ

  abbrev pub submit : ℕ → String → Submission → ChatStore → ChatStore × Reply k
  submit c q x s = case_chat k c x.conversation (some q) x.outcome x.time x.mono x.answer_time s

  abbrev pub resubmitted : ℕ → String → List Submission → ChatStore → ChatStore
  resubmitted c q [] s = s
  resubmitted c q (x ∷ xs) s = resubmitted c q xs (submit c q x s).0

  -- Each of the submissions, made one after another, replays the body.
  abbrev pub AllReplay : ℕ → String → Body → List Submission → ChatStore → Type 0
  AllReplay c q b [] s = Unit {0}
  AllReplay c q b (x ∷ xs) s =
      ((submit c q x s).1 ≡ replayed_body b) × AllReplay c q b xs (submit c q x s).0
