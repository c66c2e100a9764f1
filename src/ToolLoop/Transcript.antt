-- ===== src/ToolLoop/Transcript.antt =====
-- app/tool_loop.py: the messages that the loop hands to the model.
use law_review_local.Common.{
  Option, List, String, map, ◌++◌, some, ◌≡◌, [], none, ◌∷◌, Bool-cases, if◌then◌else◌, str_eq, inl,
  ℕ, inr, ◌∙◌, refl, str_eq_refl, leb,
}
use law_review_local.ToolLoop.{
  ToolCall, Message, system, user, assistant, run_tool_loop, tool_reply, Library, Fields, Execution,
  Reply, run_calls, run_call, Progress, run_round, after_calls, Surroundings, broken, replied,
  received, no_tools,
}
use law_review_local.ToolLoop.Rounds.{run_tool_loop-kept}

abbrev pub call_ids : List ToolCall → List String
call_ids cs = map (λ c. c.id) cs

-- The ids of the calls that some messages leave to be answered, from those that were owed before, or
-- none if a message of a tool stands elsewhere than in the place of the next answer, or another message
-- while one is owed.
abbrev pub owed_after : List String → List Message → Option (List String)
owed_after owed [] = some owed
owed_after [] (system t ∷ ms) = owed_after [] ms
owed_after [] (user t ∷ ms) = owed_after [] ms
owed_after [] (assistant t cs ∷ ms) = owed_after (call_ids cs) ms
owed_after [] (tool_reply i t ∷ ms) = none
owed_after (i ∷ owed) (tool_reply j t ∷ ms) = if str_eq i j then owed_after owed ms else none
owed_after (i ∷ owed) (system t ∷ ms) = none
owed_after (i ∷ owed) (user t ∷ ms) = none
owed_after (i ∷ owed) (assistant t cs ∷ ms) = none

abbrev then_left : Option (List String) → List Message → Option (List String)
then_left none ms = none
then_left (some owed) ms = owed_after owed ms

owed_after-append :
    (owed : List String) (ms ns : List Message)
    → owed_after owed (ms ++ ns) ≡ then_left (owed_after owed ms) ns
owed_after-append owed [] ns = refl
owed_after-append [] (system t ∷ ms) ns = owed_after-append [] ms ns
owed_after-append [] (user t ∷ ms) ns = owed_after-append [] ms ns
owed_after-append [] (assistant t cs ∷ ms) ns = owed_after-append (call_ids cs) ms ns
owed_after-append [] (tool_reply i t ∷ ms) ns = refl
owed_after-append (i ∷ owed) (tool_reply j t ∷ ms) ns = elim (Bool-cases (str_eq i j)) [
  | inl e ↦ rw e (owed_after-append owed ms ns)
  | inr e ↦ rw e refl
]
owed_after-append (i ∷ owed) (system t ∷ ms) ns = refl
owed_after-append (i ∷ owed) (user t ∷ ms) ns = refl
owed_after-append (i ∷ owed) (assistant t cs ∷ ms) ns = refl

module _ {ℓ} {S : Type ℓ} (l : Library) (ex : S → String → Fields → S × Execution)
    (budget : ℕ) where
  owed_after-run_call :
      (k : ℕ) (c : ToolCall) (owed : List String) (g : Progress S)
      → owed_after [] g.messages ≡ some (c.id ∷ owed)
      → owed_after [] (run_call l ex budget k c g).messages ≡ some owed
  unfolding run_call
  owed_after-run_call k c owed g h = elim (Bool-cases (leb budget g.used)) [
    | inl e ↦ rw e (answers _)
    | inr e ↦ rw e (answers _)
  ]
    where
      answers : (t : String) → owed_after [] (g.messages ++ tool_reply c.id t ∷ []) ≡ some owed
      answers t =
          owed_after-append [] g.messages (tool_reply c.id t ∷ [])
          ∙ rw h (rw (str_eq_refl c.id) refl)

  owed_after-run_calls :
      (k : ℕ) (cs : List ToolCall) (g : Progress S)
      → owed_after [] g.messages ≡ some (call_ids cs)
      → owed_after [] (run_calls l ex budget k cs g).messages ≡ some []
  unfolding run_calls
  owed_after-run_calls k [] g h = h
  owed_after-run_calls k (c ∷ cs) g h =
      owed_after-run_calls k cs (run_call l ex budget k c g)
        (owed_after-run_call k c (call_ids cs) g h)

  abbrev Paired : Progress S → Type 0
  Paired g = owed_after [] g.messages ≡ some []

  run_round-Paired :
      (k : ℕ) (r : Reply) (g : Progress S) → Paired g → Paired (run_round l ex budget k r g).0
  unfolding run_round after_calls
  run_round-Paired k no_tools g h = h
  run_round-Paired k (broken e) g h = h
  run_round-Paired k (replied m) g h = over m.tool_calls
    where
      over :
          (cs : List ToolCall)
          → Paired (after_calls l ex budget k m.content cs (received m.usage g)).0
      over [] = h
      over (c ∷ cs) =
          owed_after-run_calls k (c ∷ cs) _
            (owed_after-append [] g.messages (assistant m.content (c ∷ cs) ∷ []) ∙ rw h refl)

-- If every call in the first messages is answered, then so is every call in the messages at the end of
-- the loop: each by one message of the tool, in the order of the calls and right after the message that
-- makes them, those beyond the budget included.
pub run_tool_loop-answered {ℓ} :
    {S : Type ℓ} (l : Library) (ex : S → String → Fields → S × Execution)
    (post : ℕ → List Message → Reply) (x : Surroundings) (max_rounds max_tool_calls : Option ℕ)
    (messages : List Message) (s : S)
    → owed_after [] messages ≡ some []
    → owed_after [] (run_tool_loop l ex post x max_rounds max_tool_calls messages s).0.messages
      ≡ some []
run_tool_loop-answered l ex post x max_rounds max_tool_calls messages s h =
    run_tool_loop-kept l ex post (λ g. owed_after [] g.messages ≡ some []) x max_rounds
      max_tool_calls messages s (run_round-Paired l ex) h
