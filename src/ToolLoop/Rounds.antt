-- ===== src/ToolLoop/Rounds.antt =====
-- app/tool_loop.py: what every round or call keeps, over the whole loop.
use law_review_local.ToolLoop.{
  Library, Fields, Execution, run_calls, run_rounds, Progress, Message, ToolCall, Outcome, run_call,
  Reply, run_tool_loop, next, run_round, Surroundings, initial_progress, started, endpoint_failure,
  resolve_limits,
}
use law_review_local.Common.{
  String, ℕ, List, Option, ◌⊎◌, ◌∷◌, [], suc, some, none, Bool-cases, zero, inr, inl,
}

module _ {ℓ} {S : Type ℓ} (l : Library) (ex : S → String → Fields → S × Execution)
    (budget : ℕ) where
  pub ended :
      (P : Progress S → Type 0) (done : Progress S × Option Outcome) (rest : Progress S × Outcome)
      → P done.0
      → P rest.0
      → P (next done rest).0
  ended P (g, some o) rest a b = a
  ended P (g, none) rest a b = b

  -- What every round keeps holds at the end of the loop.
  pub run_rounds-kept :
      (P : Progress S → Type 0) (post : ℕ → List Message → Reply)
      → ((k : ℕ) (r : Reply) (g : Progress S) → P g → P (run_round l ex budget k r g).0)
      → (n k : ℕ) (g : Progress S) → P g
      → P (run_rounds l ex post budget n k g).0
  unfolding run_rounds
  run_rounds-kept P post keeps zero k g h = h
  run_rounds-kept P post keeps (suc n) k g h =
      let done = run_round l ex budget k (post k g.messages) g in
      let after = keeps k (post k g.messages) g h in
      ended P done (run_rounds l ex post budget n (suc k) done.0) after
        (run_rounds-kept P post keeps n (suc k) done.0 after)

  pub run_calls-kept :
      (P : Progress S → Type 0)
      → ((k : ℕ) (c : ToolCall) (g : Progress S) → P g → P (run_call l ex budget k c g))
      → (k : ℕ) (cs : List ToolCall) (g : Progress S) → P g
      → P (run_calls l ex budget k cs g)
  unfolding run_calls
  run_calls-kept P keeps k [] g h = h
  run_calls-kept P keeps k (c ∷ cs) g h =
      run_calls-kept P keeps k cs (run_call l ex budget k c g) (keeps k c g h)

module _ {ℓ} {S : Type ℓ} (l : Library) (ex : S → String → Fields → S × Execution)
    (post : ℕ → List Message → Reply) where
  started-kept :
      (P : Progress S → Type 0) (messages : List Message) (s : S) (failure : Option String)
      (limits : (ℕ × ℕ) ⊎ String)
      → ((budget k : ℕ) (r : Reply) (g : Progress S) → P g → P (run_round l ex budget k r g).0)
      → P (initial_progress messages s)
      → P (started l ex post messages s failure limits).0
  started-kept P messages s failure (inr e) keeps h = h
  started-kept P messages s (some e) (inl (rounds, budget)) keeps h = h
  started-kept P messages s none (inl (rounds, budget)) keeps h =
      run_rounds-kept l ex budget P post (keeps budget) rounds 0 (initial_progress messages s) h

  -- What every round keeps holds at the end, if it holds at the start.
  pub run_tool_loop-kept :
      (P : Progress S → Type 0) (x : Surroundings) (max_rounds max_tool_calls : Option ℕ)
      (messages : List Message) (s : S)
      → ((budget k : ℕ) (r : Reply) (g : Progress S) → P g → P (run_round l ex budget k r g).0)
      → P (initial_progress messages s)
      → P (run_tool_loop l ex post x max_rounds max_tool_calls messages s).0
  unfolding run_tool_loop
  run_tool_loop-kept P x max_rounds max_tool_calls messages s keeps h =
      elim (Bool-cases x.governed) [
        | inl e ↦ rw e h
        | inr e ↦ elim (Bool-cases x.openai_completions) [
          | inr f ↦ rw e (rw f h)
          | inl f ↦ rw e (
              rw f (
                started-kept P messages s (endpoint_failure x)
                  (resolve_limits max_rounds max_tool_calls) keeps h))
        ]
      ]
