-- ===== src/ToolLoop/Limits.antt =====
-- app/tool_loop.py: the limits of the loop on its rounds, its posts and its tool calls.
use law_review_local.ToolLoop.{
  run_tool_loop, Library, resolve_limits, Progress, Fields, within, max_rounds_limit, Execution,
  limited, run_calls, run_call, max_tool_calls_limit, run_round, run_rounds, default_max_rounds,
  after_calls, Message, ToolCall, default_max_tool_calls, Reply, started, Surroundings, broken,
  endpoint_failure, replied, initial_progress, received, no_tools, assistant,
}
use law_review_local.Common.{
  ℕ, ◌⊎◌, length, String, Option, ◌≤◌, inl, Bool-cases, List, ◌≡◌, inr, leb, ◌∷◌, ◌+◌, ◌∙◌, arith,
  length-append, [], suc, some, refl, none, ◌++◌, zero,
}
use law_review_local.ToolLoop.Rounds.{run_rounds-kept, ended, run_calls-kept}

module _ {ℓ} {S : Type ℓ} (l : Library) (ex : S → String → Fields → S × Execution)
    (budget : ℕ) where
  abbrev Counted : Progress S → Type 0
  Counted g = (g.used ≤ budget) × (length g.trace ≡ g.used)

  run_call-Counted :
      (k : ℕ) (c : ToolCall) (g : Progress S) → Counted g → Counted (run_call l ex budget k c g)
  unfolding run_call
  run_call-Counted k c g (a, b) = elim (Bool-cases (leb budget g.used)) [
    | inl e ↦ rw e (a, b)
    | inr e ↦ rw e (ground (arith, e), omega (arith, length-append g.trace (_ ∷ []), b))
  ]

  run_round-Counted :
      (k : ℕ) (r : Reply) (g : Progress S) → Counted g → Counted (run_round l ex budget k r g).0
  unfolding run_round after_calls
  run_round-Counted k no_tools g h = h
  run_round-Counted k (broken e) g h = h
  run_round-Counted k (replied m) g h = over m.tool_calls
    where
      over :
          (cs : List ToolCall)
          → Counted (after_calls l ex budget k m.content cs (received m.usage g)).0
      over [] = h
      over (c ∷ cs) = run_calls-kept l ex budget Counted run_call-Counted k (c ∷ cs) _ h

  run_calls-llm_calls :
      (k : ℕ) (cs : List ToolCall) (g : Progress S)
      → (run_calls l ex budget k cs g).llm_calls ≡ g.llm_calls
  unfolding run_calls run_call
  run_calls-llm_calls k [] g = refl
  run_calls-llm_calls k (c ∷ cs) g = elim (Bool-cases (leb budget g.used)) [
    | inl e ↦ run_calls-llm_calls k cs (run_call l ex budget k c g) ∙ rw e refl
    | inr e ↦ run_calls-llm_calls k cs (run_call l ex budget k c g) ∙ rw e refl
  ]

  run_round-llm_calls :
      (k : ℕ) (r : Reply) (g : Progress S)
      → length (run_round l ex budget k r g).0.llm_calls ≤ length g.llm_calls + 1
  unfolding run_round after_calls
  run_round-llm_calls k no_tools g = omega arith
  run_round-llm_calls k (broken e) g = omega (arith, length-append g.llm_calls ("failed" ∷ []))
  run_round-llm_calls k (replied m) g = over m.tool_calls
    where
      over :
          (cs : List ToolCall)
          → length (after_calls l ex budget k m.content cs (received m.usage g)).0.llm_calls
            ≤ length g.llm_calls + 1
      over [] = omega (arith, length-append g.llm_calls ("ok" ∷ []))
      over (c ∷ cs) =
          rw
            (run_calls-llm_calls k (c ∷ cs) (record (received m.usage g) {
              messages = g.messages ++ assistant m.content (c ∷ cs) ∷ [];
            }))
            (omega (arith, length-append g.llm_calls ("ok" ∷ [])))

  run_rounds-llm_calls :
      (post : ℕ → List Message → Reply) (n k : ℕ) (g : Progress S)
      → length (run_rounds l ex post budget n k g).0.llm_calls ≤ length g.llm_calls + n
  unfolding run_rounds
  run_rounds-llm_calls post zero k g = omega arith
  run_rounds-llm_calls post (suc n) k g =
      let done = run_round l ex budget k (post k g.messages) g in
      let one = run_round-llm_calls k (post k g.messages) g in
      let rest = run_rounds-llm_calls post n (suc k) done.0 in
      ended l ex budget (λ z. length z.llm_calls ≤ length g.llm_calls + suc n) done
        (run_rounds l ex post budget n (suc k) done.0) (omega (arith, one))
        (omega (arith, one, rest))

  run_rounds-Counted :
      (post : ℕ → List Message → Reply) (n k : ℕ) (g : Progress S)
      → Counted g
      → Counted (run_rounds l ex post budget n k g).0
  run_rounds-Counted post n k g h =
      run_rounds-kept l ex budget Counted post run_round-Counted n k g h

abbrev Within : (ℕ × ℕ) ⊎ String → Type 0
Within (inl (rounds, budget)) = (rounds ≤ max_rounds_limit) × (budget ≤ max_tool_calls_limit)
Within (inr e) = Unit {0}

resolve_limits-Within : (rounds calls : Option ℕ) → Within (resolve_limits rounds calls)
unfolding resolve_limits
resolve_limits-Within rounds calls =
    elim (Bool-cases (within (limited default_max_rounds rounds) max_rounds_limit)) [
      | inl e ↦
          elim (Bool-cases (within (limited default_max_tool_calls calls) max_tool_calls_limit)) [
            | inl f ↦ rw e (rw f (ground (arith, e), ground (arith, f)))
            | inr f ↦ rw e (rw f tt)
          ]
      | inr e ↦ rw e tt
    ]

abbrev Bounded {ℓ} : {S : Type ℓ} → Progress S → Type 0
Bounded g =
    (length g.llm_calls ≤ max_rounds_limit)
    × (g.used ≤ max_tool_calls_limit)
    × (length g.trace ≡ g.used)

started-Bounded {ℓ} :
    {S : Type ℓ} (l : Library) (ex : S → String → Fields → S × Execution)
    (post : ℕ → List Message → Reply) (messages : List Message) (s : S) (failure : Option String)
    (limits : (ℕ × ℕ) ⊎ String)
    → Within limits
    → Bounded (started l ex post messages s failure limits).0
started-Bounded l ex post messages s failure (inr e) h = (omega arith, omega arith, refl)
started-Bounded l ex post messages s (some e) (inl (rounds, budget)) h =
    (omega arith, omega arith, refl)
started-Bounded l ex post messages s none (inl (rounds, budget)) (a, b) =
    let posts = run_rounds-llm_calls l ex budget post rounds 0 (initial_progress messages s) in
    let (calls, rows) =
      run_rounds-Counted l ex budget post rounds 0 (initial_progress messages s)
        (omega arith, refl) in
    (omega (arith, posts, a), omega (arith, calls, b), rows)

-- However the model answers and whatever the tools do, the loop ends after at most five answered or
-- failed posts and ten executed calls, with one row of the trace for each executed call.
pub run_tool_loop-bounded {ℓ} :
    {S : Type ℓ} (l : Library) (ex : S → String → Fields → S × Execution)
    (post : ℕ → List Message → Reply) (x : Surroundings) (max_rounds max_tool_calls : Option ℕ)
    (messages : List Message) (s : S)
    → (length (run_tool_loop l ex post x max_rounds max_tool_calls messages s).0.llm_calls
        ≤ max_rounds_limit)
      × ((run_tool_loop l ex post x max_rounds max_tool_calls messages s).0.used
          ≤ max_tool_calls_limit)
      × (length (run_tool_loop l ex post x max_rounds max_tool_calls messages s).0.trace
          ≡ (run_tool_loop l ex post x max_rounds max_tool_calls messages s).0.used)
unfolding run_tool_loop
run_tool_loop-bounded l ex post x max_rounds max_tool_calls messages s =
    elim (Bool-cases x.governed) [
      | inl e ↦ rw e (omega arith, omega arith, refl)
      | inr e ↦ elim (Bool-cases x.openai_completions) [
        | inr f ↦ rw e (rw f (omega arith, omega arith, refl))
        | inl f ↦ rw e (
            rw f (
              started-Bounded l ex post messages s (endpoint_failure x)
                (resolve_limits max_rounds max_tool_calls)
                (resolve_limits-Within max_rounds max_tool_calls)))
      ]
    ]
