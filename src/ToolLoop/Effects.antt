-- ===== src/ToolLoop/Effects.antt =====
-- app/tool_loop.py with app/agent_tools.py: what a loop does through its tools.
use law_review_local.Common.{
  ℕ, String, ◌≡◌, true, Option, some, Bool-cases, leb, inr, inl, none, ◌+◌, List, succeeded, ◌∷◌,
  false, [], ap, Http, ◌>>◌, ◌∙◌, refl, raise, ok, arith,
}
use law_review_local.ToolLoop.{
  Library, Fields, Execution, is_readonly, run_call, run_tool, ToolCall, Arguments, Progress,
  execute, safe_arguments, Message, run_round, after_calls, Reply, broken, Surroundings,
  run_tool_loop, replied, received, no_tools,
}
use law_review_local.ToolLoop.Tools.{execute_readonly_tool, ToolAnswer, admitted_call}
use law_review_local.Access.{Principal, require_case_access, require_permission, view}
use law_review_local.Audit.{AuditRow}
use law_review_local.ToolLoop.Rounds.{run_tool_loop-kept, run_calls-kept}

module _ {ℓ} {S : Type ℓ} (P : ℕ → S → Type 0) (l : Library)
    (ex : S → String → Fields → S × Execution)
    (keeps : (n : ℕ) (s : S) (name : String) (params : Fields)
      → is_readonly name ≡ true
      → P n s
      → P (n + 1) (ex s name params).0)
    (idle : (n : ℕ) (s : S) → P n s → P (n + 1) s) where
  run_tool-effect :
      (n : ℕ) (s : S) (name : Option String) (arguments : Arguments)
      → P n s
      → P (n + 1) (run_tool l ex s name arguments).0
  unfolding run_tool
  run_tool-effect n s none arguments h = idle n s h
  run_tool-effect n s (some name) arguments h = elim (Bool-cases (is_readonly name)) [
    | inr e ↦ rw e (idle n s h)
    | inl e ↦ rw e (executed e (safe_arguments l arguments))
  ]
    where
      executed : is_readonly name ≡ true → (o : Option Fields) → P (n + 1) (execute l ex s name o).0
      executed e none = idle n s h
      executed e (some params) = keeps n s name params e h

  run_call-effect :
      (budget k : ℕ) (c : ToolCall) (g : Progress S)
      → P g.used g.outside
      → P (run_call l ex budget k c g).used (run_call l ex budget k c g).outside
  unfolding run_call
  run_call-effect budget k c g h = elim (Bool-cases (leb budget g.used)) [
    | inl e ↦ rw e h
    | inr e ↦ rw e (run_tool-effect g.used g.outside c.name c.arguments h)
  ]

  run_round-effect :
      (budget k : ℕ) (r : Reply) (g : Progress S)
      → P g.used g.outside
      → P (run_round l ex budget k r g).0.used (run_round l ex budget k r g).0.outside
  unfolding run_round after_calls
  run_round-effect budget k no_tools g h = h
  run_round-effect budget k (broken e) g h = h
  run_round-effect budget k (replied m) g h = over m.tool_calls
    where
      over :
          (cs : List ToolCall)
          → P
              (after_calls l ex budget k m.content cs (received m.usage g)).0.used
              (after_calls l ex budget k m.content cs (received m.usage g)).0.outside
      over [] = h
      over (c ∷ cs) =
          run_calls-kept l ex budget (λ z. P z.used z.outside) (run_call-effect budget) k (c ∷ cs) _
            h

  -- What the calls of read-only tools keep, counted by them, the loop keeps.
  pub run_tool_loop-effect :
      (post : ℕ → List Message → Reply) (x : Surroundings) (max_rounds max_tool_calls : Option ℕ)
      (messages : List Message) (s : S)
      → P 0 s
      → P
          (run_tool_loop l ex post x max_rounds max_tool_calls messages s).0.used
          (run_tool_loop l ex post x max_rounds max_tool_calls messages s).0.outside
  run_tool_loop-effect post x max_rounds max_tool_calls messages s h =
      run_tool_loop-kept l ex post (λ z. P z.used z.outside) x max_rounds max_tool_calls messages s
        run_round-effect h

admitted_call-raised :
    (dump : List String → String) (tools other_tools : ℕ → String → Fields → ToolAnswer)
    (show : ℕ → String → String) (c : ℕ) (p : Principal) (s : List AuditRow) (name : String)
    (params : Fields) (m : Http (Unit {0}))
    → succeeded m ≡ false
    → (admitted_call dump tools show c p s name params m
        ≡ admitted_call dump other_tools show c p s name params m)
      × ((admitted_call dump tools show c p s name params m).0 ≡ s)
admitted_call-raised dump tools other_tools show c p s name params (raise n e) h = (refl, refl)
admitted_call-raised dump tools other_tools show c p s name params (ok done) h =
    absurd (ground (arith, h))

refused_first : (m n : Http (Unit {0})) → succeeded n ≡ false → succeeded (m >> n) ≡ false
refused_first (raise k e) n h = refl
refused_first (ok done) n h = h

execute_readonly_tool-refused :
    (dump : List String → String) (tools other_tools : ℕ → String → Fields → ToolAnswer)
    (show : ℕ → String → String) (p : Principal) (hidden : List ℕ) (c : ℕ) (s : List AuditRow)
    (name : String) (params : Fields)
    → succeeded (require_case_access p hidden c) ≡ false
    → (execute_readonly_tool dump tools show p hidden c s name params
        ≡ execute_readonly_tool dump other_tools show p hidden c s name params)
      × ((execute_readonly_tool dump tools show p hidden c s name params).0 ≡ s)
unfolding execute_readonly_tool
execute_readonly_tool-refused dump tools other_tools show p hidden c s name params h =
    admitted_call-raised dump tools other_tools show c p s name params _
      (refused_first (require_permission p view none) (require_case_access p hidden c) h)

-- A loop over a case that the principal has no access to runs no tool: its messages and its outcome do
-- not depend on what the tools would find, and no audit row is written.
pub run_tool_loop-no_access :
    (dump : List String → String) (tools other_tools : ℕ → String → Fields → ToolAnswer)
    (show : ℕ → String → String) (p : Principal) (hidden : List ℕ) (c : ℕ) (l : Library)
    (post : ℕ → List Message → Reply) (x : Surroundings) (max_rounds max_tool_calls : Option ℕ)
    (messages : List Message) (s : List AuditRow)
    → succeeded (require_case_access p hidden c) ≡ false
    → (run_tool_loop l
          (execute_readonly_tool dump tools show p hidden c)
          post
          x
          max_rounds
          max_tool_calls
          messages
          s
        ≡ run_tool_loop l
            (execute_readonly_tool dump other_tools show p hidden c)
            post
            x
            max_rounds
            max_tool_calls
            messages
            s)
      × ((run_tool_loop l
            (execute_readonly_tool dump tools show p hidden c)
            post
            x
            max_rounds
            max_tool_calls
            messages
            s).0.outside
          ≡ s)
run_tool_loop-no_access dump tools other_tools show p hidden c l post x max_rounds max_tool_calls
      messages s h =
    let refuse = λ (r : List AuditRow) (name : String) (params : Fields).
      execute_readonly_tool-refused dump tools other_tools show p hidden c r name params h in
    (
      ap (λ ex. run_tool_loop l ex post x max_rounds max_tool_calls messages s)
          (λ i r name params. (refuse r name params).0 i),
      run_tool_loop-effect (λ n r. r ≡ s) l (execute_readonly_tool dump tools show p hidden c)
          (λ n r name params only same. (refuse r name params).1 ∙ same) (λ n r same. same) post x
          max_rounds max_tool_calls messages s refl,
    )
