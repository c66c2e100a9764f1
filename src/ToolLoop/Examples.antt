-- ===== src/ToolLoop/Examples.antt =====
-- app/tool_loop.py: an example. The model asks for two searches and for a tool that is not listed, then
-- it answers; the loop may execute two calls.
use law_review_local.Common.{
  length, String, ℕ, List, none, false, str_eq, some, true, ◌∷◌, ◌≤◌, [], ◌≡◌, ◌+◌, suc, refl, zero,
}
use law_review_local.Access.{require_case_access}
use law_review_local.ToolLoop.{
  Surroundings, Library, run_tool_loop, Message, ToolCall, Fields, Reply, Execution, system, object,
  replied, returned, user, max_rounds_limit, max_tool_calls_limit,
}
use law_review_local.ToolLoop.Tools.{execute_readonly_tool, ToolAnswer, found}
use law_review_local.People.{ann}
use law_review_local.ToolLoop.Effects.{run_tool_loop-no_access}
use law_review_local.ToolLoop.Limits.{run_tool_loop-bounded}
use law_review_local.ToolLoop.Transcript.{owed_after, run_tool_loop-answered}

abbrev library : Library
library = record {
  loads = λ s. none;
  dumps = λ fs. "{}";
  size = λ s. 2;
  is_blank = λ s. str_eq s "";
  clip = λ s. s;
  strip_reasoning = λ s. s;
}

abbrev ask : String → String → ToolCall
ask i name = record { id = i; name = some name; arguments = object [] }

abbrev model : ℕ → List Message → Reply
model zero ms = replied (record {
  content = "";
  tool_calls = ask "a" "search" ∷ ask "b" "delete" ∷ ask "c" "search" ∷ [];
  usage = none;
})
model (suc k) ms = replied (record { content = "done"; tool_calls = []; usage = some "9" })

abbrev ready : Surroundings
ready = record {
  governed = false;
  openai_completions = true;
  endpoint_error = none;
  model_error = none;
}

abbrev question : List Message
question = system "rules" ∷ user "question" ∷ []

abbrev counter : ℕ → String → Fields → ℕ × Execution
counter n name params = (n + 1, returned [])

run_tool_loop-bounded_example :
    (length (run_tool_loop library counter model ready none (some 2) question 0).0.llm_calls
      ≤ max_rounds_limit)
    × ((run_tool_loop library counter model ready none (some 2) question 0).0.used
        ≤ max_tool_calls_limit)
    × (length (run_tool_loop library counter model ready none (some 2) question 0).0.trace
        ≡ (run_tool_loop library counter model ready none (some 2) question 0).0.used)
run_tool_loop-bounded_example =
    run_tool_loop-bounded library counter model ready none (some 2) question 0

run_tool_loop-answered_example :
    owed_after [] (run_tool_loop library counter model ready none (some 2) question 0).0.messages
    ≡ some []
run_tool_loop-answered_example =
    run_tool_loop-answered library counter model ready none (some 2) question 0 refl

-- One search is executed, the unlisted tool uses the second call, and the third is refused.
one_search : (run_tool_loop library counter model ready none (some 2) question 0).0.outside ≡ 1
unfolding run_tool_loop
one_search = refl

abbrev finds : String → ℕ → String → Fields → ToolAnswer
finds item c name params = found (record { items = item ∷ []; metrics = none })

run_tool_loop-no_access_example :
    (run_tool_loop library
        (execute_readonly_tool (λ is. "[]") (finds "x") (λ n e. e) ann [] 2)
        model
        ready
        none
        none
        question
        []
      ≡ run_tool_loop library
          (execute_readonly_tool (λ is. "[]") (finds "y") (λ n e. e) ann [] 2)
          model
          ready
          none
          none
          question
          [])
    × ((run_tool_loop library
          (execute_readonly_tool (λ is. "[]") (finds "x") (λ n e. e) ann [] 2)
          model
          ready
          none
          none
          question
          []).0.outside
        ≡ [])
unfolding require_case_access
run_tool_loop-no_access_example =
    run_tool_loop-no_access (λ is. "[]") (finds "x") (finds "y") (λ n e. e) ann [] 2 library model
      ready none none question [] refl
