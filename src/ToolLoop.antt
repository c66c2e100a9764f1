-- ===== src/ToolLoop.antt =====
-- app/tool_loop.py: the loop of model turns with read-only tools. The model's answers, by the round and
-- the messages, are an argument, and so are JSON and `strip_reasoning`; what the tools work on is a
-- state of any type. A JSON object is the list of its keys with their values. Latencies and the fields
-- of an `llm_calls` row that say where the call belongs are left out.
pub mod Tools
pub mod Rounds
pub mod Limits
pub mod Transcript
pub mod Effects
mod Examples
use law_review_local.Common.{
  List, Bool, String, ◌∷◌, ℕ, Option, some, suc, if◌then◌else◌, leb, any, ◌++◌, [], ◌⊎◌, inr, ◌+◌,
  str_eq, none, zero, not, ltb, ◌&&◌, find?, inl,
}

abbrev pub default_max_rounds : ℕ
default_max_rounds = 3

abbrev pub max_rounds_limit : ℕ
max_rounds_limit = 5

abbrev pub default_max_tool_calls : ℕ
default_max_tool_calls = 6

abbrev pub max_tool_calls_limit : ℕ
max_tool_calls_limit = 10

abbrev pub max_tool_result_chars : ℕ
max_tool_result_chars = 12000

pub data Value : Type 0 where
  text : String → Value
  number : ℕ → Value
  texts : List String → Value
  json : String → Value

abbrev pub Fields : Type 0
Fields = List (String × Value)

-- `key in object` and `object.get(key)`
abbrev pub has_key : String → Fields → Bool
has_key k fs = any (λ f. str_eq f.0 k) fs

abbrev pub value_of : Option (String × Value) → Option Value
value_of none = none
value_of (some f) = some f.1

-- The arguments of a call: an object, a text, or anything else.
pub data Arguments : Type 0 where
  object : Fields → Arguments
  raw_text : String → Arguments
  other : Arguments

pub record ToolCall : Type 0 where
  pub id : String
  pub name : Option String
  pub arguments : Arguments

pub data Message : Type 0 where
  system : String → Message
  user : String → Message
  assistant : String → List ToolCall → Message
  tool_reply : String → String → Message

pub record TraceRow : Type 0 where
  pub round : ℕ
  pub tool : Option String
  pub ok : Bool
  pub count : Option Value

-- What the execution of a tool gives: its result, a `KeyError`, or another exception's type and text.
pub data Execution : Type 0 where
  returned : Fields → Execution
  missing_tool : Execution
  raised : String → String → Execution

-- `loads` gives none for a text that is no JSON, and some none for JSON that is no object.
pub record Library : Type 0 where
  pub loads : String → Option (Option Fields)
  pub dumps : Fields → String
  pub size : String → ℕ
  pub is_blank : String → Bool
  pub clip : String → String
  pub strip_reasoning : String → String

abbrev pub readonly_tool_names : List String
readonly_tool_names =
    "documents" ∷ "evidence" ∷ "search" ∷ "saved_gap_analysis" ∷ "get_page" ∷ "document_outline"
    ∷ "case_overview" ∷ "verify_statute" ∷ "search_statutes" ∷ []

abbrev pub is_readonly : String → Bool
is_readonly name = any (λ n. str_eq n name) readonly_tool_names

-- `sorted(READONLY_TOOL_NAMES)`
abbrev unsupported_tool : Fields
unsupported_tool =
    ("error", text "unsupported_tool")
    ∷ (
      "allowed",
      texts (
          "case_overview" ∷ "document_outline" ∷ "documents" ∷ "evidence" ∷ "get_page"
          ∷ "saved_gap_analysis" ∷ "search" ∷ "search_statutes" ∷ "verify_statute" ∷ []),
    )
    ∷ []

abbrev object_of : Option (Option Fields) → Option Fields
object_of none = none
object_of (some o) = o

unfoldable pub safe_arguments : Library → Arguments → Option Fields
safe_arguments l (object fs) = some fs
safe_arguments l other = some []
safe_arguments l (raw_text s) = if l.is_blank s then some [] else object_of (l.loads s)

unfoldable pub result_of : Library → Execution → Fields
result_of l (returned fs) = fs
result_of l missing_tool = unsupported_tool
result_of l (raised kind detail) =
    ("error", text "tool_failed")
    ∷ ("error_type", text kind)
    ∷ ("message", text (l.clip detail))
    ∷ []

abbrev pub execute {ℓ} :
    {S : Type ℓ}
    → Library
    → (S → String → Fields → S × Execution)
    → S
    → String
    → Option Fields
    → S × Fields
execute l ex s name none =
    (s, ("error", text "invalid_arguments") ∷ ("message", text "工具参数不是合法 JSON 对象") ∷ [])
execute l ex s name (some params) = let done = ex s name params in (done.0, result_of l done.1)

unfoldable pub run_tool {ℓ} :
    {S : Type ℓ}
    → Library
    → (S → String → Fields → S × Execution)
    → S
    → Option String
    → Arguments
    → S × Fields
unfolding safe_arguments result_of
run_tool l ex s none arguments = (s, unsupported_tool)
run_tool l ex s (some name) arguments =
    if is_readonly name
    then execute l ex s name (safe_arguments l arguments)
    else (s, unsupported_tool)

-- The variables of the loop, with the rows of `llm_calls` by their status and the tools' own state.
pub record Progress {ℓ} (S : Type ℓ) : Type ℓ where
  pub messages : List Message
  pub trace : List TraceRow
  pub used : ℕ
  pub usage : Option String
  pub llm_calls : List String
  pub outside : S

unfoldable pub encoded : Library → Fields → String
encoded l fs =
    if ltb max_tool_result_chars (l.size (l.dumps fs))
    then l.dumps
        (("error", text "tool_result_too_large") ∷ ("chars", number (l.size (l.dumps fs))) ∷ [])
    else l.dumps fs

-- One turn of the loop over the calls of a reply; `k` is the index of the round.
unfoldable pub run_call {ℓ} :
    {S : Type ℓ}
    → Library
    → (S → String → Fields → S × Execution)
    → ℕ
    → ℕ
    → ToolCall
    → Progress S
    → Progress S
unfolding run_tool encoded
run_call l ex budget k call g =
    if leb budget g.used
    then record g {
      messages =
          g.messages
          ++ tool_reply call.id (l.dumps (("error", text "tool_budget_exhausted") ∷ [])) ∷ [];
    }
    else let done = run_tool l ex g.outside call.name call.arguments in
      record g {
        used = g.used + 1;
        outside = done.0;
        trace =
            g.trace
            ++ record {
              round = k + 1;
              tool = call.name;
              ok = not (has_key "error" done.1);
              count = value_of (find? (λ f. str_eq f.0 "count") done.1);
            }
              ∷ [];
        messages = g.messages ++ tool_reply call.id (encoded l done.1) ∷ [];
      }

unfoldable pub run_calls {ℓ} :
    {S : Type ℓ}
    → Library
    → (S → String → Fields → S × Execution)
    → ℕ
    → ℕ
    → List ToolCall
    → Progress S
    → Progress S
unfolding run_call
run_calls l ex budget k [] g = g
run_calls l ex budget k (c ∷ cs) g = run_calls l ex budget k cs (run_call l ex budget k c g)

-- What a post gives: `choices[0].message` and the usage, a refusal of the tools, or another failure.
pub record Choice : Type 0 where
  pub content : String
  pub tool_calls : List ToolCall
  pub usage : Option String

pub data Reply : Type 0 where
  replied : Choice → Reply
  no_tools : Reply
  broken : String → Reply

pub data Outcome : Type 0 where
  answered : String → ℕ → List TraceRow → ℕ → Option String → Outcome
  tools_unsupported : Outcome
  failed : String → Outcome
  value_error : String → Outcome

abbrev pub or_usage : Option String → Option String → Option String
or_usage none old = old
or_usage (some u) old = some u

abbrev pub logged {ℓ} : {S : Type ℓ} → String → Progress S → Progress S
logged status g = record g { llm_calls = g.llm_calls ++ status ∷ [] }

abbrev finished {ℓ} : {S : Type ℓ} → Library → ℕ → String → Progress S → Outcome
finished l k content g =
    if str_eq (l.strip_reasoning content) ""
    then failed "本地模型返回了推理草稿或空正文"
    else answered (l.strip_reasoning content) (k + 1) g.trace g.used g.usage

abbrev pub received {ℓ} : {S : Type ℓ} → Option String → Progress S → Progress S
received u g = record (logged "ok" g) { usage = or_usage u g.usage }

unfoldable pub after_calls {ℓ} :
    {S : Type ℓ}
    → Library
    → (S → String → Fields → S × Execution)
    → ℕ
    → ℕ
    → String
    → List ToolCall
    → Progress S
    → Progress S × Option Outcome
unfolding run_calls
after_calls l ex budget k content [] g = (g, some (finished l k content g))
after_calls l ex budget k content (c ∷ cs) g = (
  run_calls l ex budget k (c ∷ cs)
      (record g { messages = g.messages ++ assistant content (c ∷ cs) ∷ [] }),
  none,
)

-- One round: the state after it, and the outcome if the loop ends there.
unfoldable pub run_round {ℓ} :
    {S : Type ℓ}
    → Library
    → (S → String → Fields → S × Execution)
    → ℕ
    → ℕ
    → Reply
    → Progress S
    → Progress S × Option Outcome
unfolding after_calls
run_round l ex budget k no_tools g = (g, some tools_unsupported)
run_round l ex budget k (broken kind) g = (logged "failed" g, some (failed kind))
run_round l ex budget k (replied m) g =
    after_calls l ex budget k m.content m.tool_calls (received m.usage g)

abbrev pub next {ℓ} :
    {S : Type ℓ} → Progress S × Option Outcome → Progress S × Outcome → Progress S × Outcome
next (g, some o) rest = (g, o)
next (g, none) rest = rest

-- `for round_index in range(rounds)`, from the round `k` on with `n` rounds left.
unfoldable pub run_rounds {ℓ} :
    {S : Type ℓ}
    → Library
    → (S → String → Fields → S × Execution)
    → (ℕ → List Message → Reply)
    → ℕ
    → ℕ
    → ℕ
    → Progress S
    → Progress S × Outcome
unfolding run_round
run_rounds l ex post budget zero k g = (g, failed "工具调用轮次超过上限仍未得到最终回答")
run_rounds l ex post budget (suc n) k g =
    let done = run_round l ex budget k (post k g.messages) g in
    let rest = run_rounds l ex post budget n (suc k) done.0 in next done rest

abbrev pub limited : ℕ → Option ℕ → ℕ
limited d none = d
limited d (some n) = n

abbrev pub within : ℕ → ℕ → Bool
within n most = leb 1 n && leb n most

-- A negative limit is refused as 0 is.
unfoldable pub resolve_limits : Option ℕ → Option ℕ → (ℕ × ℕ) ⊎ String
resolve_limits rounds calls =
    if not (within (limited default_max_rounds rounds) max_rounds_limit)
    then inr "max_rounds 必须在 1 至 5 之间"
    else if not (within (limited default_max_tool_calls calls) max_tool_calls_limit)
    then inr "max_tool_calls 必须在 1 至 10 之间"
    else inl (limited default_max_rounds rounds, limited default_max_tool_calls calls)

-- The tests before the loop: the host's governance, the protocol, the address of the model and whether
-- it answers, which are outside this module.
pub record Surroundings : Type 0 where
  pub governed : Bool
  pub openai_completions : Bool
  pub endpoint_error : Option String
  pub model_error : Option String

abbrev pub initial_progress {ℓ} : {S : Type ℓ} → List Message → S → Progress S
initial_progress messages s = record {
  messages = messages;
  trace = [];
  used = 0;
  usage = none;
  llm_calls = [];
  outside = s;
}

abbrev pub endpoint_failure : Surroundings → Option String
endpoint_failure x = elim x.endpoint_error [ some e ↦ some e | none ↦ x.model_error ]

abbrev pub started {ℓ} :
    {S : Type ℓ}
    → Library
    → (S → String → Fields → S × Execution)
    → (ℕ → List Message → Reply)
    → List Message
    → S
    → Option String
    → (ℕ × ℕ) ⊎ String
    → Progress S × Outcome
started l ex post messages s failure (inr e) = (initial_progress messages s, value_error e)
started l ex post messages s (some e) (inl (rounds, budget)) =
    (initial_progress messages s, failed e)
started l ex post messages s none (inl (rounds, budget)) =
    run_rounds l ex post budget rounds 0 (initial_progress messages s)

-- `run_tool_loop`, from the messages that `_messages` puts together.
unfoldable pub run_tool_loop {ℓ} :
    {S : Type ℓ}
    → Library
    → (S → String → Fields → S × Execution)
    → (ℕ → List Message → Reply)
    → Surroundings
    → Option ℕ
    → Option ℕ
    → List Message
    → S
    → Progress S × Outcome
unfolding run_rounds resolve_limits
run_tool_loop l ex post x max_rounds max_tool_calls messages s =
    if x.governed
    then (initial_progress messages s, failed "tool_loop_unavailable_under_host_governance")
    else if not x.openai_completions
    then (initial_progress messages s, tools_unsupported)
    else started l ex post messages s (endpoint_failure x)
        (resolve_limits max_rounds max_tool_calls)
