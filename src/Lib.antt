-- ===== src/Lib.antt =====
-- A model of the law review service (the Python package app/), which keeps the cases of a law firm,
-- their parties, review tasks, walls and chat turns in one SQL database.
--
-- A handler is a function from its store to `Http` of the new store: `ok`, or `raise` with the status
-- and the text of the HTTPException. `transaction` of app/db.py rolls back on an exception, so a
-- raised request has no new store. A table with a primary key is a map from keys to rows, or a list
-- in which the order of the ids is the order that the code's queries ask for. Two transactions are
-- two steps; what another request does between a read and the guarded write is a second store.
--
--   Common        conditionals, tests on numbers, lists measured by native numbers, `Http`
--   Access        app/security.py: permissions, case roles, `Principal`, and the checks that the
--                 handlers make (`require_case_access`, `require_permission`, `require_case_role`);
--                 `require_case` of app/routes/common.py; Access/Narrowing, on case roles
--   Audit         the rows of `audit_log`, app/audit_trail.py
--   CaseWalls     app/case_walls.py: `set_wall`, `remove_wall`, `break_glass`, `hidden_case_ids`;
--                 CaseWalls/Visibility and CaseWalls/Lifting: who is kept out after each operation
--   Conflicts     app/conflicts.py: `match_key`, `find_conflicts`; Conflicts/Names, Pairing, Order;
--                 Conflicts/Clearance: `run_check`, `put_parties`, `decide`, `enforce_clearance`, with
--                 Gate (the refusal of work), Decisions, and, on two requests at the same time, Requests,
--                 Searches and Interleaving below it
--   HumanTasks    app/human_tasks.py: `create_task`, `act_on_task` and its guarded updates;
--                 HumanTasks/Lifecycle (transitions, Records, Traces), Rights, Concurrency, Listing
--   ChatRequests  app/chat_idempotency.py, with `record_turn_with_id` of app/context.py and
--                 `case_chat` of app/routes/chat.py in ChatRequests/Turns; Replay, Recording,
--                 Exactly, Failures
--   CaseReports   app/case_reports.py: `create_report`, `act_on_report`; CaseReports/Approval
--                 and Delivery, on approvals. What the files and the live tables hold
--                 (app/report_delivery.py) is a `World`
--   Members       app/members.py: members, tokens, sessions and assignments; Members/Directory, on
--                 updates of a member
--   Login         app/security.py: the limit of login attempts; Login/Guesses, on their sequences
--   Sessions      app/security.py: `session_principal`, `login`, `logout`, OIDC flows and sessions, with
--                 `purge_expired_sessions` of app/db.py; Sessions/Identify, Opening, Flows
--   Middleware    app/security.py: `_required_case_permission`, `_owned_case`; Middleware/Dispatch
--                 and Answers: `AccessMiddleware.dispatch`; Gate, Anonymous and Refusals on it
--   ToolLoop      app/tool_loop.py: `run_tool_loop`; ToolLoop/Tools, `execute_readonly_tool` of
--                 app/agent_tools.py; Rounds, Limits, Transcript and Effects on the loop
--   BatchImport   app/tasks.py: `_process_batch_import`, `_batch_progress`; BatchImport/Files and
--                 Gather on the steps of the files, Completion on runs
--   BankTransactions  app/bank_transactions.py: `_parse_rows`; BankTransactions/Warnings
--                 and Rows on its rows
--   ReportDelivery  app/report_delivery.py: `freeze_body`, `load_body`, `verify_body`;
--                 ReportDelivery/Frozen and Checks, on a freeze and the checks after it
--   ReviewJobs    app/review_jobs.py: jobs, futures and the semaphore, as events; ReviewJobs/Admission
--                 and Ends, on sequences of them
--   People        the principals of the examples, which each part keeps in its module Examples
--
-- The walls and the access test meet in `require_case_access`, which takes the list that
-- `hidden_case_ids` computes; tasks, conflicts and reports call it. Middleware joins
-- the parts: its `World` holds the stores of members, walls and conflicts, and a request to a case's
-- path meets the access test, the permission and the clearance before its handler.
--
-- Numbers are unbounded where Python's and SQLite's are in use here. Times are numbers, of seconds
-- in CaseWalls, Login and Sessions, of microseconds in ChatRequests; a subtraction of times stops at 0, where the
-- comparison that follows has the same answer. No definition runs on fuel: the loops are recursions
-- on lists, and `run_rounds` is one on the number of rounds that the source counts down.
--
-- `put_parties` is one step where its check runs undisturbed, and Requests takes its accesses of the
-- database apart. What `process_one` writes for the files of a batch comes in any order of starts and
-- ends. Of an amount, `Decimal` may also say that it cannot be given in minor units, as for NaN.
--
-- Parameters stand for the standard library: `strip`, slicing, the parsing and printing of dates
-- (`TextLibrary`, `ChatLibrary`), JSON, Unicode folding and the class of white space (`Folding`), and
-- the hash of `_digest`, SHA-256, `Decimal` and regular expressions. A sort of the library is an
-- insertion sort.
--
-- Not modelled: the test of the paths of attachments (`contained_path`), the error of OIDC settings that
-- do not load, an answer of a model that is of the wrong shape, and the moments between the parts of
-- `submit_review`; the model pipeline behind a chat turn (retrieval and language model, app/services.py,
-- app/rag.py), agents, benchmarks and evaluations; the security events of a login, the cookies and the
-- headers of app/security.py, and its exchange with an OIDC provider; PostgreSQL's row-level security;
-- the queue and the lock of imports; the assembly of exports.
pub mod Common
pub mod People
pub mod Access
pub mod Audit
pub mod CaseWalls
pub mod Conflicts
pub mod HumanTasks
pub mod ChatRequests
pub mod CaseReports
pub mod Members
pub mod Login
pub mod Sessions
pub mod Middleware
pub mod ToolLoop
pub mod BatchImport
pub mod ReportDelivery
pub mod ReviewJobs
pub mod BankTransactions
