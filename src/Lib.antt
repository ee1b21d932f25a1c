-- ===== src/Lib.antt =====
-- Verification of Shadow Forge's agent service (services/agentd-py/agentd).
--
-- The service plans and applies changes of code with a language model. A task runs through a fixed
-- life cycle. Its steps are carried out by a tool loop, in which the model reads files and proposes
-- patches; a state machine says which tools the model may use next. A patch is checked first
-- (the preflight check, against a policy on paths and a simulation) and then applied to the files of
-- a shadow workspace. Long histories are compacted, events are broadcast to subscribers, and the
-- chat shows the state of the active task.
--
-- The files and the code that each models (paths are below services/agentd-py/agentd):
--   Task       domain/state_machine.py: the table of statuses, `transition` with its log, usage and
--              budget, on the fields of domain/models.py that they read. A `datetime` is a number.
--   Policy     patch/policy.py: `ForbiddenPathPolicy`, with the standard library's `fnmatch`.
--   Patch      patch/engine.py, the first format: `preflight_patch_document` (Patch.Simulate is one
--              operation, Patch.Preflight the loop) and `apply_patch_document` (Patch.Apply).
--   Candidate  patch/engine.py, the second format: selectors (Candidate.Select), one operation
--              (Candidate.Simulate), `preflight_patch_candidate` (Candidate.Preflight) and
--              `apply_patch_candidate` (Candidate.Apply).
--   Diff       patch/parser.py and patch/utils.py: the parser of fenced diffs, hunks, and relative
--              indentation (Diff.Indent); Diff.Hunk is `apply_hunk_to_text` of patch/engine.py.
--   Verify     tools/verify_phase_sm.py: the machine of the verify phase. Its exceptions stand beside
--              the machine that they leave behind.
--   Env        env/manifest_match.py and env/auto_sync.py: which install a patch of a manifest
--              schedules, and the install.
--   Loop       tools/loop.py: the tool loop of a step. Loop.Patch is its branch of `emit_patch`,
--              Loop.Calls its branch of `tool_call`, Loop.Run one iteration and `run`. Loop.Moves is
--              the loop without its texts: the moves of the machine, the budgets and the trace.
--   Session    chat/edit_session.py, workspace/promote.py, patch/inline_apply.py and
--              `prepare_lightweight` of workspace/shadow.py: the edit session of a chat turn.
--   Graph      retrieval/graph_walker.py: the indexes of a snapshot of the symbol graph, the roots of
--              a query and the walk from a symbol.
--   Validation validation/command_validator.py: the run of commands, the fast check of touched files
--              (Validation.Touched) and the default commands (Validation.Detect, with
--              `resolve_workspace_bin` of tools/_paths.py).
--   Memory     memory/compactor.py: token estimates, truncation and `_select_hot`.
--   Events     orchestrator/broadcaster.py: `EventBroadcaster`.
--   Live       chat/live_state.py: `resolve_thread_live` and the status chips.
--   Todo       chat/todo_ledger.py and chat/todo_source.py: the checklist and `write_todos`.
--   Store      storage/in_memory.py: `InMemoryTaskStore`.
--   Disk       what the patch engine asks of the file system. A file holds its characters as they are
--              written; `read_text` of Text makes carriage returns newlines, as text mode does.
--   Text       the methods of Python's `str`, over lists of code points.
--   Base       the shared names, and dictionaries as lists in the order of insertion.
--
-- How they interact: Patch and Candidate check names with Policy and read and write a Disk;
-- Candidate applies hunks with Diff and takes over the ranges, the creation and the deletion of
-- Patch; Live reads the statuses of Task. Loop drives
-- the machine of Verify and runs the installs of Env; Session reads ops as Loop does.
--
-- State is passed explicitly: a method that changes an object returns the new object, and a call that
-- may raise returns a `Result` or an optional error beside the state it leaves. Loops over lists are
-- recursion on the list; the loop of a step is recursion on the rounds of its budget, which the
-- source counts too; the search for a marker in Diff.Indent is bounded by the range of code points
-- that the source searches. The walk of Graph takes fuel, one unit for an entry of its queue;
-- `cost` is how many entries it may take out at most, and more fuel than this is proved to be
-- enough.
--
-- Parameters. The layout of the workspace (`resolve`, parents, what lies below a path) and Python's
-- `compile` as a test of a source text are fields of `Engine` in Patch.Simulate. The third-party
-- parsers, libcst's rewriting and `difflib.unified_diff` are fields of `Parsers` in Candidate. The
-- validator that runs behind each write is an argument of `apply_patch_candidate`. The language
-- model, the registry of tools, the analyzer, the memory, the patch engine and the user's decision
-- are fields of `Collaborators` in Loop, each a function of the state of all that surrounds the
-- loop; the stored profile, the times of files and `setup_env` are fields of `Installer` in Env; the
-- patch engine and the place of a name are fields of `Workspace` in Session. The processes of
-- Validation are its `Shell`, a function of the commands that have run before; its file system,
-- compilers and parsers are fields of `Tools`, and what detection reads is in `Project`.
--
-- Not modelled: the texts of messages, prompts and log entries; HTTP routes, providers of language
-- models, subprocesses and databases; the orchestrator's step loop, planning, the loop of
-- chat turns and the ranking of retrieval, which call what is modelled here; in Session errors of the
-- file system; in Validation the configuration from the environment and the walk for Python files.
mod Base
pub mod Text
pub mod Disk
pub mod Policy
pub mod Patch
pub mod Diff
pub mod Candidate
pub mod Verify
pub mod Env
pub mod Loop
pub mod Session
pub mod Graph
pub mod Validation
pub mod Task
pub mod Memory
pub mod Events
pub mod Live
pub mod Todo
pub mod Store
