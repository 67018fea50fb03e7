-- ===== src/Lib.antt =====
-- Verification of the Wave scheduler, the loop sessions, the dependencies and events of changes, the
-- routing of intents and the selection of tests of the harness (cairn-core/scripts/harness_runtime),
-- of the scopes of files (cairn-core/scripts/change_docs.py) and of the upgrade of an installation
-- (cairn-core/cc-cairn.py).
--
-- The program. A change is applied as a graph of tasks. `plan_waves` (wave_plan.py) turns the graph
-- into numbered waves of tasks that may run side by side, and `execute_wave` (wave_execution.py)
-- runs one wave on a thread pool and returns only when each of its tasks has ended. A loop drives one
-- change from command to command: its session (loop_runtime.py) records each step, and the manifest
-- of the command decides which command comes next or that the loop stops. Between changes, deps.py
-- says whether a change may start, which changes declare overlapping files, and which changed files
-- nobody has declared, by the scopes of change_docs.py; test_policy.py selects the tests that a
-- verification runs. intent_router.py recommends the next command from the state of the changes, and
-- events.py checks the lifecycle events that the commands append. cc-cairn.py installs the framework
-- into a project and replaces it by a new release.
--
-- The files.
--   Base           shared helpers: tests, lists, dicts (`Base.Dict`), `sorted` (`Base.Sorting`)
--   WavePlan       wave_plan.py. Task: `TaskNode`, `by_id`, duplicate ids. Cycle: `_detect_cycle`.
--                  Kahn: `_layered_kahn`. Overlap: `_detect_layer_overlap`. Split:
--                  `_split_layer_into_waves`, `_make_wave`. Plan: `plan_waves`
--   WaveExecution  wave_execution.py. Ledger: `WaveLedger`. Outcome: `_normalize_outcome`. Pool: the
--                  executor, `run_one` and the collecting loop. Run: `execute_wave`. Summary:
--                  `execution_summary`, `validate_execution_summary`
--   LoopRuntime    loop_runtime.py. Ids: the patterns of ids. Config: `_require_loop_enabled`. Session:
--                  the state and the errors. Timing: `_phase_timing`. Steps: what `record_step`
--                  decides. Store: `start_session`, `record_step`, `pause_session`,
--                  `resume_session` and `_load_state` on the files
--   Deps           deps.py. Readiness: `check_dependencies`. Orphans: `detect_orphans`. Conflicts:
--                  `detect_file_conflicts`. Graph: `build_dependency_graph`,
--                  `topological_sort`. The governance scopes are a parameter
--   Intents        intent_router.py. State: `_state`. Route: `_single_change_route`, `_status_route`,
--                  `route_intent`
--   Events         events.py. Checks and Second: the checks of `validate_event`, of all events and of
--                  those of schema version 2
--   Upgrade        cairn-core/cc-cairn.py. Files: the files of an upgrade. Replace:
--                  `_replace_framework_dir`. Sync: the transaction of `sync_project`. The exceptions of the system
--                  are given: a run of the swap is a `Copying`, the steps after it are `Effects`
--   Scopes         cairn-core/scripts/change_docs.py. Glob: Python's `fnmatchcase`. Parts:
--                  `_declared_path_parts`, `_is_concrete_scope`, `_recursive_prefix`. Match:
--                  `path_matches_scope`, `scopes_overlap`, `overlapping_scope_label`
--   TestPolicy     test_policy.py. Stem: the names of files. Select: `select_tests`.
--                  Classify: `_classify_with_policy`, `validate_test_policy`, `routing_escape`
--
-- Correspondence. A Python dict is an association list in insertion order (`Dict`), a set a list. A
-- task's files are a list in the order in which Python would iterate the set. An exception is a
-- constructor of a result type. A thread's action is an `Event`, and a run is any list of events:
-- every interleaving is one. `monotonic()` is a number given with the event.
--
-- Recursion. The depth-first search has fuel, one more than the number of tasks: it is on a path
-- of different gray ids. The Kahn loop has as much, since a round that finds a ready task takes it
-- away. The split into chunks has the length of the group, and a chunk takes at least one id. The
-- topological sort has the number of queued nodes and of edges. All else is structural.
--
-- A loop session is a file in `Project`, and the manifests are a function from commands to what
-- their `loop_continuation` says. A request that raises leaves the project as it is.
--
-- Not modelled: wall-clock times of the result of a wave, texts of the errors of a wave and a loop
-- beyond their names, and after a timeout the further moves of threads that still run; of the loop
-- the telemetry, errors of the file system, and session files that an older version wrote; of deps.py
-- `detect_cycles`, the discovery of changes and Git; of an upgrade symbolic links, directories
-- without files, modes of framework files and what is printed; a worker that raises an exception
-- outside `Exception`, such as `SystemExit`; the rest of cc-cairn.py and change_docs.py, which parse arguments and
-- Markdown. The other modules read files, run subprocesses and print, or are left for later.
pub mod Base
pub mod WavePlan
pub mod WaveExecution
pub mod LoopRuntime
pub mod Deps
pub mod TestPolicy
pub mod Scopes
pub mod Intents
pub mod Upgrade
pub mod Events
