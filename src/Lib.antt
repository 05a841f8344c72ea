-- ===== src/Lib.antt =====
-- rpi-procmon: a service that runs the checks of its monitors, and their recovery actions once checks
-- keep failing.
--
-- The configuration (internal/config) says which monitors there are. It is loaded, its duplicate
-- monitors are removed, and `Normalize` fills in and validates the rest. The engine
-- (internal/engine/manager.go) keeps the state of each monitor (internal/state/types.go) and a log of
-- events (internal/events/types.go) behind one mutex, runs a cycle of checks for a monitor at each
-- tick or at a request of the control API, and starts the recovery of a monitor whose checks have
-- failed often enough. The status server reads the state by `Snapshot`, `MonitorSnapshot` and
-- `EventsSnapshot`, and its control API starts a check or a recovery with the admin token.
--
-- Base: the Boolean tests, lists, integers, maps and texts that the parts share. An `int` is a ℤ; the
--   increments of counters wrap at 64 bits (`inc`), and so does `UnixNano` (`wrap_64`).
--   Trimming follows `unicode.IsSpace`.
-- Config.Types: the records of internal/config/types.go, with `float64` held by its bit pattern.
-- Config.Dedupe, Config.Normalize: `dedupeMonitors` and `Normalize` of internal/config/load.go. The
--   pointer into the configuration is a returned value; an error is a value with the texts of its
--   message. Normalize/ holds what is accepted (Accepted) and that it is left alone (Fixed).
-- Config.Validate: internal/config/validate.go, over `time.ParseDuration` and `regexp.Compile` (the
--   record Parsers).
-- Config.Load: `Load` of internal/config/load.go, with the environment, the defaults, the removal of
--   duplicates and the rewriting of the file; JSON and the calls of `os` are the record Host.
-- Command: the commands that internal/command/runner.go builds for a target. Command.Shell: the quoting
--   of a word, with a reader of the words of a POSIX shell to compare it with (Word). Command.Hosts: the
--   hosts that are tried. Command.Exit: the messages of exit codes. Command.Output: `boundedOutput`.
--   Command.Runner: `ShellRunner.Run`, over what `os/exec` leaves of a process.
-- Checks: internal/checks/checks.go. Checks.Host has what the checks use of the machine as parameters:
--   `regexp`, floats, the HTTP client, the runner and the calls of `os`, over a type W of worlds.
--   Checks.Patterns and Checks.Timeline: the loops over the lines of a log. Checks.Files,
--   Checks.Procs, Checks.Commands, Checks.Logs and Checks.Web: the ten handlers. Checks.Run: the registry
--   and `Run`. A handler's decision on what it read is a function of its own (`judge_run`,
--   `judge_lines`).
-- Actions: internal/actions/actions.go, the six handlers and `Run`.
-- Persistence: `Load` and `Save` of internal/persistence/json.go, over the calls of `os` (the record
--   Disk). IsDisk and IsReadable state what the calls do to the content of the files, as documented: a
--   rename is all or nothing, and a file's own calls change that file alone. Persistence.Stores:
--   internal/state/store.go and internal/events/store.go.
-- Api: internal/api/server.go, over a provider and a control provider. Api.Auth: the token. Api.Query:
--   the filter of a query for events. Api.Route: the route of a monitor. Api.Server: the other handlers,
--   their patterns and CORS. Api.Provider: the manager of Engine as the provider.
-- Daemon: the manager with the checks, the actions, `ShellRunner` and the file stores in place of the
--   parameters of Engine.Env.
-- State, Events: the records of internal/state/types.go and internal/events/types.go. The clone
--   functions are the identity on values, and have no definition.
-- Engine.Env: the parameters of the engine. `Manager` has the configuration, the package `time`, and
--   an environment over a type World of everything else: the clock, the context, the two stores, the
--   checks and the actions of a monitor, the lock of a monitor, and what other goroutines do to the
--   shared state. `Act` is a function on the shared state and the world.
-- Engine.Monitor: what the methods of the manager do to the state of one monitor and to the event
--   log. Engine.Run, Engine.Recover and Engine.Cycle: the methods themselves, in the order of their
--   critical sections. `acquire` stands for `m.mu.Lock()`: it applies what other goroutines did since
--   the last section. `set_status` and `conclude_recovery` are shared by the methods that hold the
--   same lines. Engine.Query and Engine.Trigger: what the status server calls. Engine.Start:
--   `NewManager`. Engine.Loop: `Start` and `runMonitorLoop`, on the list of what its `select` receives.
-- Engine.Lock: the channel that is the lock of a monitor, as a step relation on any number of
--   goroutines that are in `withMonitorLock`.
-- Engine.Invariant: a logic for what a method keeps, if the other goroutines keep it. Engine.Settle: a
--   logic for the status that a method ends with, if the others leave the entry of its monitor alone,
--   as the lock of the monitor has it.
-- Engine.Recover.Ran, Engine.Recover.Durable: the actions that a recovery runs; Engine.Recover.Quiet is
--   what a world remembers of the runs. Engine.Lab: a concrete manager. The modules named Tests have
--   runs and examples.
--
-- A function returns for every state and world: the loops are over lists, and only
-- the digits of a number (`itoa`) are made on fuel, one more than the number. The monitors of the state
-- file are taken as present, never `null`. The step relation of Engine.Lock takes the function
-- that `withMonitorLock` calls to end. The scanner of the lines of a log is the parameter `lines`,
-- which gives what it gives in front of a line that is too long for it.
-- Not modelled: log lines, main.go and internal/logging (flags, signals and the log file), the
-- embedded page and the timeouts of the HTTP server, and the clone functions, which are the
-- identity on values. The packages outside of the repository are parameters: `time`, `regexp`,
-- `encoding/json`, `os`, `os/exec`, `net/http` with its ServeMux, and `crypto/sha256`. A command is run
-- by the parameter `run` of the checks and the actions; `shell_run` is the code behind it.
pub mod Base
pub mod Config
pub mod State
pub mod Events
pub mod Engine
pub mod Command
pub mod Actions
pub mod Checks
pub mod Api
pub mod Persistence
pub mod Daemon
