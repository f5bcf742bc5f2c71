-- ===== src/Lib.antt =====
-- A model of the Go program go-cli-server: a hub that runs processes for its clients and talks to them
-- over a text protocol.
--
-- The parts, the files that model them, and the code they follow:
-- * Protocol (protocol/parser.go, protocol/responses.go, protocol/commands.go): commands and responses.
--   Protocol.antt has the types; Registry the verb tables of `VerbRegistry`; Reader `readUntilTerminator`
--   and `Resync`; Parse `ParseCommand`, `ParseResponse` and `parseDataPart`; Validate `ValidateCommand` and
--   `validateToken`; Format the `Format` functions and the `Writer`; Sanitize `sanitizeMessage` and
--   `sanitizeErrorCode`. Framing, Words, DataPart, CommandText, CommandTrip, Sanitizing, Messages and
--   ResponseTrip are about them.
-- * Process, output (process/ringbuf.go, process/linewriter.go): RingBuffer has `RingBuffer`, LineWriter
--   has `lineWriter`, which writes to the ring and hands complete lines to a callback; their child modules
--   are about them.
-- * Process, management (process/process.go, process/manager.go, process/lifecycle.go): Managed has
--   `ManagedProcess` and its methods, Itoa is about `itoa`; Manager has the registry of `ProcessManager`,
--   and Maps, Counting and Finding are about it. Lifecycle cuts `Start`, `failStart`, `waitForProcess`,
--   `StopProcess`, `forceKill` and the health check into the accesses that other threads see, and World
--   runs the threads in any order. Owner says which thread owns a process; Touch, Act, Tickets and Run
--   carry that through a run, and Done, Ending, Shutdown, Draining, Ended and Moves draw on it. Restart has
--   the configuration of `Restart` and the choice of `StartOrReuse`.
-- * Script (script/registry.go): Lines has the output ring of a script, Entry the rest of `Entry`, ProcessId
--   the keys and process IDs, Registry `Registry`; LinesLast, History, Upsert, Found and Replacing are
--   about them.
-- * Scheduler (scheduler/scheduler.go, scheduler/state.go): Scheduler.antt has `Task`; Clock the durations;
--   Tasks the configuration and the sections of the code under the lock of a task; Operations the methods
--   of `Scheduler`; Store the `StateManager`; Life is about the steps of one task, Lookup about what is
--   found after `Schedule`, Updates and Accounts about what a delivery leaves, and Ticks about what a tick takes and what a state file keeps.
-- * Hub (hub/registry.go): Registry has `CommandRegistry`, which tells the parser's `VerbRegistry` what it
--   registers, and `Dispatch`; Keys, InStep, Changes and Routing are about it.
-- * Client (client/version.go, client/resilient.go): Version has the versions; VersionOrder and VersionTrip
--   are about them. Resilient has `ResilientConn` and the steps of `reconnectLoop`; Reconnecting runs its
--   goroutines in any order, and Backoff follows one loop while the hub does not answer.
-- * Text and Base64 model what the code calls of the packages strings, strconv and encoding/base64;
--   Prelude has the shared helpers, and Tests the examples.
--
-- How the model reads the code:
-- * A string or a byte slice is a list of numbers; case and white space are those of ASCII. A nil slice and
--   an empty one are the same list.
-- * A connection is the list of bytes that will still be read, and how it ends: at its end, or with
--   another read error. The reader's loop is structural recursion on that list, so it needs no fuel. The
--   loops of `sanitizeMessage` run on fuel, the length of the message, which is enough: each round
--   breaks a pair of adjacent bytes of the message.
-- * The counters of the ring are 64-bit patterns; where they must not wrap, fewer than 2^63 bytes are
--   written. `int` is ℤ, and `strconv.Atoi` refuses what does not fit 64 bits.
-- * A Go map is an association list, and a set of names a list of keys. The order in which Go walks a map
--   is not fixed; the model walks the list.
-- * Operations under a lock are one step each. The delivery of a task is cut in two, the tick that takes
--   it and the return of the callback, and the steps of a task interleave in any order. What follows
--   that return is one step, although the counters and the files change when the lock is free again.
--   In the command registry, in the map of tasks and in the entries of scripts each operation is taken
--   as one step, also `SetState` of an entry, which stores the state outside its lock. Of the
--   reconnecting client, `triggerReconnect` is one step, and so are the stores of `reconnectLoop` behind
--   the section under the lock; the rest is cut at each access.
-- * The number of a task is unbounded; `nextTaskID` is an int64, which would wrap.
-- * A pointer to a managed process is a number, and a heap gives the process it points to, so that the
--   registry and the threads share one process. The entries of scripts are values in the map. A thread of
--   `Start` holds a ticket of the wait group, and so does the loop of health checks until `Shutdown` has
--   begun; their steps need no fuel. The run that lets the threads end is a list of the system's answers,
--   one for each step, and as many are enough as the threads have steps left, at most six for each. A
--   command that is waited for has an answer only when it ends. The wait of `StartOrReuse` is a parameter:
--   the manager found when the process is done, or nothing when the context ended first.
-- * filepath.Clean, filepath.Base and the comparison of script configurations are parameters.
-- * Time, the operating system's files and encoding/json are parameters of the scheduler and of its state
--   manager; the callbacks of the configuration are parameters too. The number of attempts of a task is
--   never negative.
--
-- Not modelled: the texts of errors, JSON errors, sockets, signals and the operating system's calls on
-- processes, the descendants of a process, the notices to the script registry and the PID tracker, the
-- tracker itself, the hub's connections and handlers, the subprocess router, the client's requests, the
-- entry points and the examples. They are input and output for the most part, or are left for later.
pub mod Prelude
pub mod Text
pub mod Base64
pub mod Protocol
pub mod Script
pub mod Process
pub mod Scheduler
pub mod Hub
pub mod Client
mod Tests
