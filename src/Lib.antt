-- ===== src/Lib.antt =====
-- A model of the reset-priority plugin: it watches the OAuth credentials of a host, learns when the
-- weekly limit of each resets, and writes a priority into each credential file, so that the host
-- spends first the credential that resets first.
--
-- The parts, by the Go packages under internal/:
--   engine/ranker.go     Ranker (Rank, saturatingAdd); Ranker/* are proofs
--   engine/state.go      Status (the states), Engine (the account record), Health (quarantineReasonFor)
--   engine/engine.go     Engine (the engine's record) and its children: Work (reserveWork, afterFunc,
--                        trackedTimer), Accounts (demotion, the guards of an attempt, observations),
--                        Desired (recomputeDesiredLocked), Schedule (the timers), Flush (flushInternal),
--                        Validate and Roster (validateRoster, applyRosterLocked), Fetch (fetchOneInternal),
--                        Reserve (the fetch reservations), Reconcile, Life (New, Start, Stop, Shutdown,
--                        Reconfigure), Callbacks (retryFetch, onDeadline, onHealthPoll)
--   engine/writeback.go  Engine/Plan, Engine/Write, Engine/Priority
--   engine/status.go     Status (the snapshot), Engine/Publish
--   config/config.go     Config (Config, Manages, validate), Config/Parse (Parse); Config/Sound is proofs
--   sanitize/sanitize.go Sanitize; providers/provider.go Providers; hostapi/types.go Health, Host
--   providers/codex.go   Codex (the search for the weekly window; the parsers of the standard library and
--                        float64 are parameters)
--   hostapi/bridge.go    Bridge (the gate; callback_limit.go, the limiter), Bridge/Workers (callbacks in any
--                        interleaving, with Drain), Bridge/Call (one callback; callback_context.go, the callback id)
--   packaging/packaging.go and packaging/archive.go
--                        Packaging (its errors) and its children Names, Checksums, Archive, Registry, Release
--                        (verifying), Build
--   plugin/runtime.go    Plugin/Request (the gate of the refresh route), Plugin/Wire (messages and state),
--                        Plugin/Runtime (Dispatch and Shutdown, over Engine and Bridge)
-- The other children of Bridge, Packaging and Plugin are proofs.
-- The other children of Engine, and those of Health, Sanitize and Codex, are proofs.
--
-- How the code becomes functions:
--   * The host, the clock and the provider adapters are the record Host: functions of the calls made
--     so far, so that any behaviour of them in time is covered. Sys is the engine with that list of
--     calls; a function that calls the host takes and returns a Sys.
--   * A critical section of Engine.mu is one function on Engine. Between two sections only the
--     modelled function runs: passes of other goroutines and the mutexes are not modelled. The calls
--     that fetchAll makes at once are made in the order of its targets.
--   * The map of accounts is an association list; an iteration over it goes in the list's order.
--   * A timer that the clock holds is a number with its delay and its closure as a Task; work that
--     runAsync was given is a queue of Tasks, and Callbacks.run_task runs one.
--   * An instant is a ℕ: the nanoseconds since an instant before the zero time.Time. Strings are lists
--     of bytes; case folding and trimming are those of ASCII text.
--   * `int` is ℤ: the values are those of a 64-bit `int`, and rank stops at its largest. The sequence
--     numbers wrap at 2 ^ 64.
--   * JSON is decoded text; a document that does not decode is none. The conversions of a number
--     through float64, of base64 and of a token's payload are fields of Host.
--   * A callback of the bridge is a worker: it asks for admission, enters the host, returns and hands its
--     admission back, in any order with the others and with those of other bridges. The goroutines of
--     HTTPDo are such workers; their caller's giving up changes no admission. Drain is a goroutine of
--     its own: it closes the gate, tests the count, and sleeps on the condition variable until the
--     release of the last admission broadcasts. What the select of HTTPDo finds ready, and which of
--     two ready channels Go picks, is given with the context.
--   * A dispatch of the runtime is one step; a Go map that is built from a list is an association list
--     with distinct keys. The order in which a map is ranged over is that of its list.
--   * A regular expression is written out as a test on bytes.
-- Fuel: the loops of flushInternal and fetchOneInternal run on one more than the number of accounts
-- with a known reset, since a round is repeated only after an account has lost its own. containsStandaloneCode runs on
-- one more than the length of the message, since every round passes over at least a byte.
--
-- Not modelled: the C boundary (abi.go, main.go), the pages of the plugin and their script, the packager
-- command, the HTTP of the two providers and the answer of claude. JSON codecs, YAML, url.Parse,
-- archive/zip, SHA-256 and the file system are parameters of the definitions that use them.
pub mod Base
pub mod Ranker
pub mod Times
pub mod Sanitize
pub mod Config
pub mod Json
pub mod Providers
pub mod Codex
pub mod Bridge
pub mod Health
pub mod Status
pub mod Host
pub mod Engine
mod Tests
pub mod Packaging
pub mod Plugin
