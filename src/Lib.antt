-- ===== src/Lib.antt =====
-- terminal-redeemer: parts of the terminal mirror (internal/mirror, internal/zellijlive) and of resume
-- after a reboot (internal/resume, internal/model, internal/checkpoints, internal/capture).
--
-- The mirror shows the sessions of a host in terminals of a client. Each terminal has a helper that
-- attaches to its session over SSH; all helpers of a host share one coordinator process, which probes
-- the host for its live sessions and admits the helpers that attach, a few at a time. A capture writes
-- a checkpoint of the window manager's state and of the active sessions, one for each boot, host and
-- profile. Resume reads the checkpoints, chooses one, and plans which terminals to open again.
--
-- Files and the code that they model:
--   Base            shared names, Boolean tests, texts as lists of bytes, strings functions, maps
--                   as association lists, sorting, integers
--   Zellij.Name     SafeSessionName of internal/zellijlive/catalog.go
--   Zellij.SessionId  validSessionID of internal/mirror/session_inventory.go and the text of an
--                   identity, SessionID of internal/zellijlive/catalog.go; RawURLEncoding of
--                   encoding/base64 is written out, SHA-256 is a parameter: the digest is given
--   Recovery        the coordinator of internal/mirror/session_recovery.go:
--     Request       SessionControlRequest and validRecoveryRequest
--     Inventory     SessionInventory and its validate (internal/mirror/session_inventory.go)
--     State         sessionRecovery, recoveryMember, sessionRetry, requestProbe, expire, recoveryDelay
--     Admission     admit
--     Probe         beginProbe, finishProbe; Frame, Messages, Verdict: a probe from its beginning to its end
--     Exchange      exchange, fail, reply, remove
--     Roster        the invariant of the coordinator
--     History       any sequence of the calls that its server makes
--   Model           internal/model/state.go and Checkpoint of internal/checkpoints/store.go;
--                   Normalize: Normalize, NormalizeRecovery and what Hash hashes; Canonical: its normal
--                   form; Persisted: the fields that are not in its JSON
--   Checkpoints     Validate, validateRecovery, RecoveryIntegrityHash and pathName of
--                   internal/checkpoints/store.go; Validation: what it asks of an inventory
--     Directory     readPath, Read, List and History; Contents, Named, Order: what
--                   a listing has passed, what is under its own name, and its order
--     Write         Write; Outcome, RoundTrip: what is read of each identity after it
--     Prune         Prune; Priors, Removal, Retention: what it protects, removes and leaves; Choice:
--                   SelectAll after it
--   Capture         internal/capture/runner.go:
--     Active        authoritativeActiveSessions; Allowed, Accepted: the names that it lets through, and the
--                   catalogs that it refuses
--     Occupancy     completeRecoveryPlacement, recoveryColumnOccupied, sameCapturedWorkspace and
--                   recoveryWorkspaceRef
--     Inventory     buildRecoveryInventory; Recall: what it takes from the checkpoints before; Valid:
--                   its result against the validation
--     Run           NewRunner and CaptureOnce; Published, Stored: the checkpoint that it writes
--   Resume.Selection   Select of internal/resume/planner.go, SelectAll of planner_all.go
--   Resume.Workspaces  ResolveWorkspace, capturedWorkspaceRef and capturedColumnOccupied of planner.go
--   Resume.Items    Item, newItem, currentSessionWindows and stringSet of planner.go, runtimeWindowID
--                   of internal/resume/runtime.go
--   Resume.Plan     Build and summarize of planner.go; Launches, Rounds, Contract: what a plan
--                   launches; Totals: its summary
--   Zellij.Catalog  Catalog and Exact of internal/zellijlive/types.go
--   Resume.Candidates, Resume.All   BuildAll of planner_all.go; All.Judged, All.Attachments: what it
--                   launches
--   Stream          the bytes between a terminal and its attachment:
--     Search        bytes.Index
--     Queries       stripPreClientQueries and stripTerminalQueries with their parsers
--                   (internal/mirror/session_queries.go); Grammar: what a complete query is;
--                   Recognition, Removal, PreClient: the parsers and the filters against it
--     Decoder       feed of internal/mirror/session_stream.go and AttachmentMarker of session_attach.go;
--                   Lifecycle: the life of an attachment as the markers tell it; Markers: the shape
--                   of a marker; Decoding, Pieces, Account, Accounts, Streams: where its bytes go; Fuel: that its loop ends by itself
--     Gate          sessionInputGate of internal/mirror/session_terminal.go: flushPrefix, close, open
--                   and decode; Rounds, Marks, Origins: the loop, the marks on the input and the opening;
--                   History: a gate that is used
--   Supervisor      RunSessionSupervisor of internal/mirror/session_supervisor.go: the functions inside
--                   it; Handling: the answer of the coordinator; Events: its loop, one event at a time;
--                   Invariant: what every event keeps; Effects: what the helper does to its child,
--                   and why; Life: the helper from its start, and the coordinator that answers it;
--                   Manual: manualSessionControl of internal/mirror/session_manual.go; Admissions, Answers:
--                   how often it admits, and what it answers
--
-- The coordinator's maps are association lists. Go visits a map in any order; the loops of the code
-- whose result depends on no order are modelled over the list. A pointer to a member is its place in
-- the map, and its identity as an object is a number that each new member gets, since a probe compares
-- members by pointer. A nil member or retry record that is dereferenced, and a read of an empty queue,
-- are a panic, the result none. The server holds one lock during every call, so that a history of the
-- coordinator is a list of calls, each with its time.
--
-- A time is a number of nanoseconds from Go's zero time, which is 0; a text is its list of bytes. The
-- probe counter wraps at 2^64, as uint64 does, and the difference of two times stops at the greatest
-- duration. The loop of admit runs at most once over the queue, so that its fuel, the length of the
-- queue, is the code's own bound. Trimming, the decoder of markers and the inner loop of the gate have
-- as fuel the length of the text, of which each round takes a byte at least; the opening of the gate
-- has the 16 rounds of the code. An attempt is 32 hexadecimal digits, and the text of an error that
-- a probe returns is copied.
--
-- The gate reads the clock once for each byte and the terminal without waiting: what these give is a
-- parameter. So are the random bytes of an attempt, and whether a write, the plan of an attachment or
-- its start works. The goroutine that reads the terminal shares the gate with the loop under a lock;
-- its reads are events of the helper beside those of the loop, and the channel between the two is a
-- list, whose bound of 16 only delays the reader.
--
-- A directory of checkpoints is its list of names with what each holds. The texts of encoding/json, its
-- strict decoder and SHA-256 are a parameter; that a decoded text gives back what was encoded, without
-- the fields that are left out of it, is a hypothesis. A write may fail at each of its steps, and a
-- removal at each file: which do is a parameter. What the compositor, the catalog of sessions, the
-- boot ID, the clock and the lock give to a capture is a parameter too; the lock keeps other writers
-- out, so that a capture is one call. The wording of an error in reading a file is left out.
--
-- Not modelled: sockets, processes, terminals and SSH (internal/mirror/session_recovery_server.go and
-- session_recovery_runtime.go call the coordinator from them); of the helper, what it draws while it
-- waits, the resizing of terminals and what it does on its exit; the commands that create sessions;
-- the query of the terminal's own colours (internal/termquery); pinning and following (pin.go,
-- follow.go), the picker (internal/mirrortui), the making of the directory of checkpoints, the reading
-- of Niri and of processes for a capture (internal/collector, internal/procmeta), the executor of a
-- plan, configuration and the command line.
mod Base
pub mod Zellij
pub mod Recovery
pub mod Model
pub mod Resume
pub mod Stream
pub mod Supervisor
pub mod Checkpoints
pub mod Capture
