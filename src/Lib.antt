-- ===== src/Lib.antt =====
-- Leaf Syncthing Pak: a controller that runs Syncthing on a handheld, binds its folders to physical
-- cards, waits for a sync before a game starts, and offers a read-only view of Syncthing to
-- browsers that were paired on the device. This library models the parts of the Go code that keep
-- state and take decisions, with the theorems on them.
--
-- The parts:
-- - Base: texts (lists of bytes), association lists for Go's maps, Boolean tests on the native
--   numbers, and lemmas on them.
-- - Config: internal/syncthing/config_recovery.go and offline_pause.go. Files has the entries of the
--   configuration directory and `validate_xml` (ValidateXML) on the tokens of the XML decoder;
--   Monad the calls that may fail; Promote has `promote_config` and `restore_backup`; Recover has
--   `recover_config`, whose part on the files is `recover_files`, with the reads of ValidateXML as
--   calls that may fail. Recover.Table is the table that a
--   recovery computes, Recover.Restart interrupted recoveries, CrashSafety a recovery after an
--   interrupted promotion. A crash is a run whose later calls fail and whose error nobody sees.
-- - Folders: internal/controller. Types and Device have the data and the identifiers
--   (internal/syncthing/ui.go and folders.go, internal/cards/cards.go). Store, Ops and Load are
--   internal/controller/folder_state.go: the control records with their file, one function per
--   method, and the start of a controller. Valid says which records are well formed. Rows and
--   Reconcile are internal/controller/folders.go, which compares the configured folders with the
--   cards and the records. GameCheck is the selection of internal/controller/game_check.go, which
--   uses it, and GameCheck.Loop its polling loop (`runGameCheck`) with the replies and their times;
--   Timely, Replies and Stops have the theorems on it.
-- - Rest: internal/syncthing. Replies has the documents that the Syncthing process answers with,
--   Totals the bounded numbers of ui.go, and Game `read_game_check_status` (ReadGameCheckStatus of
--   game_check.go), which the loop of GameCheck asks.
-- - Gateway: internal/gateway. Trust is trust.go, with the records in memory and those of the file,
--   which a restart loads (Trust.Revoked). Manager and Manager.Pairing are the state and the
--   handlers of gateway.go, Urls the allowed URLs of proxy.go, and Routes `ServeHTTP`, which asks
--   Trust for the cookie and hands the control paths to Pairing.
-- - Life1: internal/life1. Wire is wire.go, Events the events and the game state of client.go with
--   `reconcileGameState` of internal/controller/run.go.
-- - Control: internal/uicontrol. Words, Arguments and Calls are the operations, the decoders of their
--   arguments and the switch of `Operations.Handle` in protocol.go; Status and Validate the status
--   with `normalize` and `validate`; Handle has `handle`, which hands a `Call` to an interface of
--   the controller (the record `Operations`), and Server the exchange of server.go over the frames
--   of Life1.
-- - Recovery: internal/controller. Membership and Pending are membership.go, Stops is local_stop.go:
--   what a restart finishes of a share, an unshare or a stop, with the control store of Folders.
--   Attempts has the sequencing of calls that may fail, Waiting the records that wait.
--   `Upstream` of Folders.Upstream (b3FolderUpstream of onboarding.go) and `Disk` are interfaces
--   with a state of their own.
-- - FirstSync: internal/controller/first_sync.go. Documents has the snapshot headers and markers with
--   their readers, Manager `complete` (Complete), `invalidate` (Invalidate) and `recover_folder`
--   (the loop's body in recover), on a marker that is kept twice: as a read finds it, and as a loss
--   of power leaves it.
-- - Onboarding: internal/controller/onboarding.go. Plans has the plans and the checks on them
--   (`selected_folder_devices`), Making has `plan` and `plan_offer` (plan and PlanOffer), and Create
--   has `create` (Create), which uses the control store, the `Upstream` and the binding check of
--   FirstSync; what the file system answers is a record of
--   functions (`Surveys`).
-- - Reset: internal/controller/reset.go. Documents has `valid_reset_document`
--   (validateResetDocument) with `RelativeWithin` of internal/leaf/pathguard.go, Run has
--   `run_reset_intent` (runResetIntent) and `recover_reset` (RecoverReset) on what stands at the
--   paths and on the intent, each kept twice: as a read finds it, and as a loss of power leaves it.
--   Steps, Flushes, Safe and Works follow the calls of a run, Recovered puts a crash and a recovery together,
--   Own says which paths an accepted document may name, and Harmless what goes with them.
-- The Examples modules hold the theorems at concrete inputs, and runs of the code.
--
-- Parameters: the system calls of Config, Folders and FirstSync, by functions that say which of them
-- succeed; encoding/json, by the record `Json` of Control and the functions of Server;
-- `hash_of` (the hash of a token), `hex_digest` (hexadecimal SHA-256), `valid` (json.Valid),
-- `query_of` (url.URL.Query), `clean`, `base` and `join` (path/filepath) and `lstat` (the file
-- system); for Reset, the functions of path/filepath (the record `Filepath`) and which paths a flush
-- of a directory's file system reaches (`on`); for Rest, the replies of the Syncthing process (the
-- record `Responses`). The clock, random secrets and the results of file writes come in as arguments. Nothing
-- is supposed of these beyond what a theorem's hypotheses say. The mutex of each store makes each
-- of its methods one step, so that an interleaving is a list of steps.
--
-- Bounds: times are numbers of nanoseconds without an upper bound, and a difference that is
-- negative in Go is 0, which passes the same tests. The first-sync epoch is a uint64, whose limit
-- is tested as in the source. Frame lengths fill four bytes. All loops are structural recursions
-- on the lists that they read; there is no fuel. The endless loop of a game check runs on the list
-- of what its turns meet: ten turns are enough for the first reply, since each turn without one
-- brings the clock 100 ms nearer to a deadline that is at most 900 ms away. The bounds of the totals
-- are those of the source; a byte count of the process is a number within int64.
--
-- Not modelled: the token edit of offline_pause.go and the format of the trust file; the event loop
-- of internal/controller/run.go; the making of a reset's document and the plan around its run
-- (buildResetDocument, PrepareResetPlan, ExecuteResetPlan); the copy of a directory tree into a
-- snapshot, and the removal of what it leaves; the listening socket of internal/uicontrol;
-- the length limit of a read reset document, the list of global issues of reconcileManagedFolders;
-- ReadUIStatus, the REST client, processes and routes in internal/syncthing; card enrollment and the registry in
-- internal/cards; certificates, the reverse proxy and the rewriting of its responses in
-- internal/gateway; the session of internal/life1/client.go; the text interface, the native
-- program, the scripts and the third-party code. They are mostly input and output, or wait for a
-- model of their own.
pub mod Base
pub mod Config
pub mod Folders
pub mod Recovery
pub mod Rest
pub mod Reset
pub mod FirstSync
pub mod Onboarding
pub mod Gateway
pub mod Life1
pub mod Control
