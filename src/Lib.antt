-- ===== src/Lib.antt =====
-- TV Safety Cleaner: a controller that installs, removes, disables and restores packages on a
-- television over adb, and an observer that collects read-only evidence about one.
--
-- The parts and the files that model them:
--   Prelude            texts as code points, dicts, JSON values, sorting, Boolean tests
--   Exec               Python code that may raise: Result, and Exec for code with state. Keeps has the
--                      rules for an invariant that an action keeps
--   Controller.Device  tv-controller/src/tv_controller/state_history.py: DeviceIdentity,
--                      PackageState, which are compared field by field
--   Controller.Journal the same file: StateJournal, the ledger of package operations. The table is
--                      a list of rows, newest first; every method is one transaction,
--                      which is written out where it writes twice
--   Controller.Planner tv-controller/src/tv_controller/planner.py, with verify_profile of profile.py
--   Controller.Names   tv-controller/src/tv_controller/apk_manager.py: parse_package_input and
--                      safe_apk_filename
--   Controller.Tasks   the same file: TaskStore
--   Controller.Messages  the same file: task_error_message
--   Controller.Jobs    the same file: ApkJobManager. Start has the start_* methods, Run the bodies
--                      of their threads, Profiles the state profiles, Threads the wrapper that
--                      every thread runs in, Archives delete_local_apk
--   Controller.AdbClient  the same file: AdbClient; Wire has the history of its calls, with the
--                      method of the client that each was made for
--   Controller.Settings   the same file: the validation of addresses, ApkSettingsStore
--   Controller.Downloader the same file: ApkDownloader's polling; Storing has the download itself
--   Controller.Service what can happen to the manager: requests, threads and changes of settings, in
--                      any order
--   Controller.Web     tv-controller/src/tv_controller/service.py: the guard before every request,
--                      login and sessions; Handlers has the routes' handlers,
--                      Serving the way of a request to them,
--                      Effects what each route stands for, Exact the proofs about it
--   Controller.Transactions  tv-controller/src/tv_controller/transactions.py: the journal of plans
--                      and the engine that applies a plan, checks health and reverts
--   Controller.UserApk tv-controller/src/tv_controller/apk.py: the gates of UserApkManager
--   Controller.RateLimit  tv-controller/src/tv_controller/service.py: RateLimiter
--   Observer.Observation  tv-observer/src/tv_observer/observation.py: ObservationStore, and in Polling
--                      ObservationPoller
--   Observer.Platform  tv-observer/src/tv_observer/platform.py: parse_properties, detect_platform
--   Observer.Devices   tv-observer/src/tv_observer/adb.py: parse_devices
--   Observer.ReadOnlyAdb  the same file: ReadOnlyAdb
--   Observer.Collector tv-observer/src/tv_observer/collector.py: the inventory of one device
--   Observer.Snapshot  tv-observer/src/tv_observer/snapshot.py: verify_snapshot; Writing has
--                      create_snapshot and list_snapshots
--   Observer.Recovery  tv-observer/src/tv_observer/recovery.py: the checklist of recovery readiness
--   Tests              runs of the definitions on concrete data
--
-- The job manager is the centre. A start_* method checks the request, reads the television through
-- the client, begins a row in the journal, makes a task and starts a thread, which here is put on
-- a list together with what its closure captured. A thread runs later, on the state that it then
-- finds. It changes the television, checks the result, completes or fails its row and reports to
-- the task store. Requests and threads interleave; the body of one thread is run as a whole. The
-- web application guards every request and hands it to the manager; Service says which steps the
-- manager can take, and the client turns an operation into calls of adb. The transactions and the
-- observer are parts of their own; the engine takes the planner's plans.
--
-- Parameters. The television, the network and all else outside are a type W with the record Adb,
-- whose operations may answer, raise and change W in any way, and the functions download and
-- available_version. AdbClient builds such a record from Shell, the adb program and the network.
-- What urllib answers is the record UrlLib, what ipaddress and urlparse say of settings is NetLib,
-- and whether a password matches its hash is a function. The engine's adapter and the poller's
-- reader and sleeper are parameters in the same way, and so are the observer's runner of adb, the
-- digest and the JSON library of the snapshots, the downloader's network and clock in the record
-- Net, and the package name that inspect_apk finds in an archive. The clock's reading and the ids
-- that are made up are arguments, one reading for each method or thread.
--
-- Loops run over lists by structural recursion, so no fuel is needed, with two exceptions: the
-- printing of a number, whose fuel is the number's successor, more than it has digits, and the
-- downloader's polling, which has one turn for each second of its timeout and one more. The
-- poller's loop runs on the number of samples that it is allowed; without a bound it is not
-- modelled.
--
-- Not modelled: failures of sqlite and of the file system that are not named in the code, the
-- encoding of JSON columns, the adb program, network access, the rendering of pages, the capture
-- of profiles, the reading of archive rows from their folder, the difference and the redaction of
-- snapshots, the observer's web service, and command lines. Upper and lower case are those of
-- ASCII. Numbers are natural, but for the ones that a form gives; the share of a profile that has
-- been applied is an exact quotient.
pub mod Prelude
pub mod Exec
pub mod Controller
pub mod Observer
pub mod Tests
