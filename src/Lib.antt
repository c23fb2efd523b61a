-- ===== src/Lib.antt =====
-- swarmdialer drives a load test against one or two PBXware servers: it registers a pool of simulated
-- extensions, books them in pairs, places a call in each pair, and counts what happened. This library
-- models the parts that decide what such a test does and reports.
--
-- Files and the code they model:
-- - Session is internal/orchestrator/session.go. Pool is the extension pools and their booking
--   (`reservePairs`, `release`); State is `Session` and the goroutine of each call as a program
--   counter (`Stage`); Calls is `AddCallsWithCallee`, `runCall`, `Stop` and the constructors; Views is
--   `Snapshot`, `Health` and the events of a batch. A step of a goroutine is at most one change of the
--   state that goroutines share, but for three that are one step together: logging an event (its number
--   and its append, and the change that comes with it in `runCall`), listing a call (its number and its
--   entry), and adding a batch (the booking, the reading of the stop channel, the counter and the start
--   of the goroutines). What other goroutines do between the parts of such a step is not covered. Effects, Booking, Reserve and Invariant prove the
--   invariant of one step, Reach of every interleaving of the steps (`Step` and `Reach`); Guarantees,
--   Amount, Preferred, Drain and Log are what follows for the code's users.
-- - Health is internal/orchestrator/health.go, internal/sipua/dialerror.go and `splitFailureKey` of
--   internal/testrun/diagnostics.go: why calls failed, and the media totals.
-- - Rtp is internal/sipua/rtp.go. Packet is the packets as bytes, Sequence the extended sequence numbers
--   with their wrap-around, Receive the receive statistics and the reception report, Stream whole
--   streams of packets.
-- - Ulaw is `linearToULaw` of internal/sipua/speech.go.
-- - Auth is cmd/gui/auth.go, the admin login. Lockout is failed logins, Sessions what a session allows.
-- - Runs is internal/orchestrator/state.go and internal/orchestrator/orchestrator.go, one run from
--   registration to its result.
-- - Trunk is cmd/gui/trunkcodec.go and cmd/gui/registration.go, the codec that the remote batches
--   between two servers share, and the progress of a registration.
-- - Retry is internal/pbxware/retry.go: Deadline the loops around the PBXware API that end at a deadline,
--   Secret the generated secrets.
-- - Wizard is internal/wizard. Of wizard.go, Batch is one batch of `provisionExtensions`, Extensions its
--   loops, Items, Rounds, Ends, Order and Outcome are their proofs, Server is `Provision` and Provisioned
--   its proofs. Of connect.go, Names is the names, DIDs and hosts that are made up, Shapes their proofs,
--   Connect `ConnectServers` and Linked its proofs. Reset is reset.go, with its Workers as a step relation
--   and Clean, what the absence of warnings means.
-- - Recording is cmd/gui/recording.go, the recording switch; Both joins the answers of both sides.
-- - Cdr is internal/pbxware/cdr.go: Match finds the record and the MOS of a call, Pages reads the pages
--   of recorded calls, and Since is about stopping at an old one.
-- - Testrun is internal/testrun. Profile is profile.go; of runner.go, Stats is its statistics, Samples the
--   data of a running test, Saturation the stop conditions, Sampling one whole sample (`sample`), Ramp
--   `runRamp`, Script the order of `Run` and `runTest`, Recordings `mp3Poller`, Summary
--   `summarize`; Diagnostics is diagnostics.go. Sampling/Watched and Sampling/Third join the samples to the
--   stop conditions.
-- - Store is internal/store/store.go, the configuration: Servers as a map, File with its file.
-- - Logstore is internal/logstore/logstore.go, the names and paths of the log files.
-- - Sdp is internal/sipua/sdp.go and the codecs of internal/sipua/codec.go: Parse is what is
--   read, Lines is about text as lines and fields, RoundTrip and Media read back what was built,
--   Negotiation is the choice of a codec.
-- - Pacer is internal/sipua/pacer.go, the slots that the packets of running sessions are sent in.
-- - Prelude and Text hold what these share: Boolean tests, lists, integers, byte strings and decimals.
--   Examples applies the theorems to concrete inputs.
--
-- The parts meet in the session: a call's end gives its RTP statistics to the health totals, a failed
-- dial gives its cause, and the snapshot shows both with the pools. The wizard makes the servers that
-- the store keeps and the extensions that a session calls with; a remote API's answers to it are
-- arguments, and that a batch is answered item by item is a hypothesis.
--
-- Choices: Go's maps are functions, with a list of keys where the code ranges over them, in an order
-- that is an argument. A select's case, the result of a dial and the clock are arguments too. Machine
-- integers in RTP wrap around as written; counters of calls and events are numbers without a bound.
-- The loops are structural recursion, but for those of Retry, Wizard and Cdr.Pages: they run on fuel,
-- one for each call of the API or round. A retry waits five seconds at least, or two for a batch, so
-- that its deadline bounds the calls; a round of provisioning adds an extension or meets a number that
-- is taken, of which there are at most twenty; and a page is read once. A ramp test runs over a list
-- of what its rounds meet, and the results say how many rounds end it. PBKDF2, the float jitter
-- estimate and the JSON codec of the store are parameters. Floats elsewhere are scaled to whole
-- numbers: percentages are hundredths of a percent.
--
-- Not modelled: sockets, tickers, HTTP handlers and their JSON, the SIP dialogs of sipgo, the clients
-- of PBXware's and Serverware's APIs, the reports, of the test runner its rolling load and the live
-- status, and of the wizard the wait for registrations, the restart and what it does to SERVERware.
pub mod Prelude
pub mod Text
pub mod Health
pub mod Rtp
pub mod Ulaw
pub mod Auth
pub mod Session
pub mod Runs
pub mod Trunk
pub mod Wizard
pub mod Cdr
pub mod Recording
pub mod Retry
pub mod Testrun
pub mod Store
pub mod Logstore
pub mod Sdp
pub mod Pacer
pub mod Examples
