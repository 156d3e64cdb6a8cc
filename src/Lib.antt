-- ===== src/Lib.antt =====
-- The monitoring poller: the protocol between a poller and its endpoint server, the preparation and
-- commit of checks, their scheduling, and the routing of metrics.
--
-- Parts and files (paths from the repository's root):
--   Json            JSON values and the reading of struct fields, as Go's encoding/json does it
--   Config          config/config.go, config/constants.go: Config, Entries the configuration's entries,
--                   Parse ParseFields, Load LoadFromFile and PostProcess; Settings says what the lines of
--                   a file set. Base.Lines has the scanner and the splitting of texts
--   Connection      poller/connection.go: EleConnection (Connect, dial, Close)
--   SmartConn       utils/smart_conn.go: the endpoint's side of a connection, its deadlines and heartbeats
--   Protocol        protocol/frame.go, messages.go, methods.go, check/check.go: the envelope, the typed
--                   messages and their JSON
--   Preparation     poller/checks_preparation.go: ChecksPreparation (NewChecksPreparation,
--                   AddDefinitions, Validate, VersionApplies, IsNewer, IsOlder); Entries says what a
--                   manifest's lines call for
--   Timing          utils/timestamp.go: ComputeSkew
--   Session         poller/session.go: EleSession. State holds its fields, Exchange has Send, Respond,
--                   Auth, runFrameSending and handleResponse, Prepare the poller.prepare, .block, .end
--                   and .commit handlers, Heartbeat runHeartbeats, Loop the frame loop and its timer
--   Agent           endpoint/agent.go: prepareChecks, the coordinator, the two response handlers
--   Tracker         endpoint/agent_tracker.go: the registry of agents, and the steps that the connections
--                   of endpoint/basic_server.go and the tracker's goroutine take on it; Serve is the
--                   handler of one connection, with its frames, Decompose the decomposer of
--                   metrics and endpoint/metrics_router.go
--   Check           check/unmarshal.go, the constructors of check/check_*.go, protocol/check/*.go
--   Results         check/checkresult.go, check/checkresult_metrics.go, protocol/metric/metric.go: metrics,
--                   states, sets of results and what is posted of them
--   Ping            check/check_ping.go: Run's loop over the pings, its statistics and its report; Probe has
--                   check/pinger.go, the payload of a ping and the loop that waits for its echo
--   Run             check/check_tcp.go, check/check_http.go and AddTLSMetrics of check/check.go: the runs of
--                   the two checks from what the network gave, as stages that go on, fail or crash;
--                   Plugin has check/check_plugin.go, whose regular expressions are in Base.Pattern; Said has what
--                   the lines of a plugin can say
--   Scheduler       poller/scheduler.go: ValidateChecks, reconcile, reset
--   Stream          poller/connection_stream.go: registrations, ChooseBest, sendMetrics,
--                   runHostConnection; Inbox has the channels of a scheduler
--   Events          utils/events.go: EventConsumerRegistry
--   Handover        agent and session together: the frames of one side handled by the other
--   Examples        concrete states, and the theorems at them
--
-- How they interact: the agent writes a prepare message, blocks and an end message; the session
-- collects them into a preparation, asks the stream (which asks each scheduler) whether it is possible,
-- answers, and on a commit hands the preparation to the stream, whose schedulers reconcile their
-- checks with it. Check results go through the stream to the connection with the least latency, which
-- the heartbeats of its session measure.
--
-- How the code is modelled: a struct is a record and a method that changes it a function from the old
-- record to the new one; what it sends, emits or starts is recorded in a list of the record. A nil
-- dereference or a double close is `panic`, a receive that nothing will ever serve is `blocked` (module
-- Base.Outcome). Each goroutine handles one message, tick or timer at a time, so an interleaving is an
-- order of such steps; a channel is the list of what waits in it. Its
-- capacity is left out, but for the two channels of Tracker that the connections send to: a send to one of
-- them that is full blocks, and so does one to the unbuffered channel of a closed agent. A map is an
-- association list; where the code iterates over a map, the theorems hold for any order of its entries.
-- int64 and uint64 arithmetic wraps where it can. All loops are over lists, so no fuel is needed. The
-- system clock, the new guid, the validation by the stream in the session's handlers, and whether a write
-- succeeded are parameters, and so is the parser of URLs.
--
-- Bounds: the theorems on clock offsets are for times below 2 ^ 60 milliseconds, where no int64
-- operation overflows. JSON objects have distinct keys, spelled as the tags are, and numbers are integers.
--
-- Not modelled: sockets, TLS, proxies, DNS, files and child processes; logging; host information and
-- the Prometheus gateway (third-party libraries); the command line. Data races are not modelled: a
-- handler runs to its end.
pub mod Base
pub mod Json
pub mod Config
pub mod Connection
pub mod SmartConn
pub mod Protocol
pub mod Preparation
pub mod Timing
pub mod Session
pub mod Agent
pub mod Tracker
pub mod Check
pub mod Results
pub mod Ping
pub mod Run
pub mod Scheduler
pub mod Stream
pub mod Events
pub mod Handover
pub mod Examples
