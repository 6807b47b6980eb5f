-- ===== src/Lib.antt =====
-- The HTTP/1.1 benchmark: its Go client, what its Go servers share, and the configuration of both.
--
-- The client opens keep-alive connections to a server, sends it echo requests over them, one at a
-- time or pipelined in batches, reads the responses, and writes reports that are put together to
-- tables. The program's parts and the files that model them:
--
-- - benchcli-go/protocol/http.go, on the wire: Protocol. Protocol/Encode is EncodeRequest,
--   Protocol/Batch is BatchBuffers, PipelineBuffers and ValidatePipeline, Protocol/Response is
--   readResponse with ReadResponse and DiscardResponse, Protocol/Chunked is readChunked,
--   Protocol/Framing is readLine and the reading of a body of known length, Protocol/Ascii is
--   parseStatus and asciiEqualFold, Protocol/Grow is grow. A Reader is a bufio.Reader: the size of
--   its buffer, the bytes that the connection has still to deliver, and the error behind them. A
--   Slice is a []byte with the array behind it, so what an earlier response left in a buffer is in
--   the model.
-- - benchcli-go/benchrate/benchrate.go: BenchRate. BenchRate/Start is init, BenchRate/Sender is
--   doOnce, and the sender and the reader of one connection as steps in any order,
--   BenchRate/Responses is readResponses, BenchRate/Run is the redials and the teams of Run, with the
--   counters that its readers share in BenchRate/Run/Snapshot.
-- - benchcli-go/report: Report. Report/Columns holds the structs with their tags, Report/Cells and
--   Report/Plain are parsing.go, Report/Ranking, Report/Percent and Report/Markdown are reporter.go,
--   Report/Table is table.go and Report/Summary is summary.go. Report/Made is Report of the three
--   benchmarks with psInfo, Report/Ratios is CPUEER, MEMEER, RateTPS and fillTPS, and Report/Files is
--   ToFile, ReadReports and the Generate functions over a disk, with saveReport and generateReports
--   of client.go.
-- - benchcli-go/client.go: Client, which is main as the list of what it does: a refused flag, the
--   dials, the benchmarks, the reports that it saves and the deferred stops.
-- - benchcli-go/connections/connection.go: Connections, with dial, Redial, doOnce and init.
-- - benchcli-go/benchecho/benchecho.go: BenchEcho, with doOnce and the settings of init, in
--   BenchEcho/Prepared the requests that init prepares, and in BenchEcho/Workers the goroutines that
--   take connections out of chConns and put them back, as steps in any order.
-- - config: Config. Config/Ports holds the frameworks and their ports, Config/Control is the requests
--   to a server's control routes, Config/Pids is InitAndGetFrameworkPid, GetFrameworkPsInfo and PsInfo
--   of LocalPSSampler, Config/Dials is GetFrameworkBenchmarkAddrs, Config/Sampling is SetupPS of
--   pssource.go and the sampling loop of localps.go, Config/Processes is the reading of /proc and of
--   ps, and Config/LocalHost is IsLocalHost.
-- - frameworks: Servers. Servers/Echo is ReadBody with its pool and Echo of handlers.go,
--   Servers/Control is /init of handlers.go, with the requests to it as steps in any order, and
--   Servers/Listen is Listen and listenAll of frameworks.go, and Servers/Handlers is the
--   handlers of the echo route in frameworks/gin, echo, beego, fib, fasthttp, fiber and hertz beside
--   Echo, which the others register.
--
-- Prelude holds what all of them share, and Golib the parts of Go's standard library that they call,
-- as far as they call them. Tests holds concrete inputs.
--
-- The client's readers call the protocol: BenchRate/Responses calls Protocol/Response for every
-- response, as do BenchEcho and the dials of Connections, and BenchRate/Start calls Protocol/Encode
-- and Protocol/Batch for what the senders write. BenchEcho and BenchRate/Run redial with Connections.
-- Config/Pids/Agree puts the client's side of /init and the handler of Servers/Control together,
-- Config/Dials/Match the client's addresses and the servers', Servers/Handlers/Accepted the servers'
-- handlers and doOnce of BenchEcho, and Client/Run the checks of main and
-- init of BenchRate.
--
-- Bounds and fuel. An int has 64 bits: sizes in chunked bodies wrap as int64 does. The loops over
-- header lines, chunks and trailer lines run on fuel that is one more than the bytes the connection
-- has still to deliver, since each round reads a line; that it is enough is a theorem. The same holds
-- of the loop of readResponses, which takes at least a byte for each response.
--
-- Of the loop of ReadBody, each round takes a byte or a part of what the body delivers, and the fuel is
-- one more than these.
--
-- Parameters. Floating-point numbers, and the texts that github.com/lesismal/perf writes sizes and
-- times in, are the record Report/Outside.Outside; that the comparisons of numbers are those of an
-- order is Report/Outside.IsOrdered, which leaves out NaN, and what the ratios compute with is
-- Report/Ratios.Ratios. encoding/json is the record Report/Files.Json, and what its documentation says
-- of reports is Report/Files/RoundTrip.IsJson. What rand.Read fills a buffer with, whether a write
-- works, what comes of a dial, how an HTTP exchange ends, what the body of a request delivers, the
-- capacity that append gives, whether a port can be bound, and what the operating system and the
-- network say of processes and hosts are arguments of the functions that use them.
--
-- Not modelled: what net/http and the other frameworks do around the servers' handlers, and the
-- servers' mains, which register the handlers with them and listen; the Rust client and the Rust and C++ servers;
-- scripts, the parsing of flags, log lines and the fetching of profiles; the counts of a run that
-- github.com/lesismal/perf keeps; rate limiters, timers, deadlines and the goroutines of a run beyond
-- those named above. White space and letters are those of ASCII. A cell of a table is taken as its
-- characters.
pub mod Prelude
pub mod Golib
pub mod Protocol
pub mod Tests
pub mod Report
pub mod Config
pub mod BenchRate
pub mod Connections
pub mod BenchEcho
pub mod Servers
pub mod Client
