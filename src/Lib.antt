-- ===== src/Lib.antt =====
-- The core of a system that measures the reverse path, from a destination back to a source, with
-- record-route and timestamp probes, known traceroutes and an assumption of symmetry.
--
-- The parts, and the files that model them:
--   util/string/string_utils.go (StringSet.Union, StringSliceMinus, InArray and the other slice
--     functions): StringUtil. A range over a Go map goes through a parameter that orders the map.
--   util/util.go (Int32ToIPString, IPStringToInt32, IPtoInt32, Int32ToIP): IpUtil, with what
--     net.ParseIP and IP.String do on IPv4; a text that is IPv6 is read by a parameter.
--   revtr/reverse_traceroute/segments.go: Segment. A Go segment type embeds RevSegment; a Segment
--     is a RevSegment with the dynamic type and its fields. A ClusterMap is a function on hops.
--     Segment/Create has the constructors, and Segment/Symmetric ndsrsSelectNonzeroHops and AddHop.
--   revtr/reverse_traceroute/reverse_path.go: ReversePath, a list of segments.
--   revtr/reverse_traceroute/revese_traceroute.go: Revtr, the state of one reverse traceroute, with
--     the stack of paths, dead ends, vantage points and adjacents left. Revtr/RecordRoute has
--     InitializeRRVPs and GetRRVPs, Revtr/Timestamp the adjacents, Revtr/Background
--     AddBackgroundTRSegment, Revtr/Storable ToStorable, Revtr/Fail and Revtr/AddSegments the
--     proofs on FailCurrPath and AddSegments. What the state calls (sorting, the vantage point
--     service, the adjacency source) is in Revtr/Externs, as parameters.
--   revtr/runner/revtr_runner.go (processRR): RecordRoute.
--   revtr/runner/revtr_runner.go (the steps of rtBatch, and run): Runner. The options of a batch are
--     Options, with the state of one reverse traceroute in Running; the clients that send probes,
--     the atlas and the context are parameters that act on a world of any
--     type. Runner/Measure has the functions that issue record-route probes and traceroutes,
--     Runner/Probes and Runner/Timestamp those of the timestamp step, Runner/Steps the other
--     steps, and Runner/Run the loop over the steps. A result is a value, a panic or a loop that
--     does not end. The messages are in Runner/Network, with the fields that the runner reads.
--   revtr/ip_utils/ip_util.go (IsPrivate): Runner/Network, with what the library tests.
--   warts: Warts, the readers of the warts format. Warts/Reader has the reads from a buffer (a list
--     of bytes), Warts/Flags, Warts/Address and Warts/Records the flags, the addresses and the
--     short records, Warts/Hop, Warts/Traceroute and Warts/Icmp those of a traceroute,
--     Warts/PingReply and Warts/Ping those of a ping, and Warts/Parse the loop over the records.
--   spoofmap/spoofMap.go: SpoofMap, Register, Receive and one tick each of sendSpoofs and cleanOld;
--     what a tick sends is a result. The types of spoofs and probes are parameters.
--   controller/controller.go (doPing, doTraceroute): Controller. Controller/Phases has what the two
--     share: the lookups in the cache and the database, the batches by service and their results;
--     Controller/Traceroute and Controller/Ping the rest, with the keys of datamodel/ping.go and
--     datamodel/traceroute.go. Controller/Backend has what they call, as parameters that act on a
--     world. The goroutines of one request change the world one after another, and what they send is
--     interleaved as a parameter says; whether a context is done is asked of the world where a
--     select does.
--   controller/spoofmap.go: Controller/Spoofs, the groups of spoofed probes that wait for answers,
--     with the steps of all goroutines as a relation. The controller hands it a probe by Notify.
--   router/router.go and Close of router/plcmt.go: Router, the tools that the controller asks for.
--   revtr/server/server.go: Server. Server/Requests has RunRevtr, GetRevtr and GetSources,
--     Server/Running AddRevtr and StartRevtr with its goroutines as steps on the maps and channels,
--     Server/Resolve resolveHostname, and Get of revtr/clustermap/cluster_map.go.
--   uuencode/uuencode.go and uuencode/uudecode.go: UuEncode; what the Go runtime leaves behind the
--     end of a slice is a parameter.
--
-- A function that may panic returns a Run; an error is an Option or a Bool, as each file says. A
-- callback is an event in the state, and does not change it. Numbers are natural numbers; an index
-- that may be -1 is an Option, or the index plus one. The loop of processRR that removes cluster
-- loops runs on fuel, the number of hops plus one, which is enough since the index moves on in
-- every round. The loop of UUEncode runs on the number of bytes plus one, as every round reads one.
-- The rounds of a step and the steps of a run are counted by fuel too: 31 rounds, or one more than the
-- number of adjacents left, are enough for the timestamp step; a run has no bound, since what the
-- network answers decides when it ends. The loop of Parse, and the one over ICMP extensions, run
-- on the number of bytes plus one, as every record and every extension takes bytes.
--
-- Not modelled: the clock, logs and statistics, with those of a ping, which are floating-point numbers;
-- locks, but for the order of steps that they allow; the start of the runner's goroutines; what
-- prints the objects of a warts file or renders a reverse traceroute as HTML; the RPC and HTTP
-- handlers, the databases, the caches and the command lines, which are calls of other services.
pub mod Base
pub mod Controller
pub mod IpUtil
pub mod RecordRoute
pub mod ReversePath
pub mod Revtr
pub mod Router
pub mod Runner
pub mod Segment
pub mod Server
pub mod SpoofMap
pub mod StringUtil
pub mod UuEncode
pub mod Warts
