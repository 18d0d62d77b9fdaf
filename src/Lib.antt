-- ===== src/Lib.antt =====
-- kube-secret-gateway: an HTTP gateway that serves configured keys of Kubernetes Secrets, and an
-- agent that fetches them and installs them as files.
--
-- The gateway. An exposure (gateway/internal/exposure/exposure.go; Gateway/Exposure) names a source
-- Secret with the keys to serve, the networks of its clients and an authentication Secret. The
-- resource manager (gateway/internal/resources/manager.go; Gateway/Resources) keeps a snapshot of
-- each referenced Secret by list, watch and reconciliation. The delivery handler
-- (gateway/internal/server/server.go; Gateway/Server) resolves the client's address behind trusted
-- proxies (gateway/internal/clientip/clientip.go; Gateway/ClientIp), checks the credentials
-- (gateway/internal/auth/auth.go; Gateway/Auth) and answers with the body and its ETag.
--
-- The metrics listener (gateway/internal/server/metrics.go; Gateway/Server/Metrics) serves the
-- probes and the metrics (gateway/internal/metrics/metrics.go; Gateway/Metrics). All are set up
-- from a validated document (gateway/internal/config/config.go; Gateway/Config).
--
-- The agent. Client.Fetch (agent/internal/gateway/gateway.go; Agent/Client) asks for an exposure,
-- and Runner.Sync (agent/internal/fetch/fetch.go; Agent/Fetch) installs the result on a disk
-- (Agent/Disk) as the settings say (agent/internal/config/config.go; Agent/Settings), which come
-- from a validated document (Agent/Config).
--
-- How the code is represented:
-- * Texts and bytes are lists of numbers (Base/Texts); a Go map is an association list, and a read
--   of a missing key gives the empty text. Durations and the counters of the manager
--   wrap at 2 ^ 64; the counters of Prometheus are natural numbers.
-- * Netip and Base64 are models of what the code uses of net/netip, encoding/base64 and
--   encoding/hex. Parsers of addresses, SHA-256, HMAC, JSON, the name checks of apimachinery, the
--   HTTP transport and math/rand are parameters.
-- * Resources/State has the state of one Secret (the type resource), Resources/Sync one round of
--   list, watch and reconciliation as functions of the server's answers, Resources/Delays the
--   options and the backoff, Resources/Run the loop of one goroutine with its recovery from panics
--   and the shared gate behind Initialized, Resources/Manager the Manager. Resources/Moves has
--   the operations of one goroutine in their order, with the decrement and the close of initDone
--   apart, and Resources/Interleaving lets the goroutines interleave, one operation at a time.
--   Resources/Mirror says when a snapshot is a copy of an object, Resources/Sent which objects the
--   server has sent.
-- * Server/Http has requests and a response writer as far as the handler uses them, Server/Body the
--   body, the ETag and If-None-Match, Server/Handler the handler with all its early returns.
-- * Server/Serve is what surrounds the handler: the recovery from a panic, the count and the record
--   in the log. A panic comes with the response and the outcome of its moment.
-- * Gateway/Config/Fields, Gateway/Config/Resolve and Agent/Config return each value with the
--   problems that the validation adds for it; a problem has its field and its kind, without the
--   wording.
-- * Gateway/Server/Tls has the certificate reloader, Gateway/Kubernetes the requests of the
--   Kubernetes client, whose selectors a parameter writes, and Gateway/Main what gateway/cmd/kube-secret-gateway/main.go sets up from a
--   configuration: the calls that can fail are fields of one record, in their order.
-- * Agent/Main and Agent/Select have run of agent/cmd/kube-secret-gateway-agent/main.go and its choice
--   of exposures, Agent/Metrics the series of agent/internal/metrics/metrics.go, Agent/Fetch/Poll
--   the rounds of the Runner. One round is a structural recursion over the exposures, and the rounds
--   of one exposure are a list, up to the end of the context.
-- * On the agent's disk every call may fail: a list of faults says of each call in turn whether it
--   does. Temporary files stand apart from the paths, under numbers. Agent/Fetch/Install has
--   writeTemp, install, writeFile and touchStamp, Agent/Fetch/Sync has Runner.Sync; the laws go from
--   one call (FrameLaws, TempLaws) over install (InstallLaws, Atomic, FreshLaws) to Sync (Commit,
--   Recorded, RoundTrip, Reverted). The command of an exposure is a function on the disk.
-- * The loop over a line of X-Forwarded-For runs on fuel one above the length of the line, which
--   each round shortens.
-- * Other loops are structural: over the signals of a watch, whose deadline ends it, and over the
--   turns of a goroutine, up to the end of its context.
--
-- Not modelled: the decoding of YAML, the log beyond the records of requests, the http.Server and
-- the signals, the set-up of client-go and of the Prometheus registries, NewRunner, and what the
-- concurrent rounds of several exposures do to one disk.
pub mod Base
pub mod Netip
pub mod Base64
pub mod Gateway
pub mod Agent
pub mod Tests
