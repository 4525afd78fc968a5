-- ===== src/Lib.antt =====
-- A model of the Terraform provider for network tunnels, with theorems on its parts.
--
-- The program is one binary with two roles. As a provider it turns Terraform's attributes into a
-- tunnel's configuration (internal/provider), starts a copy of itself for the tunnel and waits until
-- that copy says that it is ready (internal/libs/fork.go, watch.go). As a tunnel process it reads
-- its type and its configuration from its environment (main.go, internal/runner), watches its
-- parent, and forwards local connections through SSH, an Azure Bastion host, an AWS SSM session or
-- the Kubernetes API. The SSH and the Bastion tunnel serve their connections with one server and one
-- relay (internal/libs/server.go, relay.go).
--
-- Which file models which part:
--   Base, Errors, Effects, GoText: shared. Go's integers and lists, its errors with their wrapping,
--     straight-line code with its effects in order, and what the source uses of strings, strconv and
--     net. GoText.Decimal has the round trip of strconv.Itoa and strconv.Atoi.
--   Libs.Server: ConnServer of internal/libs/server.go as a state (listener, phase, tracked
--     connections, running handlers) and the events of its goroutines; Serve, run, forget and Close.
--   Libs.Relay: RelayDrain and pipe of internal/libs/relay.go, as events on two streams;
--     Libs.Relay.Traffic adds the bytes that each io.Copy carries, chunk by chunk.
--   Libs.Watch: CheckProcessExists, WatchProcess, WaitForReadyFile, waitForLocalPort, the Signal
--     functions and Interrupt of internal/libs/watch.go.
--   Libs.Fork: ForkTunnel of internal/libs/fork.go with log.go and const.go.
--   Libs.Port: GetFreePort of internal/libs/port.go.
--   Runner: main of main.go and StartTunnel of internal/runner/tunnel.go; Runner.Child joins them to
--     the StartRemoteTunnel of each package.
--   Ssh.Client, Ssh.Forward, Ssh.Auth, Ssh.Tunnel: clientPool of internal/ssh/client.go as a state
--     and the events of its callers, with dialSSH and keepalive in Ssh.Client.Dial; dialTarget and
--     handle of forward.go; auth.go; StartRemoteTunnel and runTunnel of tunnel.go.
--   AzureBastion.Config, AzureBastion.Tunnel, AzureBastion.Stream, AzureBastion.Session,
--     AzureBastion.Endpoint, AzureBastion.Server: resolve, Validate, discoverBastion,
--     validateBastion and StartRemoteTunnel of internal/azurebastion/tunnel.go; wsStream,
--     sessionClient, and newSessionClient with the URLs, of session.go; handle of server.go.
--     AzureBastion.Session.Callers has the callers of one session, with its mutex.
--   Ssm.Session, Ssm.Api, Ssm.Tunnel: internal/ssm/session.go and tunnel.go.
--   Kubernetes.Config, Kubernetes.Endpoints, Kubernetes.Forward, Kubernetes.Request,
--     Kubernetes.Tunnel: restConfig of internal/kubernetes/config.go, resolveEndpoint of
--     endpoints.go, portForward.run and the request of newPortForward of forward.go, and
--     StartRemoteTunnel and runTunnel of tunnel.go.
--   Provider: the models, the validation and the configurations of internal/provider/ssh.go, ssm.go,
--     azure_bastion.go and kubernetes.go; Provider.Lifecycle has Open and Close of the ephemeral
--     resources and Read of the data sources, with what a successful Open tells of the tunnel's
--     process; Provider.Schema the schemas of both, with what the
--     framework asks of the models that it reads and writes; Provider.Registry the two lists of
--     provider.go.
-- Beside a component stand its theorems, in modules named for what they prove, and its Tests.
--
-- Concurrency. A locked section of the source is one event; the theorems hold for every list of
-- events, so for every interleaving. Where a `select` can take either of two channels, the choice is
-- part of the input.
--
-- Bounds and fuel. An `int` is an integer; where the source narrows one (int32 in
-- resolvePodPort, and of the PIDs in Interrupt and WatchProcess) or parses one (strconv.Atoi), the 32
-- or 64 bits are written out; CheckProcessExists takes the answers for the narrowed PID. `digits` of GoText
-- takes the number plus one as its fuel, more than the number has digits. `write_loop` of
-- AzureBastion.Stream takes the number of bytes, and every frame has at least one. dialTarget runs
-- its two rounds. The waits of Libs.Watch take the rounds that the clock gives them as a list.
--
-- Not modelled, or taken as an argument: what the network, the file system, other processes and the
-- clock answer; the libraries of Azure, AWS, Kubernetes, HashiCorp and golang.org/x/crypto, among
-- them arm.ParseResourceID and net.ParseIP, which are parameters; encoding/json, whose output is a
-- given text, and whose reading of a text is a parameter; the cleaning of paths by
-- filepath.Join, the parser and the escapes of net/url; log lines, and the values that an error
-- message prints; the descriptions of the attributes. The server of internal/ssh/sshtest serves the
-- tests only.
pub mod Base
pub mod Errors
pub mod GoText
pub mod Effects
pub mod Libs
pub mod Ssh
pub mod AzureBastion
pub mod Ssm
pub mod Kubernetes
pub mod Provider
pub mod Runner
