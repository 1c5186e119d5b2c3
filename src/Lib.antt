-- ===== src/Lib.antt =====
-- Verification of cluster-gateway.
--
-- The program is an extension of the Kubernetes API server. A cluster gateway is an object that it
-- makes of a secret, and of the managed cluster of the same name where Open Cluster Management is
-- integrated; its subresource proxy forwards requests to the cluster, its subresource health keeps
-- the health in annotations of the secret. Virtual clusters are a second view of the same objects,
-- with the hub among them. An addon manager installs the gateway, copies the tokens of clusters into
-- secrets, and probes the clusters through the gateway.
--
-- Base      shared types: results with panics, actions on a state, maps, prefixes of texts,
--           decimal texts
-- Api       the data types and constants of pkg/apis/cluster/v1alpha1 and pkg/common
-- Identity  pkg/apis/cluster/v1alpha1/clustergateway_proxy_configuration.go: ExchangeIdentity,
--           matchIdentity, and getImpersonationConfig of clustergateway_proxy.go
-- Exec      pkg/util/exec/exec.go: IssueClusterCredential and its cache
-- Convert   pkg/apis/cluster/v1alpha1/clustergateway_types_secret.go: convert and what it calls
-- Transport pkg/apis/cluster/v1alpha1/transport.go: NewConfigFromCluster, GetEndpointURL
-- Controls  pkg/util/cert/secret.go and pkg/util/cluster/cluster.go: the controls, and their choice
--           in pkg/util/singleton/loopback.go
-- Gateway   Get and List of clustergateway_types_secret.go, and printer.go
-- Health    pkg/apis/cluster/v1alpha1/clustergateway_health.go
-- Routing   pkg/apis/cluster/transport, clustergateway_expansion.go of the clientset, and
--           pkg/util/context
-- Query     the escaping of query keys of clustergateway_proxy.go
-- Connect   Connect of clustergateway_proxy.go, with its authorization
-- Proxy     ServeHTTP of clustergateway_proxy.go
-- Validation pkg/apis/cluster/v1alpha1/validation.go
-- Virtual   virtualcluster_types.go and virtualcluster_errors.go; Virtual.Client is
--           virtualcluster_client.go
-- Startup   the flags of pkg/config and their validation, the load of the global configuration, and
--           the functions that cmd/apiserver/main.go configures the server with
-- Metrics   pkg/metrics, and the finishFunc of clustergateway_proxy.go
-- Configuration pkg/apis/proxy/v1alpha1/clustergatewayconfigurations.go, and the addons of the hub
-- Cert      CopySecret of pkg/util/cert/secret.go; Cert.Authority is EnsureCAPair of cert.go
-- Prober    Reconcile of pkg/addon/controllers/health.go; Prober.Hub are its clients, served by Health
--           and Gateway
-- Installer pkg/addon/controllers/installer.go: Installer itself is the copy of tokens,
--           Installer.Objects and Installer.Deployment build the objects, Installer.Steps has the
--           ensure functions, and Installer.Steps.Reconcile is Reconcile; Installer.Convertible joins
--           it with Convert, and Startup.Deployed with the flags
-- Events    pkg/event: the handlers that wake the installer and the prober; Events.Watches is what
--           SetupClusterGatewayInstallerWithManager of installer.go watches
-- Agent     pkg/addon/agent
-- Patch     hack/patch/main.go
--
-- A function that may fail returns a Result: a value, an error, or a panic, which is a dereference
-- of nil. A function that changes a state takes it and returns the state that it leaves: the cache
-- of credentials, or a hub of which nothing is fixed, with the behaviour that is relied on as named
-- laws. A Go map is an association list with distinct keys, and a pointer that may be nil an Option.
-- The modules named Tests apply the theorems at concrete inputs, those named Sample hold shared
-- inputs.
--
-- IssueClusterCredential calls itself after it has removed an expired entry; it runs on fuel, and
-- two rounds are enough. Decimal texts have at most twenty digits, which an int of 64 bits never
-- exceeds. All other loops are structural; the prober's timer is a list of ticks, and its controller a
-- number of rounds.
--
-- Not under the program's control, and parameters: the Kubernetes clients, informers and authorizer,
-- regular expressions, URL parsing, path.Clean, base64, JSON and YAML decoding, the operating system,
-- the tunnel's dialer, sorting, the libraries of flags and of metrics, PEM, X.509 and the rotation of
-- certificates, and the reverse proxy behind the handler. A work queue is the list of the requests
-- that are added to it. Times are natural numbers.
-- A map with no entries that was read from the API is nil.
--
-- Not modelled: generated clients and deep copies, the registration of schemes, flags of the log,
-- resources and controllers, and the constructors of clients, which are calls of libraries; the
-- feature gates are parameters. A secret of a lister is a value, so that the installer's change of it
-- before its update, in place, is not seen by a later read.
pub mod Base
pub mod Agent
pub mod Api
pub mod Identity
pub mod Events
pub mod Exec
pub mod Convert
pub mod Startup
pub mod Transport
pub mod Controls
pub mod Gateway
pub mod Health
pub mod Routing
pub mod Query
pub mod Configuration
pub mod Connect
pub mod Proxy
pub mod Validation
pub mod Virtual
pub mod Cert
pub mod Metrics
pub mod Patch
pub mod Prober
pub mod Installer
