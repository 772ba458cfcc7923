-- ===== src/Lib.antt =====
-- envoy-control-plane: a control plane that configures Envoy proxies from Kubernetes. ConfigMaps
-- hold the configurations of Envoy nodes; the program keeps one store for each node, collects the
-- addresses of pods and services, and pushes versioned snapshots into the snapshot cache of
-- go-control-plane, which serves the nodes.
--
-- The parts and the files that model them (paths from the root of the repository):
--   Config      pkg/config/config.go (Type, Load, String, CheckConfig, getEnvDefault) and the types
--               of pkg/config/configType.go.
--   Resources   pkg/resources/resources.go (YamlToResources).
--   Weights     pkg/config/configType.go: GetClusterWeight and the mutateWeighted functions.
--   Loading     pkg/config/configType.go: SaveResources, filterCertificates, ParseConfigYaml; and
--               ValidateConfig of pkg/config/config.go.
--   Api         pkg/api/informers.go: the look-ups (GetPod, ListPods, GetNode, GetEndpoint); and
--               pkg/api/client.go and metrics.go (Api/Client).
--   Endpoints   pkg/configstore/configStore.go: getEndpointLocality, getEnvoyLocalityLbEndpoint,
--               isPodReady, the metadata, and getLocalityLbEndpoints (Endpoints/Listing).
--   Publish     saveLastEndpoints up to its lock: merge, lines, resources, the test of addresses.
--   Certs       pkg/certs/certs.go: issuing (Certs/Issue) and loading (Certs/Load).
--   GenCerts    cmd/gencerts/main.go.
--   Secrets     pkg/utils/utils.go: NewSecrets and the resources of GetConfigSnapshot; together
--               with Certs in Secrets/Mutual.
--   ConfigStore pkg/configstore/configStore.go: the type ConfigStore, saveLastEndpoints, Push,
--               NewPod, LoadNewSecrets, Stop; New (ConfigStore/Create); Sync (ConfigStore/Resync).
--   World       the objects, StoreMap, the snapshot cache and the goroutines that were started.
--   ConfigMaps  pkg/configmapsstore/configMapsStore.go: NewConfigMap, DeleteConfigMap. The loop of
--               NewConfigMap on an abstract map of configurations is in ConfigMaps/Replayed.
--   Events      internal/internal.go: the handlers and the periodic jobs, and the filter of
--               ConfigMap updates of pkg/api/informers.go; Events/Reachable puts them together to
--               a transition system, and Events/History compares it with a map of configurations, up
--               to the snapshots of Events/Snapshots.
--   Web         pkg/web/web.go: getRoutes, GetHandler, auth, the dumps of the stores, the other
--               handlers and the two servers (Web/Handlers); and GetZoneByPodName of
--               pkg/api/informers.go.
--   Informers   pkg/api/informers.go: the functions of RunKubeInformers, and how it sets up and runs
--               the informers (Informers/Setup).
--   Process     cmd/main/main.go, and Init of internal/internal.go with config.Load, api.Init and
--               certs.Init: a transition system over the callbacks of the leader election and
--               signals.
--   Cli         cmd/cli/main.go.
--   Metrics     pkg/metrics/metrics.go, and TimeTrack of pkg/utils/utils.go.
--   Callbacks   pkg/controlplane/callbacks.go, created as in pkg/controlplane/controlPlane.go.
--   AccessLogs  pkg/controlplane/accessLogService.go and logger.go.
--   GrpcServer  pkg/controlplane/controlPlane.go: the options and services of the gRPC server, and
--               Start.
--   Kube, Envoy the data of Kubernetes and of Envoy, as far as the program reads or builds them.
--   Xds         the snapshot cache of go-control-plane.
--   Prelude     shared names, results, maps as association lists, texts, sorting.
--   Examples    a concrete node, on which the theorems are applied.
-- The children of a module hold its theorems.
--
-- Conventions. A method that changes its receiver returns the new state; `true` beside it says
-- that it started a goroutine. An error is a value of `Result` or of an option, a panic or a fatal
-- error is `panics`. Code outside the repository is a parameter: the listers of client-go
-- (`Listers`), the codecs of YAML, JSON and protobuf (`Codec`), keys and certificates (`X509`, with
-- what its documentation promises in `IsX509`), the file system of the tool (`Os`), client-go
-- (`ClientGo`), templates (`Templates`), net.ParseIP and the order in which Go ranges over a map
-- (`Runtime`), and the snapshot cache (`Xds`, with what it promises in `IsCache`: it indexes the
-- resources of a snapshot by name, and keeps the later one of two with one name). Other ranges
-- over maps take the order of the association list. Texts are compared by code points, as Go compares UTF-8.
-- Slices are values: `merge_endpoints` copies what saveLastEndpoints appends to, where the append
-- may write into the array of a slice of the configuration that was published before. Where
-- code changes messages in place and then fails, the configuration is dropped by its caller, and
-- the model returns the error alone.
--
-- A step of Events/Reachable is a whole handler, a whole round of a job or a whole goroutine: that
-- these may overlap in time is not modelled.
--
-- Bounds. The loop of Push draws versions until one differs: `new_version` recurses on the list of
-- the texts that uuid.New returns, and one text that differs from the version is enough. The
-- weights are parsed as numbers below 2 ^ 64 and written modulo 2 ^ 32. Every other loop is
-- structural.
--
-- A random number stands for what rand.Reader gives in one call, and one time for all calls of
-- time.Now() in one function. The file of a request that OnStreamResponse drops is open until the
-- garbage collector finalises it, which the model never does.
--
-- In Process the calls of `start` are taken to succeed, and an end by log.Fatal to be at once.
--
-- Not modelled: logging; where the code calls TimeTrack and counts requests, whose effects on the
-- metrics are defined alone; reading flags; ListConfigMaps of pkg/api/informers.go, which nothing
-- calls; the mux of net/http; serving over gRPC.
pub mod Prelude
pub mod Kube
pub mod Envoy
pub mod Config
pub mod Resources
pub mod Api
pub mod Weights
pub mod Loading
pub mod Endpoints
pub mod Publish
pub mod Certs
pub mod GenCerts
pub mod Metrics
pub mod Callbacks
pub mod Secrets
pub mod Xds
pub mod ConfigStore
pub mod World
pub mod ConfigMaps
pub mod Events
pub mod AccessLogs
pub mod GrpcServer
pub mod Informers
pub mod Cli
pub mod Process
pub mod Web
pub mod Examples
