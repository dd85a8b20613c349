-- ===== src/Lib.antt =====
-- The sidecar agent registers the services of its host with Consul, discovers the healthy instances of
-- its environment and gives them to a local Envoy, which it may run itself, as xDS snapshots:
--
--   model/types.go        Model (Request, Route, Strings, Service, Error): requests and `Validate`
--                         (validate), `RouteDocument.Equal` (equal), `UniqueSortedStrings`,
--                         `ExtractRoutePrefixes`
--   registry/consul.go    Registry: Consul (the interfaces of the Consul library), Client (what does not
--                         change, identifiers), Register (`Register`), Lifecycle (`Drain`, `Deregister`,
--                         `LocalServices`), Lease (`leaseLoop`, `Start`, `Shutdown`,
--                         `cleanupPreviousRuns`), Discover (`Discover`); Tracked has the invariant of
--                         `localServices` and the sequences of operations that keep it; Live compares the
--                         map with the instances that Consul has been told of
--   xds/snapshot.go       Xds.Snapshot (groups, load assignments, clusters, virtual hosts) and
--                         Xds.Snapshot.Build (`Build`); Grouping is its way of filling maps
--   xds/server.go         Xds.Server (`Publish`, `Start`, `Stop`)
--   discovery/watcher.go  Discovery (`refreshOnce`, `RefreshNow`, `Run`)
--   envoy/manager.go      Envoy.Manager: `Start`, `Stop`, `watchLoop` and the goroutine of
--                         `startProcessLocked` as steps of one relation
--   envoy/bootstrap.go    Envoy.Bootstrap (`WriteBootstrap`)
--   config/config.go      Config (the records, `Default`), Config.Checks (`Validate`, `MustDuration`),
--                         Config.Load (`Load`)
--   admin/server.go       Admin (`Server` over the interfaces `Registry` and `Refresher`: the handlers,
--                         their routes, `Start` and `Shutdown`)
--   dns/server.go         Dns (`handleMeshDomain`, `forward`, `Start`, `Shutdown`)
--   telemetry             Telemetry (`New` and `Shutdown` of otel.go, `NewMetrics`), Telemetry.Metrics
--                         (the counters and the gauge), which Registry.Counted compares with what Consul
--                         accepted
--   app/app.go            App (`New`), App.Running (`Start`, `Shutdown`), App.Refresh (`RefreshNow`,
--                         `publishInstances`), App.Serving (the runner behind the admin interface, and
--                         the agent at work), which put the parts together
--   cmd/sidecar-agent     App.Main (`main` of main.go, `WaitForShutdown`)
--
-- Prelude, Sort and Text carry what Go itself gives: lists, maps as association lists, signed numbers,
-- sorting by a key, and strings as lists of code points. Examples has the theorems at concrete inputs.
--
-- A method of the Consul client is an `Exec`: it takes the map of services and the history of calls made
-- so far, and returns a result or an error with the state that it leaves; what was done before an error
-- stays done. Registry.Within goes through these methods once, for every relation between the state
-- before and the state after that each step stays within. The answers of Consul, the clock, the random
-- source, JSON and durations are the fields of the record `Outside`, functions of the whole history, so
-- that a theorem holds for any remote party. A snapshot builder and a watcher are records that their
-- operations take and return. Where Go iterates over a map, the order is a parameter or any
-- rearrangement, or the theorem shows that it does not matter. The Envoy manager is a relation, one step
-- for each section that runs under the mutex or between two reads, and its theorems are about all
-- interleavings of these steps. `New` of the application may end in a panic, which is a value of its
-- result. The runner keeps the states of the registry client and of the xDS server; what the other parts
-- return from `Start` and `Shutdown` is given to it.
--
-- Times are natural numbers of nanoseconds and durations signed ones; ports and weights are signed; the
-- version of a snapshot wraps at 2^64 and `uint32` at 2^32; counters are sums without a bound. All
-- functions are total by structural recursion, so there is no fuel.
--
-- The calls of `SetSnapshot` are kept with their answers; what the cache then holds is not assumed.
-- Not modelled: the goroutines that `Start` launches, which only count as launched, but for the tickers
-- of the lease loop and of the watcher, which may panic in `main`; the fallback logger
-- of the telemetry; what net/http, gRPC, go-control-plane, miekg/dns, OpenTelemetry and yaml do, which is
-- given as parameters. Logs and spans leave no trace in the state. Outside the Envoy manager and the
-- module Registry.Live.Racing each operation is one step.
pub mod Admin
pub mod App
pub mod Config
pub mod Discovery
pub mod Dns
pub mod Envoy
pub mod Examples
pub mod Grouping
pub mod Model
pub mod Prelude
pub mod Registry
pub mod Sort
pub mod Telemetry
pub mod Text
pub mod Xds
