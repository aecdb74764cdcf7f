-- ===== src/Lib.antt =====
-- Eregion is an application server: it keeps pools of long-running PHP workers, passes HTTP requests
-- on to them over framed MessagePack, and sets the size of each pool by strategy. This library
-- models its parts and states what makes them correct.
--
-- Worker: internal/worker/pool.go and state.go. `Pool` is the struct with its slots, the idle channel
--   and, at addresses, the workers that slots, channel and requests share; each critical section and
--   each channel operation is a function (Types, Restarts, Boot, Monitor, Scale, Acquire, Release,
--   Snapshot, Shutdown), and a method with nobody in between is their composition. System has one
--   step for each critical section and for each channel operation outside of them, taken in any order, with what
--   a goroutine holds in between in lists beside the pool. Environment is env.go, Backoff
--   backoff.go, and Start process.go: what a process is started with and the steps of a start, with the answers of the
--   operating system as arguments.
-- Dispatcher: internal/dispatcher/dispatcher.go. Queue is the bounded queue, Body the reading of
--   bodies, Serve `ServeHTTP`, which takes a worker from the pool model and releases or discards it;
--   a request carries how its exchange with the worker ends.
-- Protocol: internal/protocol. Frame is frame.go, with writers that take the bytes in parts; Messages
--   the checks of messages.go; Conn is `SendRequest` and `PerformHandshake`.
-- Scaling: internal/scaling. Strategy holds the clamps and the strategies of strategy.go, Hysteresis
--   the damping of hysteresis.go, with the clock's reading as an argument.
-- Workload: internal/workload. Model and Resolve are model.go and resolve.go, Registry the map of
--   workloads, Build the workloads of a configuration (build.go and adapter.go).
-- Reconciler: internal/worker/manager.go (Manager) and internal/reconciler/reconciler.go (Pass), which
--   joins the parts: it makes a pool for each workload, sets it to the damped number of its strategy
--   and removes the pools of workloads that are gone.
-- Config: internal/config. Types and File are the structs of config.go and load.go, Defaults `Default`,
--   Apply `applyFile`, Paths paths.go, Workloads workloads.go, Validation `Validate`, and Load `Load`,
--   `ApplyCLIOverrides` and how cmd/eregion/main.go composes them for `serve`. float64 and
--   `time.ParseDuration` are arguments (`Std`), as are the number of CPUs and the decoded YAML file.
-- Resources: internal/resources. Parse and CpuSet are cgroup.go, Membership self_cgroup.go, Place
--   resolve.go, Detect cgroup_detect.go, detect.go and linux.go; what each file holds is an argument. Evidence, Inside
--   and Found follow a quota or a CPU set from its file to the result.
-- Telemetry: internal/telemetry/metrics.go. Registry holds the counters and what each call of the
--   dispatcher does to them, Health the status endpoints.
-- Sizing: internal/sizing. Advice is advisor.go and classification.go without the text of the reason.
-- Server: internal/server/server.go. Routes are the routes of `New`, with `http.ServeMux` as an argument and its
--   panic as an absent result, Run the calls that `Run` and `shutdown` make, in their order, and how they end.
-- Prelude: lists over native numbers, counts, signed integers, maps, results,
--   and what is used of Go's `strings` and `path`.
--
-- How Go is read. Counts that validation makes non-negative are ℕ; where the code looks at signs
-- they are ℤ; sums of uint64 and lengths in uint32 wrap as they do in Go. A map is the list of its
-- entries. Times are nanoseconds and given from outside. What is chosen at random or by others (a
-- ready case of a `select`, a process that ends, the bytes of a socket, what MessagePack makes of
-- them, float64) is an argument or an interface, of which a theorem assumes only what it names.
-- No model runs on fuel: each loop recurs on what it consumes, the channel's contents, the slots, the
-- given cases of a `select` or the given calls of `Write`.
--
-- Not modelled: processes, sockets and signals themselves, the rest of the wiring in
-- internal/server, the text of /metrics, logging (also internal/dispatcher/log.go), project
-- scaffolding (internal/craft), and the waits of a pool's start and shutdown, with `StartAll` and
-- `ShutdownAll` of the manager.
pub mod Config
pub mod Dispatcher
pub mod Prelude
pub mod Protocol
pub mod Reconciler
pub mod Resources
pub mod Scaling
pub mod Server
pub mod Sizing
pub mod Telemetry
pub mod Worker
pub mod Workload
