-- ===== src/Lib.antt =====
-- The stores, the access reviews and the errors of golibs.
--
-- The program is a collection of Go packages. Its core is a key-value store interface with backends,
-- middleware and utilities over it; packages of their own grant access,
-- classify errors, retry calls and work on slices and maps. Paths
-- below are from the repository's root.
--
-- Prelude: Boolean tests, lists and byte strings; `Key` is an ordered type of keys (cmp.Ordered) with
--   its zero value and, where its values are strings, their bytes.
-- GoMap: Go's built-in map, as a list of entries with distinct keys. The order of a loop over a map is
--   open in Go; the theorems hold for every list of entries.
-- Exec: a method takes a state and returns a result or an error, beside the new state.
-- Errors (pkg/errors/errors.go): the tree of errors that `%w` and errors.Join build, errors.Is and
--   errors.As on it, the table of HTTP errors, IsNotFound, IsAlreadyExists, StatusCodeAsErr,
--   ErrAsStatusCode, IsRetryableError, IsTransportRetryable. An error of another package is what the
--   type tests of the code find on it.
-- Store (pkg/store/store.go): the interface as a record of methods over a state; AsMap, Reset, New.
--   Store/Options (pkg/store/options.go): []Option, MatchOption, MatchOptionBy, the builders of the
--     options with a key, CheckOptionsExhausted; Store/Options/Serialized (pkg/store/serialize_options.go)
--     options as pairs of strings, and back.
--   Store/Spec: what a store promises, as the methods of a partial map, and `Implements`, that a store
--     keeps the promise in all the states that an invariant allows.
--   Store/History: that two stores which keep the promise cannot be told apart.
--   Store/Memory (pkg/store/backends/memory/memory.go): the store over a Go map.
--   Store/Cache (pkg/store/middleware/cache): a store and its cache, side by side in one state.
--   Store/Prefix (pkg/store/middleware/prefix/prefix.go): a store behind a prefix of its keys.
--   Store/DefaultMap (pkg/store/utilities/defaultmap/defaultmap.go): Update with a collision function,
--     Merge, Clone. Both stores are stores over one state, so they can be one and the same.
--   Store/Guarded (pkg/store/middleware/nameable, pkg/store/middleware/validatable): a check in front
--     of each method that writes a value.
--   Store/Timed (pkg/store/utilities/timed): items with the second of their last write, reads that
--     renew it, and the sweep of the old ones.
--   Store/Files (pkg/store/backends/fs): a file for each key, over a file system that is a record of
--     operations; Store/Files/Memfs the one in memory (fake.go).
--   Store/Kafka (pkg/store/middleware/kafka/kafka.go): a message for each change of a store.
--   Store/Labels (pkg/store/backends/labels): the labels of values, label selectors, and the store that
--     writes and filters labels (Store/Labels/Labeller). Kubernetes' selectors are a record.
--   Store/Http (pkg/store/backends/http): the handlers of a server over a store, and in
--     Store/Http/Client the store whose methods are requests to such a server. What gin, net/url and
--     encoding/json do is a record of operations.
--   Store/Replicate (pkg/store/backends/replicate/replicate.go): one store over several.
--   Store/ClaimLock (pkg/store/utilities/claimlock): claims of the locks whose owner is gone.
-- Http (pkg/http/http.go, pkg/http/response, pkg/config/option.go): requests with their options, and what
--   a response says.
--   Http/Retrier (pkg/http/tripperware/retry.go): requests that are made again.
--   Http/Rate (pkg/http/tripperware/rate.go): requests behind a limiter for each host.
-- Graceful (pkg/graceful/graceful.go): RunT as a machine with its timer, and Graceful/All the
--   goroutines of RunAllBackground and the channel of their errors.
-- Store/ConfigMaps (pkg/store/backends/configmap/configmap.go): the store with a Kubernetes ConfigMap
--   for each key, over the operations of the client and the lister.
-- Fsnotify (pkg/fsnotify/watcher.go): the comparison of the hashes of files at a tick.
-- Reloader (pkg/reloader/reloader.go): the Deployment that is reloaded, and the checks of its
--   configuration.
-- Health (pkg/task/job/job.go, pkg/healthcheck): jobs, their results in a cache, and the endpoints.
-- KafkaStatus (pkg/kafka/stats): the status of brokers and of consuming.
-- Workflow (pkg/task/workflow, pkg/task/runnable): chains of activities, each with retries.
-- DefaultMap (pkg/defaultmap/defaultmap.go): a Go map with a collision function.
-- Slices (pkg/slices/slices.go): sets, counting, uniqueness and removal on slices;
--   Slices/ThreadSafe (pkg/slices/threadsafe.go): the methods of a slice behind a lock, as steps.
-- Retry (pkg/retry/retry.go): ExponentialBackoffWithContext and OnError.
-- Access (pkg/access): MatchScope, NewSubjectAccessReview, the trust in a context; Access/Node the
--   tree of granted labels (pkg/access/node.go), Access/Basic the basic scope
--   (pkg/access/scope/basic/basic.go).
--
-- Authorization (pkg/middleware/authorization): middleware in front of a handler;
--   Authorization/Certificates (certificate, and pkg/tlsutils/certificate.go), Authorization/Npa (npa),
--   Authorization/Parsers (pkg/access/scope) the parsers of scopes and the defaults of configurations.
--
-- Loops over slices, maps and trees are structural recursions. The loop of Retry takes fuel, as a
-- backoff may run forever; one that does not ends within one round more than it has steps. The numbers
-- of the modelled code are counts, Unix seconds and durations, all far from the bounds of int64, and
-- are not cut off; the seconds of a duration are computed without the rounding of float64.
--
-- Not modelled: the array that the option slices of a caller and of a callee share, outside of
-- Store/ConfigMaps, contexts beyond the trust they carry and what Retry, Workflow, Http/Retrier
-- and Graceful ask them, mutexes and goroutines outside of Graceful (a method is one step), log
-- output and metrics, JSON, circuit breakers, and the packages that only connect to Kubernetes,
-- S3, Kafka or the file system. Messages of errors are left out where nothing compares them.
pub mod Access
pub mod Authorization
pub mod DefaultMap
pub mod Errors
pub mod Exec
pub mod Fsnotify
pub mod GoMap
pub mod Graceful
pub mod Health
pub mod Http
pub mod KafkaStatus
pub mod Prelude
pub mod Reloader
pub mod Retry
pub mod Slices
pub mod Store
pub mod Workflow
