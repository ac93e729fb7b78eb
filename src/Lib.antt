-- ===== src/Lib.antt =====
-- The cloudberry-k8s operator: what its Go code does, as definitions, and what holds of them.
--
-- The operator reconciles CloudberryCluster objects. A reconcile reads the cluster and its
-- StatefulSets, performs one step of the operation in progress, writes the phase that it has
-- reached into an annotation and asks to be called again. Beside it runs a daemon that terminates
-- idle sessions and a REST server with a rate limiter. Webhooks default and validate each cluster
-- before it is stored, the HA controller probes the segments and fails over, and the admin
-- controller restarts the StatefulSets one after the other when a parameter wants it, and reads what
-- backup and restore Jobs leave behind. All use small helpers: status
-- conditions, retries and cron schedules.
--
-- Base: native numbers with Boolean tests, lists, conditionals and case splits; Base.Int: the
--   integers of the code where they may be negative; Base.Float: what the code relies on of
--   float64, with the IEEE 754 facts used as named laws; Base.Text: what the code uses of Go's
--   strings, on lists of codes, where letters change case in ASCII alone; Base.Duration:
--   time.ParseDuration, where a fraction is rounded down exactly and Go multiplies a float64.
--
-- Util.Conditions: internal/util/conditions.go (SetCondition, FindCondition, IsConditionTrue,
--   IsConditionFalse, RemoveCondition) on the list of conditions of a status; time.Now is an
--   argument. Refinement has runs of its calls, and the map by type that they stand for.
-- Util.Retry: internal/util/retry.go (RetryWithBackoff, calculateBackoff). The retried function
--   transforms a state; the context, the race of its timer and math/rand are an environment that
--   answers for each attempt. Attempts is about its calls, Backoff about its waits.
--
-- Idle: internal/idle/daemon.go. Rules is ParseIdleRules and isSessionIdle; Scan is scanAndEnforce
--   with the database client as a parameter; Lifecycle is Start, Stop and scanLoop, where each
--   region under the mutex is one step of a relation on a system of any number of callers, with
--   its invariants in Invariant, Safety and Held;
--   Reconnect is runScanCycle with attemptReconnect and healthCheck, on top of Util.Retry.
--
-- Controller: internal/controller/cluster_controller.go. Types is the data of the API server, Sts
--   the helpers on StatefulSets (scaleStatefulSet, isStatefulSetAtScale, isStatefulSetReady).
--   ScaleIn is handleScaleIn and checkScaleInPhases with each processScaleIn function; Upgrade is
--   handleUpgrade, continueUpgrade with the phases, verifyUpgrade, completeUpgrade and
--   rollbackUpgrade. ScaleOut is the expanding phase: processScaleOutExpanding, startGpexpandJob,
--   handleGpexpandJobFailure, recoverWedgedCoordinator and failScaleOutRedistribution on the one
--   Job of the cluster. Which calls to the API server and the database fail is an argument of each
--   reconcile. A world is what the API server stores: a status that the code changed in memory and
--   failed to write is not in it. Times are in seconds. Texts of conditions are given without the
--   numbers that the code prints into them. Scale-in keeps a history of the calls that succeeded,
--   which the operator itself does not keep. The best-effort removal of the gpexpand schema after
--   a Job is left out, and so are progress gauges.
--
-- Api: api/v1alpha1/types.go, the records that the webhooks read, with optional pointers as Option.
--   Backup, DataLoading and Cluster follow the spec's parts.
-- PxfPolicy: internal/pxfpolicy/policy.go, the profiles there are and those that can be written.
-- Webhook: internal/webhook. Defaults is mutating.go, with Fields, Backup and DataLoading for
--   the parts of a spec. Validation is validating.go: Errors has the rules, and an error is the
--   rule that was broken with the indices of its elements, without the values that the code quotes;
--   Cluster, Backup, Pxf, Gpload, Jobs and Mirroring are the parts of a spec. An int32 is an ℤ
--   that wraps around in Mirroring. Schedules are read by Cron. Stability puts both webhooks
--   together.
--
-- Ha: internal/controller/ha_controller.go. Types is a world, what the API server and the database
--   hold beside the copy of the status in memory, and the answers of the calls that can fail. Probe
--   is runFTSProbe with probeSegmentConfigWithRetries, analyzeSegments, handleFailover and
--   updateFTSProbeStatus; Actions is handleRecovery, handleRebalance, handleStandbyActivation and
--   the reconcile around them. A status patch sends the whole status, in which an empty list does
--   not occur. An annotation is removed by a patch and a fetch of the cluster, each of which can
--   fail. What executeRebalanceViaDB answers is an argument.
--
-- Restart: internal/controller/admin_controller.go, the rolling restart (triggerRollingRestart,
--   continueRollingRestart and what it calls). A world is what the API server stores, with the
--   restarts that were done; a round is how the calls of one reconcile answer. Completion is about
--   rounds that succeed, Order about all.
--
-- JobMarkers: internal/controller/restore_partial.go and backup_timestamp.go. A Job is what the API
--   server stores of it beside the copy in memory, which is changed before the patch is tried. Each
--   round has its own pods, answers and counts of the Job controller. Token is about texts, Once
--   about rounds.
--
-- Cron: internal/cron/cron.go. Bytes is what it uses of Go's strings and strconv, on lists of
--   bytes; Parse is parseField and what it calls, with ints as numbers below 2 ^ 64; Schedule is
--   Parse, matches, dayMatches, Next and NextAfter, with the calendar of the time's location as a
--   parameter.
--
-- RateLimit: internal/api/ratelimit.go (NewRateLimiter's settings, Allow, cleanup). float64 is an
--   interface whose laws say what the limiter relies on; the map of entries is a function of the
--   client. Burst, Isolation and Cleanup are about what a client and its neighbours see. Twice the
--   interval is an int64, which is negative from 2 ^ 63 on.
--
-- Auth: internal/auth/types.go and internal/auth/middleware.go (resolveProvider, Handler,
--   GuestHandler, RequirePermission); what a provider says of a request is a parameter, and the
--   challenge header is left out. Access is about both middlewares around a handler.
--
-- Bounds and fuel: Next searches max_search_minutes = 366 * 24 * 60 minutes, the bound of the
-- code. The loop of parsePart has fuel 128; a field has fewer than 60 values, so this suffices as
-- long as v + step does not overflow. The recursion of RetryWithBackoff is on the attempts that
-- are left.
--
-- Not modelled: the rest of the cluster reconciler (creation, the other phases of scale-out,
-- mirroring, storage), the skew analysis and the dispatch of executeRebalanceViaDB, the rest of the
-- admin and restore controllers, the rest of the REST API, builders of Kubernetes objects, the
-- database client's SQL, metrics, telemetry, Vault and certificate handling, the command line tools
-- and the query exporter. Log lines, events, spans and metrics are left out of what is modelled,
-- except the counters that Idle.Scan and Idle.Reconnect keep, the events of Ha and JobMarkers, and the
-- counters and gauges of Ha without the one of the replication lag. The difference of two times is
-- not saturated at the ends of int64.
mod Base
pub mod Api
pub mod Util
pub mod Idle
pub mod Controller
pub mod Auth
pub mod Cron
pub mod RateLimit
pub mod PxfPolicy
pub mod Webhook
pub mod Ha
pub mod JobMarkers
pub mod Restart
mod Tests
