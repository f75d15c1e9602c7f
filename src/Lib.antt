-- ===== src/Lib.antt =====
-- The platform runs contestants' trading engines and scores them. A contestant uploads a submission
-- (services/submission-engine), which is built (services/build-pipeline) and deployed in a sandbox
-- (services/sandbox-controller). A fleet of bots trades against it (services/bot-fleet-manager), their
-- telemetry becomes latencies and rates (services/telemetry-ingester), and a leaderboard shows the
-- scores (services/leaderboard-service). services/control-plane-api keeps the benchmark runs, whose
-- statuses (libs/shared-go/types) the other services set as a run goes on.
--
-- Which file models which part:
--   Status, Benchmark: libs/shared-go/types/status.go and
--     services/control-plane-api/internal/benchmark/service.go. CreateRun, GetRun, TransitionState and
--     CancelRun are create_run, get_run, transition_state and cancel_run on the two tables; any call of
--     the database may fail. Benchmark.Race takes CreateRun apart into its check and its transaction.
--   UploadLimit: services/submission-engine/internal/ratelimit/limiter.go. Allow is allow, over a
--     sorted set of Redis that is a parameter with the documented laws of its commands. Its scores are
--     doubles, which round the times by up to 512 nanoseconds.
--   Registry: services/submission-engine/internal/registry/client.go. PushArtifact and PushOCIImage of
--     the file system are fs_push_artifact and fs_push_image; of the HTTP client the answers are
--     classified. What an upload needs of a registry is an interface, which the file system fills.
--   Upload: services/submission-engine/internal/handler/upload.go and middleware/auth.go. Auth and
--     Upload are authenticate and upload, over the limiter, the validator and the registry.
--   Artifact: services/submission-engine/internal/validator/artifact.go. ValidateArtifact is
--     validate_artifact; SHA-256 and the readers of archives are parameters.
--   Build: services/build-pipeline/internal/executor. Execute is execute, over the answers of the build
--     command, the publisher and the stores; TruncateMiddle is truncate_middle. The publisher's own
--     updates of the status are part of its answer.
--   Sandbox: services/sandbox-controller/internal/controller/reconciler.go and endpoint/prober.go.
--     Reconcile is reconcile; what Kubernetes, Redis and the network answer to a call is a World, and
--     what the call does to them is a list of effects. A dial takes its time, out of the 15 seconds
--     that all dials of a call share.
--   Health: services/sandbox-controller/internal/controller/healthcheck.go. Run is run, over the
--     answers of its probes.
--   Scheduler: services/bot-fleet-manager/internal/scheduler/scheduler.go. Schedule is schedule;
--     sort.Slice is a parameter, any rearrangement that sorts (Prelude.Sorting).
--   Heartbeat: services/bot-fleet-manager/internal/heartbeat/monitor.go. RecordHeartbeat and
--     checkHeartbeats are record_heartbeat and check_heartbeats.
--   Fleet: services/bot-fleet-manager/internal/store/fleet.go and provisioner/provisioner.go.
--     ProvisionFleet is provision_fleet and ReleaseFleet release_fleet, over the pods in the cluster.
--   Shutdown: provisioner/shutdown.go beside it. ShutdownFleet is shutdown_fleet.
--   FleetServer: services/bot-fleet-manager/internal/grpc/server.go. The RPC ProvisionFleet is
--     provision, which calls the scheduler and the provisioner; StopFleet and GetFleetStatus are
--     stop_fleet and get_fleet_status.
--   Fix, RateLimit: services/bot-fleet-manager/internal/bot. LimitOrder, MarketOrder and CancelReplace
--     of fix/generator.go are generate, verifyChecksum is verify_checksum; Wait, ReduceRate and
--     rateToInterval of ratelimit/limiter.go are wait, reduce_rate and rate_to_interval.
--   Latency, Tps: services/telemetry-ingester/internal/metrics. The windows of latencies and of counts.
--   Hub: services/leaderboard-service/internal/hub/hub.go. One turn of the loop of Run is step.
--   Board: services/leaderboard-service/internal/leaderboard/store.go, and of handler/leaderboard.go and
--     grpc/server.go the pages. UpdateStanding, GetStanding and PublishScoreWithBackoff are
--     update_standing, get_standing and publish_score_with_backoff; fetchFromRedis is fetch_from_redis.
--   Events: services/telemetry-ingester/internal/kafka/consumer.go. One turn of Run is turn.
--   Fills: services/telemetry-ingester/internal/validator/fill_validator.go.
--   Overlay: services/sandbox-controller/internal/network/overlay.go. CreateOverlay and DeleteOverlay are
--     create_overlay and delete_overlay, over what the cluster holds.
--   SandboxServer: services/sandbox-controller/internal/grpc/server.go over endpoint/registry.go. What
--     the reconciler of Sandbox writes to Redis is what get_sandbox_endpoints (GetSandboxEndpoints) reads.
--   Stream: services/leaderboard-service/internal/grpc/server.go. GetLeaderboard is get_leaderboard,
--     StreamLeaderboard stream_leaderboard, over the sorted set of Board.
--   Contestants: services/control-plane-api/internal/contestant/service.go. RegisterContestant,
--     IssueTokenWithID and RevokeToken are register_contestant, issue_token_with_id and revoke_token;
--     the tokens are read by authenticate of Upload.
--   BuildQueue: services/build-pipeline/internal/watcher/watcher.go with spawner/job_spawner.go. A poll
--     is tick_of and then turn_of for each submission; SpawnBuildJob is spawn_build_job, and the
--     manifest of a job build_job_spec. ApplyNetworkPolicy of spawner/network_policy.go is
--     apply_network_policy.
--   Deps: services/build-pipeline/internal/deps/enumerator.go. EnumerateDeps is enumerate_deps.
--   Publish, JobWatch: services/build-pipeline/internal/publisher/image.go and spawner/job_watcher.go.
--     Publish is publish, WatchBuildJob watch_build_job.
--   Image: services/build-pipeline/internal/image/builder.go. BuildMinimalImage and WriteManifest are
--     build_minimal_image and write_manifest.
--   Lifetime, PodWatch: services/sandbox-controller/internal/controller/lifetime.go, crashhandler.go and
--     watcher.go. EnforceLifetime, HandleCrash and WatchPod are enforce_lifetime, handle_crash and
--     watch_pod.
--   Rest: services/bot-fleet-manager/internal/bot/rest/generator.go. PlaceOrder and CancelOrder are
--     place_order and cancel_order.
--   Score: services/leaderboard-service/internal/scoring/scorer.go. ComputeCompositeScoreForRun is
--     compute_composite_score_for_run.
--   Queries: services/control-plane-api/internal/submission/service.go and middleware/auth.go, and
--     services/submission-engine/internal/handler/status.go. GetSubmissionStatus, StreamBuildLog and
--     Status are get_submission_status, stream_build_log and status_handler; the interceptors are
--     intercept.
--   Strings: what these take from Go's package strings.
--   Prelude: what the others share. Tests: concrete inputs.
--
-- Concurrency: a mutex, a transaction, a script of Redis or the loop of one goroutine makes a call one
-- step, and a history is the sequence of these steps, in any order. Where the source does more than
-- one step without a lock, the steps are separate (Benchmark.Race).
--
-- Numbers: times are whole nanoseconds, counts are natural numbers that do not wrap, but for the status
-- of a fleet and the sequence numbers of the bots. The scheduler's weights and the parts of a score are
-- whole numbers of a common unit, and the scores of the leaderboard in Redis are exact; the rounding of
-- floats is left out there. The rate of a bot is an exact fraction, and its interval the quotient
-- rounded down, which the double gives as long as it stays below 2^53 / rate and to one part in 2^53
-- above; halving a double is exact, down to the least ones, which it takes some thousand halvings to reach. An
-- interval that does not fit in a duration is the least duration, as the conversion gives it on amd64.
-- Two loops run on fuel: the rounds of the scheduler, one more than there are bots, since every round
-- but the last places a bot; and the decimal digits of a number, one more than the number.
--
-- Not modelled: logging, configuration, the text of the messages, the HTTP and gRPC layers below the
-- handlers named above, generated code, the manifests of the pods of sandboxes, which are constants
-- for Kubernetes, and the stores that only pass rows on.
pub mod Artifact
pub mod Benchmark
pub mod Board
pub mod Build
pub mod BuildQueue
pub mod Contestants
pub mod Deps
pub mod Events
pub mod Fills
pub mod Fix
pub mod Fleet
pub mod FleetServer
pub mod Health
pub mod Heartbeat
pub mod Hub
pub mod Image
pub mod JobWatch
pub mod Latency
pub mod Lifetime
pub mod Overlay
pub mod PodWatch
pub mod Prelude
pub mod Publish
pub mod Queries
pub mod RateLimit
pub mod Registry
pub mod Rest
pub mod Sandbox
pub mod SandboxServer
pub mod Scheduler
pub mod Score
pub mod Shutdown
pub mod Status
pub mod Stream
pub mod Strings
pub mod Tests
pub mod Tps
pub mod Upload
pub mod UploadLimit
