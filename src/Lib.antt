-- ===== src/Lib.antt =====
-- AshML: the rules and the services by which the control plane of a training platform takes
-- jobs, places them on nodes, retries them, keeps a registry of models and routes inference
-- traffic.
--
-- The program and its parts. packages/server/src/domain holds the rules, which compute without
-- a database; packages/server/src/repos holds the queries; packages/server/src/services runs
-- each call as one transaction that reads rows, asks a rule, and writes what the rule decided
-- with an event beside it; packages/router is a separate process that polls the split of a
-- deployment and sends each request to a version. A job is submitted and queued, claimed,
-- scheduled (first the quota of its project, then a node), launched, observed until it ends,
-- and, where it failed, ruled on: it ends there or is queued for another attempt.
--
-- Which file models what.
-- - Base and its children: Boolean tests on the native numbers, lists, signed integers,
--   sorting, doubles.
-- - Domain/JobState: packages/server/src/domain/job-state.js; JobState/Graph: its diagram as a
--   relation.
-- - Domain/Quota: domain/quota.js. Domain/Retry: domain/retry-policy.js. Domain/Roles:
--   domain/roles.js. Domain/ArtifactStatus and Domain/ModelStatus: the files of these names.
-- - Domain/Routing (Hash, Weights, Choice, Rollout): domain/routing.js.
-- - Domain/Placement (Capacity, Evaluate, Place): domain/placement.js; Fit, Best and Audit say
--   what a placement is.
-- - Services/Tables, Services/Store and Store/Order: the rows and queries of
--   packages/server/src/repos/jobs.js. A query is an action on the tables (M), and an action
--   that throws leaves them as they were (committed).
-- - Services/Jobs: packages/server/src/services/jobs.js, one function per call, named after it
--   (applyTransition is apply_transition), and Services/Retries for its considerRetry;
--   Observation is what a Kubernetes backend reports.
-- - Services/Cluster: clusterView, projectUsage and projectQuota of repos/nodes.js.
--   Services/Decisions: repos/scheduling.js. Services/Scheduler:
--   packages/server/src/services/scheduler.js.
-- - Services/Models: packages/server/src/services/models.js with its queries of
--   repos/models.js.
-- - Services/Deployments: packages/server/src/services/deployments.js. Rows: the rows and
--   queries of repos/deployments.js. Status: the judging of pods and deployments. Front: what
--   the front Service should select. Cluster: the objects of k8s/manifest.js and the calls of
--   k8s/kubernetes.js, as a map from names to objects. Apply: applyDesiredState, the router and
--   reap. Traffic: deployModel, rollout, promote, retire and undeploy. Sync: syncDeployments.
--   History: any sequence of the calls. The other children hold what each call keeps.
-- - Cli/Bytes and Cli/Png: packages/cli/src/png.js (Chunks: the loop over the chunks; Filter:
--   unfilter and paeth; Pixels: toRgb; Decode: decodePng and toInstance; Crop: centreCrop).
--   Chunks/Written, Chunks/Layout and Filter/Encode say how a file is written, Pixels/Painted
--   what colour a pixel has, by the PNG specification.
-- - Router: packages/router/src/routing-table.js.
-- - Tests: each theorem at a concrete input.
--
-- How the model stands to the code. A whole number is a native number; where the source
-- subtracts below zero, the result is a signed integer (ℤ). Quotas, capacities and weights are
-- whole numbers in the database, and a 32-bit hash keeps its wrap-around written out. The
-- shares and points of routing.js are doubles, rounded as IEEE rounds them (Base/Double: a
-- double that is not negative is a whole number of units of 2 ^ -1074). Texts that the code
-- compares (failure reasons, keys, pending reasons) are lists of character codes; reasons that
-- it only shows are kept as the data that they show, and where such a text is stored or
-- compared again (the scheduler's reasons) its rendering is a parameter. localeCompare, the
-- clock, random numbers, the ids of inserted rows and the answers of HTTP requests are
-- arguments. The loop over the chunks of a PNG file takes fuel, one more than the file has
-- bytes, which is enough since each turn reads at least twelve; every other loop of the source
-- is over a list or counts down. zlib's inflate is a parameter.
--
-- The calls of the cluster that a deployment makes are numbered; which of them throw is an
-- argument, and so is whether one that throws has taken effect all the same, its answer being
-- lost. The rows that are written between such calls are kept, as no transaction spans them.
-- Rows are written without failure, there is one namespace, and a version's number stands for
-- its id.
--
-- A transaction is one step: the services take the lock of the row that they change, or the
-- scheduler's advisory lock, before they read it. A history of calls (Services/Jobs/History) is
-- any sequence of them, of any callers, with refused calls among them.
--
-- What is not modelled: HTTP routes, the executor's loop and the Kubernetes backends beyond the
-- calls named above, artifacts and object storage, authentication, metrics, datasets,
-- experiments and projects, the command line but for its PNG decoder (and of that resizeTo and
-- imageToInstance, which are floating point and file access), and the SDK. Of deployments: the
-- token and its hash, the fields that the manifests copy, calls of the service that interleave
-- between their steps, and undeploy in a history of calls. Messages, event details and log
-- lines are left out of the calls that are modelled, and so are the listings that only read.
pub mod Base
pub mod Cli
pub mod Domain
pub mod Services
pub mod Router
mod Tests
