-- ===== src/Lib.antt =====
-- Omnitrack: a video analytics backend in Python. One capture thread per stream submits frames to
-- a scheduler of worker threads; a worker runs the stream's processor, which takes a detector from
-- a pool of shared models and image buffers from a pool of frames, and appends the events of the
-- frame to a buffer per stream; streams with the same detector may share its passes in batches. A
-- stream belongs to the replica that holds its lease. The engine of a stream turns its tracks into
-- events: appearances, stationary tracks, zones and lines. Alert rules turn events into alert instances
-- with an audited life, the aggregator counts them, and a recorder keeps clips of them. Users log in
-- with passwords, signed tokens or API keys, and the authentication endpoints stand behind a rate
-- limiter.
--
-- The files and the code they model (paths from the repository's root):
--   Scheduler.antt      backend/scheduler.py, InferenceScheduler and _StreamChannel. A state is a
--                       record; every critical section under the condition variable is one
--                       function, and Scheduler/Steps.antt has the interleavings of the threads as
--                       a step relation. A blocked submit is an attempt that may be made again.
--   ModelManager.antt   backend/model_manager.py, ModelManager. The OrderedDict is a list, the
--                       least recently used entry first; detectors are fresh numbers. Whether the factory
--                       returns or raises is an argument.
--   FramePool.antt      inference/frame_pool.py, FramePool. A buffer is the number of its
--                       allocation, a (shape, dtype) key a number.
--   EventBuffer.antt    backend/event_store.py, EventBuffer and EventStore. The deque with maxlen
--                       is a list, oldest first, of which appending keeps the last ones.
--   Alerts/Lifecycle    backend/alerts/manager.py, AlertManager: the two tables as lists of rows, and
--                       a flag for every commit that says whether the database accepts it.
--   Batching.antt       backend/batching.py, BatchCoordinator. The fused pass of the detector is a
--                       function that may raise, and the end of a wait is a flag.
--   Tracker.antt        inference/tracker.py, CentroidTracker, and inference/tracking_types.py. The
--                       distance of two centroids is an argument; floats are not modelled.
--   Appearance.antt     inference/events/engine.py, EventEngine with the AppearanceDetector of
--                       inference/events/detectors.py.
--   Stationary.antt     inference/events/detectors.py, StationaryDetector, on the tracks of Tracker.antt.
--                       The distances from a mean, which are floats, are an argument.
--   Zones.antt          inference/events/geometry_detectors.py, ZoneDetector, and Zones/Lines
--                       LineCrossingDetector, with the regions of inference/events/regions.py. Whether a
--                       polygon contains a point and how a movement crosses a line, which are
--                       computations on floats, are functions of the region.
--   Alerts/Rules        backend/alerts/rules.py, the conditions and the logic of rules.
--   Alerts/Store        backend/alerts/state.py, AlertStateStore. The answer of the shared cache is an
--                       argument.
--   Alerts/Engine       backend/alerts/engine.py, the evaluation of an event, which calls Alerts/Rules,
--                       Alerts/Store and `trigger` of Alerts/Lifecycle.
--   Alerts/RuleCache    backend/alerts/engine.py, the cached rules and the queue.
--   Alerts/Notifications  backend/alerts/notifications.py, NotificationDispatcher. What a provider
--                       answers to each attempt is an argument.
--   Ownership.antt      backend/ownership/__init__.py, StreamLease, LeaderLease and LeaseManager.
--                       Redis is a record of commands with the laws that they document. Each
--                       call has the time at which Redis runs its command, the time of the reply,
--                       and whether it is answered, not run, or run without an answer.
--   Auth/Tokens         backend/auth/security.py, the signed tokens. JSON, Base64 and HMAC are a
--                       record of functions with their laws; texts are lists of codes.
--   Auth/Sessions       backend/auth/services.py, AuthService, with get_current_user of
--                       backend/auth/dependencies.py. The tables are lists of rows; random
--                       identifiers are arguments, and commits succeed.
--   Auth/Accounts       backend/auth/services.py, users and API keys, with role_satisfies of
--                       backend/auth/security.py and get_api_key_user of backend/auth/dependencies.py.
--   Events.antt         inference/events/event_types.py, the events and their records.
--   Analytics.antt      backend/analytics/aggregator.py, the counters of a stream; Analytics/Flush
--                       has their rows, with what the database does with a commit as an argument, and the
--                       records that come while a flush goes on, for which the code holds no lock;
--                       Analytics/Registry has the windows of all streams.
--   Recording.antt      backend/recording/manager.py, StreamRecorder. The tasks on the executor are the
--                       clips that they are given.
--   RateLimit.antt      backend/auth/rate_limit.py, RateLimiter. The dictionary is an association
--                       list.
--   Prelude             tests on numbers, lists and association lists.
-- A method that holds a lock is one step. Clocks are numbers that are passed in; the strings that
-- the code only compares are numbers.
--
-- Bounds and fuel: `evict_rounds` takes fuel, one round for each entry, and each round removes one.
-- `rounds` of a dispatch takes `max_retries + 1`, since a later round is a last one. The rounds of the
-- batch thread that ends are as many as requests are queued. Everything else is structural recursion. Numbers are unbounded, as Python's integers are.
--
-- Not modelled: the HTTP routers and settings, which are glue; the neural network providers, OpenCV and
-- numpy, whose results the code passes through; Redis, RabbitMQ and SQLAlchemy, which are other
-- programs; metrics and logging, which no result depends on; the frontend; and the inference service,
-- the supervisor, the registries of batch coordinators and of recorders, and near collisions.
pub mod Alerts
pub mod Analytics
pub mod Appearance
pub mod Auth
pub mod Batching
pub mod EventBuffer
pub mod Events
pub mod FramePool
pub mod ModelManager
pub mod Ownership
pub mod Prelude
pub mod RateLimit
pub mod Recording
pub mod Scheduler
pub mod Stationary
pub mod Tracker
pub mod Zones
