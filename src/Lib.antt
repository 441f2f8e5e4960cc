-- ===== src/Lib.antt =====
-- The job system of the Zolexai API: users submit generations, workers on other machines pull and
-- report them, browsers follow them.
--
-- The API is stateless between requests. PostgreSQL holds the jobs, their events, inputs and outputs,
-- the assets and the worker nodes; Redis carries the live events, the doorbell that wakes workers,
-- the request counters and the idempotency keys. Every operation reads and writes rows in one
-- transaction and then talks to Redis, which may be away. Here a transaction is a function from the
-- world (`Service.World`: the tables and Redis) to an answer and the next world; what raises returns
-- the world that it was given. Row locks make a transaction one step, so concurrency is a sequence of
-- steps in the order of the commits (`Protocol.Runs.Step`), with any clock, worker and token at each.
-- A creation is one step too, although the code counts a user's running jobs without a lock: two
-- creations that overlap in time are outside the model.
--
-- Files, from the code below apps/api/app where no other path is given:
--   Job            core/enums.py, models/generation.py, models/asset.py, schemas/generation.py
--   Job/Status     what can_transition allows
--   Database       repositories/generation.py: queries as functions on lists of rows
--   Database/Rows, Log, Validity   lookups after writes, sequence numbers, valid rows
--   Workers        models/worker.py, repositories/worker.py
--   Workflow       schemas/workflow.py;  Workflow/Coherence: its consistency check
--   Registry       services/workflow_registry.py;  Registry/Validation, Registry/Loading
--   Queue          services/queue.py: a list whose head is its newest entry
--   Limits         services/rate_limit.py: a counter with its expiry
--   Storage        services/storage.py, repositories/asset.py, api/v1/assets.py
--   Service        services/generation.py: reports and cancellation; Service/Messages,
--                  Service/Creation (create), Service/Invariant, Service/Leases, Service/Finality
--   Protocol       api/v1/internal.py: register, heartbeat, claim, reap; Protocol/Claims, Handover,
--                  Recovery, Runs, Histories
--   Idempotency    services/idempotency.py
--   Stream         services/events.py: one connection of a browser
--   Generations    api/v1/generations.py: submission, cancellation, stream
--   History        list_for_user of repositories/generation.py, schemas/common.py
--   Reporter       apps/worker/worker/longform/progress.py: what a worker's stages report
--   Client         apps/worker/worker/core/client.py: the worker's requests
--   Runner         apps/worker/worker/jobs/runner.py: a claimed job; Runner/Settling, Runner/Leases,
--                  Runner/Endings
--   Poller         apps/worker/worker/main.py: the worker's process; Poller/Slots, Poller/Stopping
--   Deployment     a worker's run against the API's transactions; Deployment/Held, Deployment/Outcomes
--   Segments       media/segments.py, longform/timing.py and plan_chain_segments of longform/chain.py,
--                  below apps/worker/worker; Segments/Counts, Even, Boundaries, Musical
--   Lyrics         apps/worker/worker/music/lyrics.py and _render of music/writer.py; Lyrics/Lines,
--                  Stripping, Parsing, Reading, Choruses, Polishing
--   Review         apps/worker/worker/music/lyrics.py: plans and measures of a draft; Review/Rhyme
--   Drafts         the same file: review_lyrics and write_lyrics; Drafts/Faults, Drafts/Rounds
--   Writers        apps/worker/worker/music/fallback.py: which lyric writer is used
--   Timeline       apps/worker/worker/director/plan.py: departures of a scene; Timeline/Presence
--   Planner        the same file: the reading of a planner's timeline; Planner/Sorting, Planner/Accepted
--   Speech         the same file: the lines that a scene's length holds; Speech/Trimming,
--                  Speech/Slack
--   Text           the string methods of Python that these call
--   Prelude        Boolean tests, lists measured by native numbers
--   Examples       concrete worlds, and each result applied to one
--
-- Conventions. Ids, lease tokens and times (in seconds) are natural numbers; a fresh id or token is an
-- argument of the operation that draws it. Texts are ASCII where letters, digits and blanks matter.
-- A query's order is the order of the table where the code sorts by time or number only. The rows
-- that another open transaction holds (SKIP LOCKED) are a predicate of the claim. A unique index is a
-- test before the insert. The order in which the database yields the rows of a query that asks for
-- none is an argument (`Env.row_order`). What YAML and pydantic make of a file, and what object
-- storage holds under a key, are arguments. A stream is a function of the messages that its
-- subscription yields. A walk through pages is given fuel, and one more than the length of the
-- history is enough; so is the rounding of a float, and its number of words is enough (Speech/Slack);
-- all other recursion is on the list, text or number at hand.
--
-- A worker's run is a function of what the API answers and the storage does after each sequence of
-- calls, and of its adapter, a tree of reports, looks at the cancellation flag and intervals of the
-- keepalive; a renewal that is cut short when the adapter ends is left out. The worker's process is a
-- step relation whose phases are the points where its claim loop awaits. Lengths of media are whole
-- ticks, and a lyric sheet is the list of its lines; the rates of a review are pairs of counts. The
-- times of a directed scene are microseconds, the tolerance of the code's comparisons being one.
--
-- Not modelled: the web frontend, media files and model adapters, prompts, configuration, logging, HTTP errors and sessions, presigned URLs and the public shape of a job.
pub mod Prelude
pub mod Job
pub mod Database
pub mod Text
pub mod Workflow
pub mod Workers
pub mod Protocol
pub mod Service
pub mod Storage
pub mod Queue
pub mod Limits
pub mod Registry
pub mod Stream
pub mod Idempotency
pub mod Generations
pub mod History
pub mod Reporter
pub mod Runner
pub mod Poller
pub mod Deployment
pub mod Segments
pub mod Timeline
pub mod Speech
pub mod Planner
pub mod Lyrics
pub mod Writers
pub mod Review
pub mod Drafts
pub mod Client
pub mod Examples
