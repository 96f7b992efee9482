-- ===== src/Lib.antt =====
-- Kenjutsu, a service that reviews pull requests: it receives webhooks from GitHub, debounces and
-- queues them, runs a review workflow over the diff, and publishes findings as comments.
--
-- The parts and their files here (paths are those of the repository):
--   Finding     kenjutsu/models/findings.py: the taxonomy and the fingerprint of a finding
--   Review      kenjutsu/models/reviews.py and kenjutsu/pipeline/supersession.py: which review of a
--               pull request is live
--   Workflow    kenjutsu/pipeline/steps.py, types.py and logic.py: the review workflow, its status
--               updates and the two guards
--   Guard       kenjutsu/pipeline/sha_guard.py: the check of the head SHA, its cache and retries
--   Publisher   kenjutsu/pipeline/publisher.py, with the rows of kenjutsu/db/models.py: publishing to
--               GitHub, repeated after a failure
--   Pending     kenjutsu/publisher/pending_review.py: publishing all findings as one review
--   Mirror      kenjutsu/mirror/lifecycle.py and api.py: bare mirrors of repositories
--   Audit       kenjutsu/publisher/audit.py: the log of completed reviews
--   Config      kenjutsu/config/models.py and loader.py: the configuration of a repository
--   Database    kenjutsu/database.py, with its like in kenjutsu/server/webhook.py and
--               kenjutsu/migrations/env.py: the URL, the engine and the session factory
--   Evaluation  kenjutsu/evaluation/runner.py: matching findings against a corpus, metrics, comparison,
--               and the JSON and markdown of the reports
--   Queue       kenjutsu/pipeline/queue.py: rate limiter, global and tenant queue, registry,
--               cost tracker
--   Debounce    kenjutsu/server/debounce.py: the timers and tasks of reviews to come
--   Webhook     kenjutsu/server/webhook.py: the receiver, its tables, and the routing of events to Debounce
--   Diff        kenjutsu/diff/models.py and parser.py: the parser of unified diffs
--   Ast         kenjutsu/diff/ast_context.py: the scope around a hunk, in a syntax tree
--   Command     kenjutsu/server/commands.py: the commands that a comment may hold
--   Base, Dict, Effect   shared: numbers, texts and lists; Python's dict; code that may raise
-- The workflow calls the guard and the publisher through the record `Logic` of Workflow, as the source
-- patches module-level names. Webhook calls schedule of Debounce in a background task, and what fires
-- there starts a review; Ast fills in the hunks that Diff parses. The modules are otherwise
-- independent, as the source's are.
--
-- What is not the program's is a parameter: the HTTP client and the clock of the guard (`Client`),
-- GitHub (`Server`), the hash and the case mapping of texts, the splitting of names, the HMAC and the
-- JSON decoder of the receiver (`Builtins`), tree-sitter and the string methods (`Tools`),
-- git and the file system (`System`), the YAML reader and pydantic (`Reader`), and for the reports the
-- disk and its clock (`Disk`), the f-strings (`Display`), `round` (`Rounding`) and `json.dumps`,
-- and SQLAlchemy (`SqlAlchemy`). Times are natural numbers of milliseconds, costs natural numbers of a
-- smallest unit. A float that is one quotient is kept as that fraction, and the lift of a variant is
-- computed in floats, which are a parameter (`Floats`). Ids that a database or GitHub assigns are texts
-- or natural numbers.
-- Fuel is needed nowhere: the retry loop recurs on the rounds that are left, other loops on lists, texts and trees.
--
-- Not modelled: the declarations of the database's tables and the migrations, which only configure
-- libraries; the routes of app.py; logging.
pub mod Ast
pub mod Audit
pub mod Base
pub mod Command
pub mod Config
pub mod Database
pub mod Debounce
pub mod Dict
pub mod Diff
pub mod Effect
pub mod Evaluation
pub mod Finding
pub mod Guard
pub mod Mirror
pub mod Pending
pub mod Publisher
pub mod Queue
pub mod Review
pub mod Webhook
pub mod Workflow
