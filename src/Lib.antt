-- ===== src/Lib.antt =====
-- The backend of the interview trainer: who is asked what, how an answer moves ratings, grades and
-- reviews, how a preparation plan is laid out, what the profile and the queue of reports keep, and
-- how the content is loaded.
--
-- Parts. A request reaches a service with a database session. `PracticeService` takes an answer,
-- evaluates it, rates it with `rating` and schedules its review with `scheduler`; it offers the next
-- question, due reviews first. `PlanService` collects the weights and ratings of topics and has
-- `planner` lay them out over the days. `UserService` keeps the profile, `ReportService` the
-- questions that users send in. All of them read and write the tables of `db/models`. The content
-- comes from files: the seed checks them, and `TaxonomyService` and `QuestionService` bring the tables
-- in line with them.
--
-- Files, and what each models (paths under backend/app):
--   Prelude        names of the libraries, tests for equality and order, lists, integers
--   Float          the floats of Python as an interface with named laws; Float/Fixed is an instance
--                  with two decimals, which shows that the laws can hold
--   Exceptions     core/exceptions.py and the table of api/errors.py: an exception is its class
--   Grades, Enums  core/grades.py, core/enums.py
--   Scheduler      services/scheduler.py: SM2Scheduler.review and its two helpers
--   Rating         services/rating.py: apply_elo, grade_from_rating, overall_rating, ...
--   Planner        services/planner.py: plan_days, build_plan, _distribute, covered_topics
--   Models         db/models: a record for each table, and the database of their rows
--   Session        the session of SQLAlchemy: what is committed and what the transaction sees; an
--                  action returns or raises and leaves a session
--   Practice       services/practice.py, with upload_answers of api/v1/sync.py: Lookups (single
--                  rows), Evaluate, Submit, Batch, Feed, Listing, Stats; the other modules prove
--   Users          services/user.py: set_specialization, delete_account, list_specializations
--   Auth           services/auth.py, core/security.py and get_current_user of core/deps.py:
--                  register, authenticate, refresh, create_token, decode_token; Auth.Handlers:
--                  register and login of api/v1/auth.py, but not its handler of refresh
--   Reports        services/reports.py: submit
--   Plan           services/plan.py: create, today
--   RateLimit      core/rate_limit.py: check, over the commands of Redis as an interface with laws
--   Rows           the loop by which the seed brings the rows of a table in line with a list, five
--                  times in services/taxonomy.py and once in services/questions.py, as one generic
--                  definition over an interface (`Sync`) with laws (`SyncLaws`)
--   Seed           seed/schema.py and, in Seed.Questions, seed/question_schema.py: the files of the
--                  taxonomy and of the questions with their checks
--   TaxonomyRows   services/taxonomy.py: what is written to the rows of each table (_apply), and
--                  visible_topics
--   Taxonomy       services/taxonomy.py: sync, get_tree, with the cascades of the tables, and
--                  seed_taxonomy of seed/taxonomy.py
--   QuestionRows   services/questions.py: _apply_fields, _sync_options
--   Questions      services/questions.py: sync, _sync_specializations
--   Sample         a small database for the tests, which stand in modules named Samples
-- A function keeps its name without the leading underscore; a method is a function of the session.
--
-- Bounds and fuel. Numbers are unbounded, as in Python. A date is a number of days and a moment a
-- number of microseconds, from the start of year 1; a review past year 9999 is an OverflowError. When
-- an answer is stored, its values are checked against the columns of type SmallInteger. The `while` loop of `_distribute` takes one unit of fuel
-- more than there are slots, since each turn but the last adds a slot. Every other loop is over a
-- list.
--
-- Reading of the source. A float is a value of the interface `Float`: its operations are not
-- computed, and what a theorem needs of them is among the laws of `FloatLaws`, which IEEE doubles
-- satisfy away from infinities and NaN; what they say of `round` is limited to the integers up to
-- 2 ^ 53, which doubles hold exactly. One request sees one moment: the calls of `datetime.now`
-- in it are the argument `now`. A query with `limit` and no order takes the first rows of the
-- table. A fresh uuid, the submission ids and the rating's row that another transaction takes
-- meanwhile, and whether the database refuses an answer for a reason of its own, are fields of
-- `Request`. A flush that fails ends the transaction. `strip`, the length of a string in code points and the fingerprint of a title are
-- fields of `Text`. A new key of an autoincremented column is a function of the keys in use, and
-- what `re.search` and `uuid5` return are fields of `Seed.Questions.Library`. argon2, PyJWT and
-- the texts of uuids are fields of `Auth.Library`, with their documented behaviour as
-- `LibraryLaws`: among it that a hash verifies no other password than the one it was made from.
-- The rows of a table are a list in the order of insertion.
--
-- Not modelled: texts of messages; a query that fails, since the connection is lost, and the
-- failures of flushes other than by keys, except the last one of submit_answer; the ranges of the columns of type
-- Integer, and those of SmallInteger and of texts outside submit_answer; columns, indexes and defaults that no service reads; what a
-- rollback does to objects that are still held; OverflowError of `**`; the FastAPI routers and the
-- schemas of pydantic around the services, except those of api/v1/auth.py and upload_answers; the
-- address of a client behind a proxy; the constraints of pydantic on single fields of the seed
-- files, their reading from YAML, the command lines of the seed and the exported bundle;
-- migrations, deployment and the mobile client.
pub mod Prelude
pub mod Rows
pub mod Float
pub mod Exceptions
pub mod Grades
pub mod Enums
pub mod Scheduler
pub mod Rating
pub mod Planner
pub mod Models
pub mod Seed
pub mod TaxonomyRows
pub mod Taxonomy
pub mod QuestionRows
pub mod Questions
pub mod Session
pub mod Practice
pub mod Users
pub mod Auth
pub mod Reports
pub mod Plan
pub mod Sample
pub mod RateLimit
