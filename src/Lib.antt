-- ===== src/Lib.antt =====
-- gpca_v: the GPCA API, from a request to the tables it stands on, and how those are declared and built.
--
-- The repository is a Flask application (api/app) over a database package (db/gpca_db). A request gets an
-- id (api/app/logging.py), its body is validated (api/app/validation.py, api/app/schemas), and it reaches a
-- view of api/app/routes/auth.py, through a guard of api/app/security/decorators.py where one is named.
-- The view opens a transaction (session_scope of api/app/extensions.py) and calls one function of
-- api/app/services/auth.py, which reads and writes through the repositories of db/gpca_db/repositories.
-- After the commit the view sends the emails that the service has queued. An exception that leaves the
-- view is rendered by the handlers of api/app/errors.py.
--
-- A computation is a function from a world to a result and a world (Run). The world holds the three
-- tables, the number of readings made so far of the clock and of the random sources, the queue of pending
-- emails and the list of those that send_email was called with. A result is a value or a Python
-- exception. Each reading of the clock or of a random source takes the next number, so that two readings
-- may differ. What the code calls and does not implement is the record Env: the clock, uuid7,
-- token_urlsafe, SHA-256, argon2, PyJWT, the folding of citext and the widths of PostgreSQL's columns.
-- What Flask, SpecTree, pydantic and the logging library answer are the records Framework, Pydantic,
-- Source and LogRecord. A theorem holds for any such functions, or names what it needs of them.
--
--   Prelude          the names that every file uses
--   Env, Config      what the code calls, and Settings of api/app/config.py
--   Errors           the exceptions of api/app/errors.py
--   Responses        the handlers of api/app/errors.py, and api/app/responses.py
--   Messages         api/app/messages.py
--   Run              the world, the monad, session_scope (Run/Scope), what a computation keeps (Run/Keeps),
--                    what it makes of reordered tables (Run/Agrees)
--   Db               db/gpca_db: models (Db/Models), enums (Db/Enums), the repositories (Db/Users,
--                    Db/RefreshTokens, Db/AuthTokens), tables in general (Db/Table)
--   Db/Integrity     the unique indexes and foreign keys as a predicate; Db/Stable the interface of the
--                    facts about the tables that every statement keeps; Db/Preserve that each does;
--                    Db/Reorder and Db/Agree the same rows in another order
--   Db/Keys          what a write to some rows leaves of the indexes and the references
--   Db/Lookup        what a lookup finds, as functions of the tables
--   Security         api/app/security: passwords, tokens, the header and the guards
--   Services/Auth    api/app/services/auth.py: Mail, SingleUse, Sessions, Accounts, Recovery are the
--                    functions, the other files are about them; Serve is the sequences of service calls;
--                    Logic is the interface of the properties that are proved of every service at once, Obey
--                    goes through the services with it, Preserve and Orderless fill it
--   Routes           api/app/routes/auth.py in Routes/Auth, the other files are about the endpoints;
--                    Routes/Overlap has refresh requests that overlap; Logic, Obey, Keeping and Orderless carry
--                    the two logics of the services over to the views
--   Routes/Bodies    the same endpoints behind the validation of their bodies
--   Schemas          api/app/schemas and api/app/validation.py: the request models, the problem of a failed
--                    validation, the page envelope
--   App              api/app/__init__.py, api/app/logging.py and api/app/routes/health.py: the request id, the
--                    routes and their dispatch, the probes, the log lines; create_app with build_engine and
--                    init_database in App/Factory; in App/Contract the responses that each endpoint declares
--                    to SpecTree; sequences of requests in App/Orderless and App/Integrity
--   Config/Load      load_settings of api/app/config.py; its bounds as a table in Config/Load/Rules
--   Db/Vocabularies  db/gpca_db/enums.py and the PostgreSQL types of its classes
--   Schema           db/gpca_db/base.py and the tables of the models (Convention, Declared), the revisions of
--                    db/migrations/versions (Ddl, Migrations), db/migrations/env.py
--                    (Migrations/Environment), db/gpca_db/schema_docs.py (Dbml), and
--                    nonnegative_cents of db/gpca_db/types.py (Checks)
--   Tests            runs on a small database; docs/schema.dbml against the declared tables
--
-- Times are microseconds in the native natural numbers, keys and digests are natural numbers. A table is
-- the list of its rows. An INSERT checks column widths, unique indexes and foreign keys at once, as the
-- flush in each repository's `add` does, and the UPDATE of replaced_by_id checks its foreign key.
-- token_version, an int4, is checked at the commit. No code deletes a row, so an UPDATE is taken to find
-- the row of its object. A session whose expiry no datetime can hold is an OverflowError; the clock and
-- the fixed lifetimes of the single-use tokens, of a day at most, are taken to stay below that bound.
-- `int(claim)`, UUID parsing and JSON values in a token are those that PyJWT can return. The pages of a
-- listing are counted by floats, as the code does, where these are exact: up to 2 ^ 53. A migration script
-- is a list of statements over a catalog of names, types and columns without rows, except for whether a
-- column holds a NULL. Loops are over lists, and there is no fuel.
--
-- Requests that overlap: Routes/Overlap takes a refresh request as two steps, the reading of its row and
-- the rest up to the commit, between which come any steps of other refresh requests and any service
-- calls. The other transactions are taken one after the other, and those of two requests interleave only
-- between the transactions of one request.
--
-- Not modelled: what Flask, SQLAlchemy, SpecTree and Alembic do with the calls that configure them, which
-- the model keeps as lists of calls (App/Factory, Schema/Migrations/Environment); the construction of
-- api_spec; QueryModel and the column aliases that nothing uses yet; get_engine; the log calls. Of the
-- errors that werkzeug raises the model has the 404 and 405 of the routing, for GET and POST.
pub mod Prelude
pub mod Env
pub mod Config
pub mod Errors
pub mod Messages
pub mod Responses
pub mod Run
pub mod Db
pub mod Security
pub mod Services
pub mod Routes
pub mod Schemas
pub mod App
pub mod Schema
mod Tests
