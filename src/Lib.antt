-- ===== src/Lib.antt =====
-- fastapi-admin-kit: a verification library for the core of the admin framework.
--
-- The program is a Python library (fastapi_admin_kit/) that serves an admin site over registered
-- models. The modules below follow its parts; each file names in its first lines the source that it
-- is about. Async functions are modelled as plain functions: what another task may do between two
-- awaits is outside the model unless a file says otherwise.
--
-- Base holds what all parts share. Base/Value: the Python values that a column holds (None, bool, int
-- and str) with ==, <, <= and str(); Base/Int: Python's integers; Base/Dict: a dict with text keys as
-- an association list in insertion order; Base/Result: exceptions as values; Base/Sort: list.sort
-- with a comparison that may raise; Base/Text: str methods on code points. What rests on the
-- interpreter's Unicode tables (str.lower, str.upper, str.isspace, int of a text) is the record
-- Unicode, a parameter. Floats, dates and other column types are not values of the model.
--
-- Schema models fastapi_admin_kit/schemas/schema.py and the metadata of inspection/types.py.
--
-- Memory models fastapi_admin_kit/backends/memory.py, the reference backend: Memory/Query, Column and
-- Adapter the query language, Match the predicates (_matches), Rows the selection (_rows, _next_id,
-- _pk_field_name), Action and Session the session with its store, Introspection the introspection and
-- audit adapters, Database the connection, seeding and materialisation. A method of a query changes it
-- in place; the model returns the changed query. The raw rows that execute() hands out alias the
-- store in Python; the model does not follow changes made through them.
--
-- Auth models parts of fastapi_admin_kit/auth/: Auth/Ratelimit the sliding-window limiter of
-- ratelimit.py, whose methods hold a lock and are one step each, with Ratelimit/History for sequences
-- of calls and Ratelimit/Retry for the Retry-After; Auth/Permissions the checker of permissions.py
-- with its caches, where the rows that the two SQL queries select are a parameter; Auth/Session the
-- signed cookies of session.py, where the serializers of itsdangerous are a parameter with laws.
-- The clock is an argument of every function that reads it. Auth/Proxy models proxy.py over the module
-- ipaddress, a parameter. Auth/Totp models totp.py, with the cryptography as a parameter, and
-- Auth/Enrolment the handlers of views/totp.py on the table of UserTOTP, where Enrolment/Reachable has
-- the step relation of the requests and Enrolment/Login what a session takes. Auth/Csrf models csrf.py:
-- Csrf/Multipart the reader of bodies, by a split that is structural and needs no fuel, Csrf/Middleware
-- the middleware and the exception handlers, Csrf/Forms what it reads from a form, Csrf/Tokens and
-- Csrf/Cycle what tokens prove; the HMAC, int() and parse_qs are parameters.
--
-- Pagination models fastapi_admin_kit/pagination/: the record QueryBackend is what the strategies ask
-- of an adapter and its session, and BackendLaws what they rely on for statements without a limit or an
-- offset of their own. Pagination/Stored and Pagination/Keyed are the strategies over the in-memory
-- backend, which keeps these laws. Pagination/Walk follows cursors with a bound on the number of pages;
-- one more than there are rows is enough. base64, JSON and the parser of floats are parameters.
--
-- Registry models fastapi_admin_kit/registry/: registration with its validation, and discovery over
-- the classes that the mappers name, in their order. Labels and widgets of a registered model are not
-- part of it.
--
-- Config/Cache models fastapi_admin_kit/config/cache.py, with the environment as a function.
--
-- Filters models fastapi_admin_kit/filters/lookups.py, with the query as a function. Widgets models
-- fastapi_admin_kit/widgets/registry.py and resolver.py, where classes go by their names and a type
-- knows the classes that it is an instance of.
--
-- Nav models fastapi_admin_kit/nav.py: Nav/Groups which groups a sidebar has and Nav/Totality when it
-- is built at all. str.title and str.lower are parameters.
--
-- Notifications models fastapi_admin_kit/notifications/: Notifications/Store the queries of store.py on
-- three tables, Template config.py, Service the delivery of service.py with its fallbacks, where a
-- provider answers by all that was handed over before, Change the dispatcher, and Hub the connections
-- of realtime.py with queues of bounded length. Every loop is structural. The custom in-app
-- provider is handed what notify stores; the publication by the hub within notify is left out.
--
-- Exchange models fastapi_admin_kit/export_import/: Exchange/Export the rows that are handed to the
-- writer, Exchange/Import an import from the parsed rows to the flush, with the hooks of the base class
-- and the converters as a parameter, and Exchange/Formats the registry.
--
-- Storage models fastapi_admin_kit/storage/ and views/file_handler.py: Storage/Paths the paths of
-- pathlib without symbolic links, Storage/Local the backend, whose files are a map from paths to bytes,
-- and Storage/Upload what a form does with a file field.
--
-- Saver models fastapi_admin_kit/views/model_saver.py, without the saving of inlines: what a form writes
-- to an object, with the introspection adapter's answers as a parameter.
--
-- Audit/Context models the context variable of fastapi_admin_kit/audit/context.py as references into a
-- heap, with the requests that set it in audit/middleware.py and auth/identity.py as a sequence of
-- events; Audit/Shared is about any such sequence. Audit/Listener models the two session listeners of
-- audit/listener.py, and Audit/Stale is about a failed flush.
--
-- Not modelled are the SQLAlchemy backend, whose methods are calls of SQLAlchemy, the HTTP views and
-- routers, the templates, the AI assistant, the formats of files, forms, the command line and the rest
-- of the audit log, except for the diff of the reference backend.
pub mod Base
pub mod Schema
pub mod Memory
pub mod Auth
pub mod Pagination
pub mod Registry
pub mod Config
pub mod Filters
pub mod Widgets
pub mod Nav
pub mod Notifications
pub mod Exchange
pub mod Fixtures
pub mod Storage
pub mod Saver
pub mod Audit
