-- ===== src/Lib.antt =====
-- PM2 Manager: a web application that manages the PM2 processes of one server (src/*.ts of the
-- repository). Controllers handle HTTP requests behind guards; they call services, which own the
-- rules, and repositories, which hold the SQL over one SQLite database. The PM2 daemon, argon2,
-- otplib, express, express-session with its store and zod are libraries.
--
-- How the code is modelled
--
-- A handler is an action (Exec.antt): a function from the state to a result, or a thrown failure, and
-- the new state; what was written before a throw stays written. The state of a request (World.antt)
-- holds the tables of the database and `req.session` with its id. A table is a list of rows in the
-- order of insertion, with the counter that AUTOINCREMENT keeps; an SQL statement is a function on it.
-- What a library answers is a field of `Env`, one for each request, so the theorems hold for any
-- answers; where more is needed of a library, it is a hypothesis (`IsLawful`, or a premise on argon2).
-- Awaits inside a handler are taken as atomic, except in `createUser`, whose two halves are also run
-- interleaved (Admin/Race.antt). Times are milliseconds or seconds as natural numbers; SQLite's
-- datetime texts are kept as seconds, since they are ordered alike. Fuel stands in four
-- places. Printing a decimal number is given one more than the number, and a number has fewer digits
-- than that. A request of the browser client is given any amount from three on, for the request, the
-- one after a stale token, and the one for a token (Client/Bounded.antt). The search for the point of
-- a chart is given the length of the interval, which each step makes shorter (Chart/Nearest.antt). Who
-- reads the activity view is given any number of turns from the number of pages on
-- (Page/Activity/Reading.antt).
-- The page is modelled by what its views keep and show, an event at a time; an answer to a request is an
-- event of its own where it can come late.
--
-- Which file models what
--
-- - Common and its children: lists, texts, sorting and tests, shared by all.
-- - Errors, Http: src/utils/errors.ts, response.ts, asyncHandler.ts and
--   src/middleware/error.middleware.ts.
-- - Exec: actions with state and failure, and the rules for what they leave alone.
-- - Users: src/repositories/user.repository.ts and the users table of src/db/schema.ts.
-- - Activity: src/repositories/activity.repository.ts and src/services/activity.service.ts.
-- - Sessions: src/types/session.d.ts and src/repositories/session.repository.ts.
-- - World: the state of a request, and the parameters that stand for libraries.
-- - Auth: src/services/auth.service.ts, totp.service.ts and src/controllers/auth.controller.ts.
-- - Admin: src/controllers/user.controller.ts.
-- - Pm2 (Normalise, Service, Connection): src/services/pm2.service.ts, with the pm2 package as a
--   parameter (`Daemon`), and event by event where connecting takes time (Connection), and the types of
--   a process of src/types/index.ts.
-- - Processes: src/controllers/process.controller.ts, src/routes/process.routes.ts, and the schemas of
--   their parameters (src/validation/schemas.ts, src/middleware/validate.middleware.ts).
-- - Metrics: src/repositories/metrics.repository.ts and the metrics table of src/db/schema.ts.
-- - Settings: src/repositories/settings.repository.ts, src/controllers/settings.controller.ts and
--   src/services/metrics.service.ts.
-- - Guards: src/middleware/csrf.middleware.ts and src/middleware/auth.middleware.ts, as the routes of
--   src/routes/user.routes.ts and src/routes/settings.routes.ts pass them.
-- - Logs: src/controllers/logs.controller.ts.
-- - Routes: src/app.ts from the pages on, and the routers of src/routes; Routes/Demands lists what is
--   demanded for each handler.
-- - Client: public/static/js/api.js; Client/Recovery joins it to the guard of Guards.
-- - Pm2/Bus: the event bus of src/services/pm2.service.ts, and its listener in src/index.ts.
-- - Lifecycle: the process guards and the shutdown of src/index.ts.
-- - Chart: `nearestIndex` of public/static/js/chart.js.
-- - CreateAdmin: src/scripts/create-admin.ts.
-- - Config: src/config/index.ts.
-- - Dashboard: src/services/dashboard.service.ts and src/controllers/dashboard.controller.ts.
-- - Activity/Answer: src/controllers/activity.controller.ts.
-- - Metrics/History: src/controllers/history.controller.ts and `distinctNames` of
--   src/repositories/metrics.repository.ts.
-- - Page: the views of the page. Logs, Activity, Table and Metrics: public/static/js/app.js, each with
--   the variables, inputs and buttons of its view as a record, and the handlers of its events as
--   functions on it; Login: public/static/js/login.js. Page/Activity/Reading, Page/Metrics/Windows,
--   Page/Metrics/Names, Page/Login/Entry and Page/Login/Progress join a view to the endpoint that it asks.
-- - Auth/Answers, Auth/Greetings: what the handlers of a login answer, as the login page needs it.
-- - Tests: test data, runs at concrete inputs, and the theorems applied to them.
--
-- Not modelled: of the browser client, what draws its pages
-- and charts, the dialogs, the forms of the settings, the polling timers and the theme; the logger,
-- rate limiting and security headers, which hand options to libraries;
-- and the parts of the server that no file above names.
pub mod Common
pub mod Errors
pub mod Exec
pub mod Http
pub mod Users
pub mod Activity
pub mod Sessions
pub mod World
pub mod Auth
pub mod Admin
pub mod Pm2
pub mod Processes
pub mod Settings
pub mod Guards
pub mod Routes
pub mod Page
pub mod Chart
pub mod CreateAdmin
pub mod Dashboard
pub mod Client
pub mod Config
pub mod Lifecycle
pub mod Logs
pub mod Metrics
mod Tests
