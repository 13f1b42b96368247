-- ===== src/Lib.antt =====
-- A model of Nodeva, a marketplace for GPU time: its backend (backend/src and the tables of
-- backend/migrations) and the frontend's page, with the theorems that make its money and its
-- reservations correct.
--
-- A provider enrolls nodes; a user books time on one. The node signs a receipt for a slot, which
-- becomes a held reservation. A payment confirms it, a job runs on it, and the node's report of the
-- job settles it. Money moves in a double-entry ledger, and leaves through refunds at the gateway.
--
-- Reservations     backend/src/reservations: `Machine` is the lifecycle (machine.js), `Reconciler` the
--                  sweeps of stale holds and of expired reservations (reconciler.js).
-- Payments         backend/src/payments: `Settle` is split, quote and metered charge (settle.js),
--                  `Refunds` a refund and its retries (refunds.js), `Razorpay` the signatures.
-- Marketplace      backend/src/marketplace: `Scheduler` is feasible nodes and free time
--                  (scheduler.js), `Rank` its scores and its order, `Catalogue` the browse list and the
--                  search candidates (nodeStore.js).
-- Jobs             backend/src/jobs: `Verification` compares runs, `ImageAllowlist` admits images.
-- Ledger           the ledger's tables and `accountId` and `ensureAccounts` of api/server.js.
-- Store            the other tables; `Lifecycle` says how the table of reservations may change, `Paid`
--                  and `Moves` how settled reservations and captured payments go together.
-- Providers        reputation.js, `bumpReputation` and `providerIdForNode`.
-- Receipts         `admitReceipt` of backend/src/lib/verify.js.
-- Canonical        backend/src/lib/canonical.js: the form of a body that is signed.
-- Auth             backend/src/auth: `RateLimit` the limiter (rateLimit.js), `Accounts` the /auth routes
--                  of api/server.js with password.js and passwordReset.js, `Tokens` the sessions and
--                  the two gates (jwt.js, middleware.js, adminToken.js).
-- Ws               backend/src/ws: `Protocol` the messages (protocol.js), `Hub` the hub (hub.js) as a
--                  function from an event and its state to its effects and the next state; one child
--                  of `Hub` for each thing that is proved, `Hub/Status` with `onPresence`. `ClusterRelay`
--                  is one instance of the relay (clusterRelay.js).
-- Api              backend/src/api/server.js: `Booking` is POST /reservations, `Capture` is
--                  `commitNodeAndCapture`, `Nodes` lists and retires nodes, `Providers`
--                  is POST /providers/me and the check of the reported hardware, `Confirm` is the two
--                  confirm routes and the webhook, `JobSubmit` the two routes that start jobs,
--                  `JobResult` is `onJobResult` with the settlement of groups, `Settlement` is
--                  `settleReservation`, and `Complete` its route. `Reads` answers a user's questions,
--                  `Dashboard` is the provider's and the admin's pages, `Ops` the summary of what waits
--                  for an operator with the gauges of observability/backlog.js.
-- Db               backend/src/db: `Migrate` applies the files of a directory (migrate.js).
-- Observability    backend/src/observability: `LokiSink` ships the lines of a log (lokiSink.js, logger.js).
-- Scripts          `Simulation` is the requests and the backtest of
--                  backend/scripts/scheduler_simulation.js.
-- System           every handler that writes reservations, payments, jobs or the ledger, and the timers
--                  of backend/src/index.js, as one machine that runs a list of events.
-- Frontend         frontend/src: `Checkout` is the end of `confirmAndPay` (lib/confirmPayment.js), `App`
--                  the page's state, its handlers and what it shows (App.jsx).
-- Tests            concrete states at which the theorems are applied.
--
-- A handler is a function of the store, the request and the answers of the outside world (the node,
-- the gateway, the clock, generated ids), and returns its reply and the next store. A database
-- transaction that throws returns the store before it. The hub's promise for a node's answer ends in
-- four ways: accepted, refused, offline or timed out; the handlers take that answer as an argument, and
-- `Ws` models how it comes about. Handlers run one after another; what two handlers do between each
-- other's awaits is modelled for the sockets only, whose handlers and continuations are events of their
-- own.
-- Ids, signatures and gateway references are numbers, texts are lists of character codes, amounts are
-- whole paise and times are milliseconds. SHA-256, HMAC, Ed25519, bcrypt and JSON web tokens are
-- parameters, and so are the arithmetic of JavaScript's numbers, which the scores and the statistics
-- use, and what the SQL of a migration does. Every recursion is on the structure of a list, so there is
-- no fuel.
--
-- Not modelled: mail and the HTTP clients of the mail server and of the gateway, which only make requests;
-- the connections of the database; the counters and the fields of log lines; the synthetic population of
-- the simulation; the Python worker; the other components of the frontend.
pub mod Prelude
pub mod Reservations
pub mod Payments
pub mod Marketplace
pub mod Jobs
pub mod Ledger
pub mod Store
pub mod Providers
pub mod Api
pub mod Receipts
pub mod Canonical
pub mod Auth
pub mod System
pub mod Frontend
pub mod Tests
pub mod Ws
pub mod Db
pub mod Observability
pub mod Scripts
