-- ===== src/Lib.antt =====
-- A verification library for the core of the Vakant bot and web app: the wallet ledger, the payments
-- that fill it, the queues of broadcasts and of the bot's jobs, and the admins who act on users.
--
-- The program's parts and where they are modelled:
--   * webapp/core/ledger.py, the changes of balances that the web app makes: Ledger. One function per
--     operation (apply_balance_change, activate_pro, reset_user, list_transactions); its child
--     modules prove what each does (Changes, Activation, Reset, Page) and what all of them keep
--     (Moves, Balance).
--   * webapp/payments/config.py, limits, input rules and credentials: Payments/Config.
--   * webapp/payments/service.py: orders and their state machine in Payments/Orders, crediting a
--     payment in Payments/Credit, the trail of webhooks in Payments/Events.
--   * webapp/payments/shop.py, the Click callback (handle_click): Payments/Shop.
--   * webapp/payments/paynet.py, the Paynet endpoint (handle_request): Payments/Paynet with the
--     parameter rules, and below it Document (parsed JSON), Methods and Statement (the five
--     methods), Access (login) and Envelope (dispatch and answers).
--   * the direct card and phone methods of webapp/payments/service.py, with hit_limit:
--     Payments/Direct; the errors of webapp/payments/merchant.py: Payments/Merchant.
--   * webapp/core/limiter.py, the keys of the rate limits: Web/Limiter, with the check of initData
--     (webapp/core/telegram_auth.py) in Web/InitData.
--   * src/functions/broadcast_worker.py and broadcast_control.py, the broadcast queue: its tables in
--     Broadcast, who a job goes to in Broadcast/Targets, what an answer of Telegram does to a
--     recipient in Broadcast/Outcome, the claim and the write of a batch in Broadcast/Batch,
--     run_broadcast in Broadcast/Worker, reset_stale_claims and the choice of a job in
--     Broadcast/Picker, the actions of admins in
--     Broadcast/Control. Broadcast/History puts them in any order.
--   * webapp/core/event_queue.py, the buffer of analytics events with its flusher: Web/EventQueue.
--   * src/functions/cache.py, the dictionary that stands in for Redis: Cache.
--   * src/functions/bot_jobs.py, the jobs of the bot process, with post_now of
--     webapp/routers/admin_autopost.py: Jobs. Jobs/Pollers takes bot_jobs_loop apart into its
--     transactions, for any number of processes.
--   * webapp/core/auth.py and webapp/core/session.py, who may act in the panel: Admin/Roles and
--     Admin/Sessions, on the tables of Admin.
--   * the mutations of webapp/routers/admin_users.py: the balance with its idempotency keys in
--     Admin/Requests (the claims in Admin/Requests/Claims), Pro, reset, ban and the end of sessions
--     in Admin/Accounts. They call the ledger, as the program does. Admin/History puts them in any
--     order; Admin/Bans says what a ban does to require_role. The confirmation tokens that these
--     routes ask for, webapp/core/confirm.py, are in Admin/Confirm.
--   * Payments/Books states what the payments promise together: the ledger and the orders agree.
--     Payments/History puts orders, callbacks, requests and the direct methods in any order.
--
-- The tables (src/db/migrations/m004, m020, m027) are records in Db, those of
-- broadcasts (m008, m015, m017, m019) in Broadcast. A coroutine of the program is
-- a function from a connection to a result and a connection (Db/Exec): a connection is what is
-- committed and what it sees itself, so a forgotten commit or rollback shows. A call that raises
-- returns its exception as a value. The callbacks and the requests are sequences of calls, each on
-- a connection of its own; in reset_user, other connections commit inside the call.
--
-- Texts are lists of code points, and amounts are unbounded, as Python's are.
--
-- The broadcast queue has one function on its tables for each transaction; what Telegram answers,
-- the clock, locks, the cancellation of the worker and what admins do during a batch are the
-- Weather of a round.
--
-- The event queue and the cache are functions on their state; an event of the queue says what the
-- event loop did, with the rows that arrived in between.
--
-- The job queue is a table and the pollers on it; an event is one transaction of one poller, the
-- death of its process, a new job or the reaper. A request of an admin is one function on what is
-- committed: its transaction holds the write lock from its first write on, and an exception drops
-- it. What the guard on a target read before the transaction is an argument of the request.
--
-- Bounds and fuel: reset_user makes its 5 rounds, as its loop does, and raises after them.
-- Printing a number has as many rounds as the number, and each divides it by ten, so they are
-- enough. run_broadcast has fuel for its rounds; that more rounds than a bound on the sends end it is
-- a result below.
--
-- Parameters, since their code is not in the repository: Python's float, strip, lower and md5
-- (Payments/Shop/Runtime; strip is also defined in Prelude/Text, for the admins' requests), its
-- Unicode digits (Digits in Payments/Config), datetime (Clockwork in
-- Payments/Paynet), base64 and sha256 (Encodings in Payments/Paynet/Access), jws with the JSON of a
-- session token (Settings in Admin/Sessions), the codec of a stored response and the digest of a
-- request (Server in Admin/Requests), the HMAC of a token with the JSON of its parameters (Signer
-- in Admin/Confirm), the HMAC of initData with parse_qsl and the JSON of its user (Telegram in
-- Web/InitData). The clock, the ids of
-- uuid4, the settings, the JSON parser, whether the write lock is had in time
-- and whether the trail can be written are arguments.
--
-- Not modelled: the texts of messages, the payload of the trail, what the Paynet methods note for
-- the trail (an argument of Envelope), the link of checkout_url, the HTTP calls to Click (arguments
-- of Payments/Direct), the keyboards and the media of a broadcast, the token bucket that spaces its
-- sends and its polling loop, the connection to Redis, the handlers of the bot's jobs,
-- the initData branch of the sign-in, the lists and exports of the admin panel,
-- the payload of the audit log, the other routers, the bot's dialogues, the resume builder, the
-- ingest of vacancies, operations and the frontend.
pub mod Prelude
pub mod Db
pub mod Ledger
pub mod Payments
pub mod Web
pub mod Broadcast
pub mod Cache
pub mod Jobs
pub mod Admin
