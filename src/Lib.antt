-- ===== src/Lib.antt =====
-- broadcaster: a service that posts its users' ads to messenger groups on a schedule, against a
-- monthly subscription.
--
-- Prelude, and the modules below it, hold the shared names: Boolean tests on native numbers,
-- tables of rows (SELECT, COUNT and UPDATE ... WHERE on lists), signed integers, decimal texts.
-- Calendar is the part of Python's datetime and calendar that the code uses, and `normalize_utc`
-- of app/application/analytics/send_analytics.py.
--
-- Billing is the money path.
--   Billing/Models is app/models/payment.py and app/models/subscription.py; Billing/Store the
--     tables with their constraints (IsValid), the Redis cache and the calls to the provider.
--   Billing/Period is app/application/billing/subscription_period.py, function by function.
--   Billing/Payments is `create_payment` of app/services/payment_service.py with
--     `_expire_stale_intents` and `_reserve_subscription_intent`.
--   Billing/Webhook is `handle_webhook` of the same file with `_claim_payment` and
--     `_extend_subscription`. A delivery is two halves, reading (`fetch`) and writing (`resume`),
--     so that deliveries overlap; Billing/Webhook/Overlap runs any of them in any order,
--     and Billing/Webhook/Once counts those that touch a term.
--   Billing/Access is app/services/subscription_service.py and app/services/billing_cache.py.
--
-- Scheduling is the path of a send.
--   Scheduling/NextRun is `compute_next_run_at` of app/services/schedule_service.py, on wall-clock
--     moments; Scheduling/Rules is app/services/schedule_rules.py.
--   Scheduling/Collect is `collect_due_schedules` of app/application/scheduling/use_cases.py with
--     `_user_send_verdict` and `build_dispatch_task`; Scheduling/Send is `send_message_once` of the
--     same file.
--
-- Accounts/Resync is `apply_group_resync` and `record_sync_failure` of
-- app/application/accounts/group_resync.py, by the columns that they write.
--
-- Worker is app/worker/tasks.py.
--   Worker/Dispatch is `dispatch_send_tasks` and `check_schedules_async`: buckets, pipelines, the
--     queues of Redis; Worker/Dispatch/Routes states the same one task at a time.
--   Worker/Results is `process_wa_results` and `process_max_results` with what they write;
--     Worker/Containers is `manage_wa_containers` and `manage_max_containers`, by the queues and the
--     set of active accounts.
--   Worker/Retry is `retry_send`; Worker/Sync is `_sync_groups_async` with its forty polls.
--
-- History is the repeat button of app/pages/history.py: its register (Slot), `history_retry`
-- (Handler), which hands a task to `retry_send`, and `retry_availability` (Availability), which
-- decides where the button is offered.
--
-- Auth is the mailed codes of app/pages/auth.py: `register_send_code`, `register_resend_code`,
-- `register_verify`, and the same of `forgot_password_...` with `forgot_password_reset` (Codes), and
-- any of these requests one after the other (Requests), with what was typed in (Requests/Typed). Of app/services/auth_service.py a token is
-- what it says: JWT and passlib are outside.
--
-- Images is app/services/image_keys.py (Keys) and, of app/services/image_upload.py, the names and
-- the key of an upload (Upload); Names and Owner say what a key looks like and whose it is, and
-- Form what a form with such keys comes to.
--
-- Each operation takes the store and gives the store back beside its result; what Python raises
-- is an `err`. A rollback to the start of a transaction gives back the store as it was.
--
-- The provider's SDK, the clock, Redis, the database of zones and Python's `int` of a text are not
-- in the repository: the SDK, the zones, `int` and the messengers are function arguments, each
-- reading of the clock is an argument `now`, and Redis is up or down on each access.
-- The loops are over lists, and the polls over the number of attempts left. Only the decimal text
-- of a number recurs on fuel, the number and one, which a number divided by ten each round does
-- not exhaust.
--
-- Not modelled: the HTML pages, the messenger adapters, the decoding and storage of images, the
-- admin screens, the calls of Docker and the JavaScript bridge, which are I/O or presentation.
pub mod Prelude
pub mod Calendar
pub mod Accounts
pub mod Auth
pub mod Billing
pub mod History
pub mod Images
pub mod Scheduling
pub mod Worker
