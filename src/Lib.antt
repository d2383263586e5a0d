-- ===== src/Lib.antt =====
-- Wikikracja: a model of the parts of the program that decide who votes, what is decided, who is a
-- citizen and who is told of what, and of what the community owns and plans. Paths are from the
-- root of the repository.
--
-- The parts and their files:
--   Common      lists as tables with the queries of the source, Python's integers and texts, and
--               the errors that the code tells apart.
--   Settings    site_settings/params.py: the parameters that a referendum may change, their bounds,
--               the values that a proposal gives them, and the row of django_site.
--   Voting      glosowania. Model and World are the tables of glosowania/models.py and the state
--               that requests and the nightly command share; Buffer is glosowania/vote_buffer.py with
--               its Lua script; Signing, Cast and Editing are requests of glosowania/views.py
--               (`details`, `_cast_vote`, `dodaj`, `edit`, `delete_proposal` and those on arguments);
--               Nightly and Effects are `process`, `zliczaj_wszystko` and
--               `apply_pending_referendum_effects` of glosowania/management/commands/vote.py, the
--               latter with `apply_parameters`, `apply_brand_mark` and `SiteParameters.save` of
--               site_settings, which keep what they stored before they raise;
--               Runs joins votes and the closing run.
--   Citizens    obywatele: the threshold `required_reputation`, the rates, and the nightly command
--               obywatele/management/commands/count_citizens.py.
--   Tasks       tasks/models.py and the requests of tasks/views.py that change an activity and its steps.
--   Chat        chat/notification_queue.py: the cooldown of notifications and the jobs that wait;
--               Messages is the access to messages, votes, reactions and edits of chat/services.py,
--               chat/reactions.py and chat/command_handlers.py.
--   Bookkeeping bookkeeping/services.py (`asset_balances`, `category_breakdown`) and the check of
--               bookkeeping/models.py on a new transaction.
--   Notifications
--               core/notifications.py and core/services/notifications.py: the policy of events, who is
--               told on which channel, the receivers of signals, and leaving all notifications.
--   Surveys     ankiety: voting, options that participants add, and the form's options.
--   Events      events/models.py: the next occurrence of an event, and its dates in a range.
--   Resources   resources/services.py: the offers that match a user's needs.
--   Core        core/sqlite.py (`run_with_lock_retry`) and core/presence.py.
--   Tests       runs on concrete data.
--
-- How they interact: a vote is a row in SQL and an entry in Redis, written by Cast through Buffer; the
-- nightly command claims the entries, holds them against the rows, and counts or restarts. An
-- approved proposal leaves effects, which Effects applies through Settings. Blocking a citizen takes
-- activities and votes on them away. Core's retries carry presence.
--
-- How state is modelled: a table is a list of records, a row of a model is a record with the
-- columns that the code reads, a nullable column is an option. A request is a function from the
-- tables to an answer and the tables; voting and the nightly command, which may raise, are
-- functions on a world of tables, Redis and queued signals, and `atomic` brings back the tables
-- and only them. Dates are numbers of days, points in time numbers of seconds. What SQLite,
-- Redis, Django's forms, the random generator and the clock do comes in as arguments, and so
-- does what storage and Pillow do with a logo and what the database makes of a sum of amounts:
-- SQLite keeps them as floating-point numbers, and Django rounds a sum to fifteen digits, so
-- sums are taken to be exact up to fifteen digits only, of amounts that are not negative, which
-- is what the form lets through. No request runs between two steps of another. Loops are
-- recursion on the list they run over, or on the number of attempts; only the groups of equal
-- addresses in Citizens.Nightly use fuel, the number of users, as each group has one at least,
-- and the searches of Events: one round more than the instants up to now, each step being later,
-- and 133 months, as the search by month gives up after the tenth year; the list of dates in a
-- range has the limits of the source.
--
-- Not modelled: pages, texts of messages, mails, sending of signals, sending in chat rooms and
-- the websocket protocol, pages of the bookkeeping, percentages of surveys, the search of
-- resources, the board, files and images, and the proposals of parameters as a form
-- (`parameters_propose`).
pub mod Common
pub mod Tests
pub mod Resources
pub mod Settings
pub mod Voting
pub mod Core
pub mod Bookkeeping
pub mod Chat
pub mod Citizens
pub mod Tasks
pub mod Notifications
pub mod Surveys
pub mod Events
