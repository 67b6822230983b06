-- ===== src/Lib.antt =====
-- A verification library for korail_bot, the Telegram bot that watches the railways Korail and
-- SRT for returned seats, books them, and looks after the payment.
--
-- The program and its parts. A user talks to the bot through Telegram:
-- src/korail_bot/services/telegram_poller.py fetches the updates and update_processor.py hands each to
-- a handler. The conversation handler asks one question after another and checks each answer with the
-- validators.
-- A search that the user has described passes the access gate (access_service.py), which counts
-- the searches of a number that is not approved, and becomes a process of its own
-- (reservation_service.py). That process runs the search loop of rail_service.py until it holds
-- the seats and calls back (src/korail_bot/api/reservation_callback.py). The app then keeps the
-- payment records (src/korail_bot/models/reservation.py, in the Redis keys of
-- src/korail_bot/storage/redis.py) and asks the railway whether the seats are paid for
-- (payment_watchdog_service.py); a user may give seats back (pending_payment_service.py). A
-- search may wait for its start time (scheduled_search_service.py). Mini App requests pass a rate
-- limiter (src/korail_bot/api/mini_app_auth.py).
--
-- Which file models what:
--   Common       helpers: Boolean tests, lists, dictionaries, whole numbers of settings
--   Payment      the payment records of models/reservation.py and their methods
--   Storage      the payment keys of storage/redis.py; a key prefix is a dictionary
--   Telegram     what is sent: a message is its kind and what it is filled with
--   Text         Python's str as a list of code points: strip, digits, int, comparison
--   Validators   InputValidator of src/korail_bot/utils/validators.py: a validator gives the reason it
--                refuses for, or `none`. Phone, Date, Choices and Station define them
--   Conversation  ConversationHandler of src/korail_bot/handlers/conversation_handler.py and
--                CommandHandler.handle_start. A handler is a function on the session it was given and
--                the World of the chat; a KeyError sets `raised`. Login, Trains, Moment, Favourites,
--                Booking, Questions, Answers, Preferences, Opening, Resume, Dialogue and Entrances
--                have the handlers; Histories runs a list of events of the chat, each with an
--                `Outside` of its own: clocks, settings, railways, the gate and the schedules
--   Watchdog     PaymentWatchdogService: settle_single, settle_seats, check and tick, one function for
--                each method, on a World of the storage, the logins and the messages sent; an
--                exception is `none` beside the state it leaves. Settled and Reports say which seats and
--                which booking are settled between two worlds
--   Router       TelegramUpdateProcessor of src/korail_bot/handlers/update_processor.py: the handler an
--                update reaches. Arrivals runs a history of updates through it and the dialogue
--   PendingPayment  PendingPaymentService: what is held unpaid, and giving it back
--   BackProcess  the watch on a payment in src/korail_bot/telegramBot/telebotBackProcess.py
--   Callback     ReservationCallbackAPI: the request by which a search process says how it ended
--   Schedule     ScheduledSearchService: booking a search for later, and a pass that starts what is due
--   Rail         RailService: the failure tracking and the two loops that search and reserve
--   Limiter      RateLimiter of api/mini_app_auth.py
--   Access       AccessService, its Redis keys, and ConversationHandler.start_booking
--   Poller       TelegramPoller: one function for a round of `run`
--   Reservation  ReservationService: starting a process, the sweep for dead ones, resuming, what a
--                restart does with old records, cancelling and shutting down. Process has the records
--                and the signals, Start and Ending the operations, Reach the calls as steps; a login
--                whose name or password is empty counts as missing there
--
-- Conventions. A dictionary of the source is an association list over the native numbers; chats,
-- phone numbers, hashes and texts are numbers, and 0 is the empty text where the source tests for
-- one. Validators, Conversation and Router read what a user typed, so there a text is a Text. A clock reading is an argument. What stands outside the source is a parameter: the
-- railways' answers (Watchdog.Services, Rail.Round, Conversation.Outside), the operating system
-- (Reservation.Process.Os), the HTTP answers of Telegram (a list of Poller.Response), the hash of
-- a number. Where an operation may fail, the failure is a value beside the state it leaves. An
-- invariant of a component (IsKeyed, IsKept, InTime, IsPaced, IsSound) is a predicate on its state.
--
-- Fuel. The two search loops of the source run without a bound when no limit on the attempts is
-- set. Here they take fuel, one unit for each pass; with a limit of `max` passes, `max + 1` units
-- are enough, which the theorems on the loops prove before they say what is returned. Everything
-- else is structural recursion.
--
-- Not modelled: threads and locks (a method is one step), failing storage calls in the
-- reservation service, the expiry of keys other than the watch, the access requests and the
-- scheduled searches (the payment records, sessions and logins are kept until they are deleted),
-- serialisation, the wording of messages and edits of old ones, HTTP transport, the commands but
-- /start, the screens that list favourites, reading the form of the Mini App and its gateway,
-- reminders, the clients of the two railways, and the front end, which is JavaScript.
pub mod Common
pub mod Payment
pub mod Storage
pub mod Telegram
pub mod Access
pub mod BackProcess
pub mod Callback
pub mod Conversation
pub mod Limiter
pub mod PendingPayment
pub mod Poller
pub mod Rail
pub mod Reservation
pub mod Router
pub mod Schedule
pub mod Text
pub mod Validators
pub mod Watchdog
