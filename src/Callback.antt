-- ===== src/Callback.antt =====
-- src/korail_bot/api/reservation_callback.py: the request by which a search process says how it ended,
-- with the check of api/auth.py that it is one of ours. An argument of the request is what the
-- handler makes of it, and a token is a number, 0 for none. Starting a reminder is a call that is
-- noted here; the reminder services and their threads are not modelled.
pub mod Ended
mod Tests
use korail_ktx_macro_telegra.Common.{
  ℕ, Bool, true, false, not, ◌&&◌, ◌||◌, Option, none, some, List, [], ◌∷◌, ◌++◌, ◌==◌,
  if◌then◌else◌,
}
use korail_ktx_macro_telegra.Common.Dict.{erase}
use korail_ktx_macro_telegra.Telegram.{search_result}
use korail_ktx_macro_telegra.Reservation.Process.{State}
use korail_ktx_macro_telegra.Reservation.Start.{reset_session}
use korail_ktx_macro_telegra.Reservation.Ending.{tells, drop_login}

-- An argument that is a whole number: missing or empty, not a number, or its value.
pub data Argument : Type 0 where
  missing unreadable : Argument
  value : ℕ → Argument

-- `status`: missing or empty, "0", "1", "2", or anything else.
pub data Status : Type 0 where
  no_status complete failed partial other : Status

-- An empty or missing message is 0. `totalSeats` has a default, and may be no number.
pub record Request : Type 0 where
  pub from_loopback : Bool
  pub token : ℕ
  pub chat_id : Argument
  pub msg : ℕ
  pub status : Status
  pub is_multi : Bool
  pub readable_seats : Bool
  pub is_random : Bool

pub data Reminder : Type 0 where
  multi_reminder payment_reminder : ℕ → Reminder

pub record Callbacks : Type 0 where
  pub service : State
  pub has_multi_status : ℕ → Bool
  pub reminders : List Reminder

abbrev pub reminds : Reminder → Callbacks → Callbacks
reminds r w = record w { reminders = w.reminders ++ r ∷ [] }

abbrev pub forget_search : ℕ → State → State
forget_search chat s = drop_login chat (record s { running = erase chat s.running })

-- The branches on the status, after the message was sent.
unfoldable pub handle_status : Status → ℕ → Bool → Callbacks → Callbacks
handle_status failed chat is_random w = record w {
  service = reset_session chat (forget_search chat w.service);
}
handle_status partial chat is_random w =
    if w.has_multi_status chat then reminds (multi_reminder chat) w else w
handle_status complete chat is_random w =
    let w' = if is_random then w else reminds (payment_reminder chat) w in
    record w' { service = forget_search chat (reset_session chat w.service) }
handle_status _ chat is_random w = w

unfoldable pub is_given : Request → Bool
is_given r =
    not (elim r.chat_id [ missing ↦ true | _ ↦ false ])
    && not (r.msg == 0)
    && not (elim r.status [ no_status ↦ true | _ ↦ false ])

-- `int(...)` of both numbers; the second raises after the first, with nothing done yet.
unfoldable pub chat_of : Request → Option ℕ
chat_of r = elim r.chat_id [ value chat ↦ if r.readable_seats then some chat else none | _ ↦ none ]

-- Two secrets; an empty one matches nothing.
unfoldable pub matches : ℕ → ℕ → Bool
matches expected provided = not (expected == 0) && not (provided == 0) && expected == provided

-- The request comes from this machine and carries the token of this run.
unfoldable pub verify_internal_request : ℕ → Request → Bool
verify_internal_request token r = r.from_loopback && matches token r.token

-- The reply's code, and the state after. `token` is the one of this run.
unfoldable pub get : ℕ → Request → Callbacks → ℕ × Callbacks
get token r w =
    if not (verify_internal_request token r)
    then (403, w)
    else if not (is_given r)
    then (200, w)
    else elim (chat_of r) [
      | none ↦ (200, w)
      | some chat ↦ (
        200,
        handle_status r.status chat r.is_random
            (record w { service = tells chat (search_result r.msg) w.service }),
      )
    ]
