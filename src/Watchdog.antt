-- ===== src/Watchdog.antt =====
-- src/korail_bot/services/payment_watchdog_service.py: the app's own watch on unpaid seats. The
-- railway's answers, its login, and the accounts are parameters. A method that may raise returns
-- `none` beside the state that it left. The clock is read once for each pass.
pub mod Single
pub mod Settled
pub mod Seats
pub mod Reports
pub mod Pass
mod Tests
use korail_ktx_macro_telegra.Common.{
  ℕ, ◌+◌, Bool, true, false, not, ◌&&◌, ◌||◌, Option, none, some, List, [], ◌∷◌, ◌++◌, ◌==◌,
  if◌then◌else◌, any, keep, map, length, sort_by, max,
}
use korail_ktx_macro_telegra.Common.Dict.{Dict, lookup, insert, erase, keys}
use korail_ktx_macro_telegra.Payment.{
  Operator, korail, PaymentStatus, past_deadline, ReservationPaymentStatus, paid, expired,
  is_pending, is_paid, SingleReservationInfo, MultiReservationStatus, get_pending_count,
}
use korail_ktx_macro_telegra.Storage.{
  Storage, get_payment_status, save_payment_status, get_all_payment_statuses,
  get_multi_reservation_status, save_multi_reservation_status, get_all_multi_reservation_statuses,
  get_current_seat_index, mark_payment_ready, claim_payment_watch, release_payment_watch,
}
use korail_ktx_macro_telegra.Telegram.{
  Message, Outbox, sends, payment_verified, payment_expired_verified, payment_verified_seat,
  payment_expired_seat,
}

-- What `is_reservation_outstanding` gives: True, False, None, or an exception.
pub data Answer : Type 0 where
  listed gone unanswered raised : Answer

-- A logged-in client: the railway and the login it was made with.
pub record Client : Type 0 where
  pub operator : Operator
  pub username : ℕ

-- The railways, the accounts and the settings, as a pass finds them. A missing login is 0.
pub record Services : Type 0 where
  pub outstanding : Client → ℕ → Answer
  pub login : Operator → ℕ → ℕ → Bool
  pub get_onboarded_account : ℕ → Operator → Option (ℕ × ℕ)
  pub is_developer : ℕ → Bool
  pub preconfigured : Operator → Option (ℕ × ℕ)
  pub owner : ℕ
  pub lease : ℕ
  pub verify_interval : ℕ
  pub poll_interval : ℕ

pub record World : Type 0 where
  pub storage : Storage
  pub clients : Dict Client
  pub busy : Bool
  pub sent : Outbox

-- `none` is an exception.
abbrev pub M : Type 0 → Type 0
M A = World → Option A × World

infixl 5 ◌>>=◌
abbrev pub ◌>>=◌ : {A B : Type 0} → M A → (A → M B) → M B
◌>>=◌ m f w = let (r, w') = m w in elim r [ none ↦ (none, w') | some a ↦ f a w' ]

unfoldable pub unsettled_single : PaymentStatus → Bool
unsettled_single s = not (s.reservation_id == 0) && not s.completed && not s.cancelled

unfoldable pub unsettled_seats : MultiReservationStatus → Bool
unsettled_seats m = any (λ r. is_pending r.status) m.reservations

-- The record is written, and then the message is sent.
unfoldable pub report_single : ℕ → PaymentStatus → Message → M ℕ
unfolding save_payment_status
report_single chat s message w = (
  some 1,
  record w {
    storage =
        save_payment_status (record s { completed = true; reminder_active = false }) w.storage;
    sent = sends chat message w.sent;
  },
)

unfoldable pub settle_answer : ℕ → ℕ → PaymentStatus → Answer → M ℕ
unfolding report_single past_deadline
settle_answer now chat s raised w = (none, w)
settle_answer now chat s unanswered w = (some 0, w)
settle_answer now chat s listed w =
    if past_deadline s.expires_at now
    then report_single chat s payment_expired_verified w
    else (some 0, w)
settle_answer now chat s gone w = report_single chat s payment_verified w

unfoldable pub release_the_next_seat : ℕ → ℕ → Storage → Storage
unfolding get_current_seat_index mark_payment_ready
release_the_next_seat chat seat s = elim (get_current_seat_index chat s) [
  | none ↦ s
  | some current ↦ if current + 1 == seat then mark_payment_ready chat current s else s
]

-- One seat, given the railway's answer: what it becomes, and whether it is settled now.
unfoldable pub settle_seat :
    ℕ → Answer → SingleReservationInfo → Option (SingleReservationInfo × Bool)
settle_seat now raised r = if is_pending r.status then none else some (r, false)
settle_seat now unanswered r = some (r, false)
settle_seat now listed r =
    if is_pending r.status && past_deadline (some r.expires_at) now
    then some (record r { status = expired }, true)
    else some (r, false)
settle_seat now gone r =
    if is_pending r.status then some (record r { status = paid }, true) else some (r, false)

abbrev pub Settled : Type 0
Settled = List (SingleReservationInfo × Bool)

-- The loop over the seats; an exception ends it, and nothing has been saved then.
unfoldable pub settle_each :
    (SingleReservationInfo → Answer) → ℕ → List SingleReservationInfo → Option Settled
unfolding settle_seat
settle_each answer now [] = some []
settle_each answer now (r ∷ rs) = elim (settle_seat now (answer r) r) [
  | none ↦ none
  | some x ↦ elim (settle_each answer now rs) [ none ↦ none | some xs ↦ some (x ∷ xs) ]
]

-- The settled seats in the order of their numbers.
unfoldable pub newly_settled : Settled → List SingleReservationInfo
newly_settled xs = sort_by (λ r. r.seat_number) (map (λ x. x.0) (keep (λ x. x.1) xs))

unfoldable pub seat_message : SingleReservationInfo → ℕ → Message
seat_message r remaining =
    if is_paid r.status
    then payment_verified_seat r.seat_number r.train_info remaining
    else payment_expired_seat r.seat_number r.train_info remaining

unfoldable pub report_seat : ℕ → ℕ → SingleReservationInfo → World → World
unfolding release_the_next_seat seat_message
report_seat chat remaining r w = record w {
  storage =
      if is_paid r.status then release_the_next_seat chat r.seat_number w.storage else w.storage;
  sent = sends chat (seat_message r remaining) w.sent;
}

unfoldable pub report_seats : ℕ → ℕ → List SingleReservationInfo → World → World
unfolding report_seat
report_seats chat remaining [] w = w
report_seats chat remaining (r ∷ rs) w =
    report_seats chat remaining rs (report_seat chat remaining r w)

-- The run is saved with its new statuses before anything is sent.
unfoldable pub store_settled : ℕ → ℕ → MultiReservationStatus → Settled → World → World
store_settled now chat m xs w =
    let m' = record m { reservations = map (λ x. x.0) xs } in
    report_seats chat (get_pending_count m' now) (newly_settled xs)
      (record w { storage = save_multi_reservation_status m' w.storage })

unfoldable pub save_settled : ℕ → ℕ → MultiReservationStatus → Settled → M ℕ
save_settled now chat m xs w = elim (newly_settled xs) [
  | [] ↦ (some 0, w)
  | r ∷ rs ↦ (some (length (newly_settled xs)), store_settled now chat m xs w)
]

unfoldable pub add_chats : List MultiReservationStatus → List ℕ → List ℕ
unfolding unsettled_seats
add_chats [] chats = chats
add_chats (m ∷ ms) chats = add_chats ms (
    if unsettled_seats m && not (any (λ c. c == m.chat_id) chats)
    then chats ++ m.chat_id ∷ []
    else chats)

unfoldable pub chats_with_unsettled_payments : Storage → List ℕ
unfolding add_chats unsettled_single get_all_payment_statuses get_all_multi_reservation_statuses
chats_with_unsettled_payments s =
    add_chats (get_all_multi_reservation_statuses s)
      (map (λ p. p.chat_id) (keep unsettled_single (get_all_payment_statuses s)))

module _ (services : Services) where
  open services use {
    outstanding, login, get_onboarded_account, is_developer, preconfigured, owner, lease,
    verify_interval, poll_interval,
  }

  unfoldable pub settle_single : ℕ → ℕ → Client → M ℕ
  unfolding settle_answer unsettled_single get_payment_status
  settle_single now chat rail w = elim (get_payment_status chat w.storage) [
    | none ↦ (some 0, w)
    | some s ↦
        if unsettled_single s
        then settle_answer now chat s (outstanding rail s.reservation_id) w
        else (some 0, w)
  ]

  unfoldable pub settle_seats : ℕ → ℕ → Client → M ℕ
  unfolding get_multi_reservation_status
  settle_seats now chat rail w = elim (get_multi_reservation_status chat w.storage) [
    | none ↦ (some 0, w)
    | some m ↦ elim (settle_each (λ r. outstanding rail r.reservation_id) now m.reservations) [
      | none ↦ (none, w)
      | some xs ↦ save_settled now chat m xs w
    ]
  ]

  unfoldable pub operator : ℕ → Storage → Operator
  unfolding unsettled_seats get_multi_reservation_status get_payment_status
  operator chat s =
      let single : Operator = elim (get_payment_status chat s) [
        | none ↦ korail
        | some p ↦ p.operator
      ] in
      elim (get_multi_reservation_status chat s) [
        | none ↦ single
        | some m ↦ if unsettled_seats m then m.operator else single
      ]

  unfoldable pub credentials : ℕ → Operator → ℕ × ℕ
  credentials chat op = elim (get_onboarded_account chat op) [
    | some account ↦ account
    | none ↦
        if is_developer chat
        then elim (preconfigured op) [ none ↦ (0, 0) | some fixed ↦ fixed ]
        else (0, 0)
  ]

  unfoldable pub client : ℕ → M (Option Client)
  unfolding operator credentials
  client chat w = elim (lookup chat w.clients) [
    | some c ↦ (some (some c), w)
    | none ↦
        let op = operator chat w.storage in
        let (username, password) = credentials chat op in
        if username == 0 || password == 0
        then (some none, w)
        else if login op username password
        then (let c : Client = record { operator = op; username = username } in
            (some (some c), record w { clients = insert chat c w.clients }))
        else (some none, w)
  ]

  unfoldable pub still_watching : ℕ → Storage → Bool
  unfolding unsettled_single unsettled_seats get_payment_status get_multi_reservation_status
  still_watching chat s =
      elim (get_payment_status chat s) [ none ↦ false | some p ↦ unsettled_single p ]
      || elim (get_multi_reservation_status chat s) [ none ↦ false | some m ↦ unsettled_seats m ]

  unfoldable pub let_go : ℕ → ℕ → World → World
  unfolding release_payment_watch
  let_go now chat w = record w {
    clients = erase chat w.clients;
    storage = release_payment_watch chat owner now w.storage;
  }

  -- The claim is held: ask, act on the answers, and let go when nothing is left to watch.
  unfoldable pub check_claimed : ℕ → ℕ → Option Client → M ℕ
  unfolding let_go
  check_claimed now chat none w = (some 0, w)
  check_claimed now chat (some rail) w =
      (do
        a ← settle_single now chat rail
        b ← settle_seats now chat rail
        λ w'. (some (a + b), if still_watching chat w'.storage then w' else let_go now chat w'))
        w

  -- With the watch claimed.
  unfoldable pub check_watching : ℕ → ℕ → M ℕ
  check_watching now chat = client chat >>= check_claimed now chat

  unfoldable pub check : ℕ → ℕ → M ℕ
  unfolding claim_payment_watch
  check now chat w =
      let (granted, s) = claim_payment_watch chat owner lease now w.storage in
      if granted then check_watching now chat (record w { storage = s }) else (some 0, w)

  -- The loop over the chats: an exception in one is logged, and the next is checked.
  unfoldable pub check_each : ℕ → List ℕ → World → ℕ × World
  check_each now [] w = (0, w)
  check_each now (c ∷ cs) w =
      let (r, w') = check now c w in
      let (rest, w'') = check_each now cs w' in (elim r [ none ↦ 0 | some n ↦ n ] + rest, w'')

  unfoldable pub let_go_each : ℕ → List ℕ → World → World
  unfolding let_go
  let_go_each now [] w = w
  let_go_each now (c ∷ cs) w = let_go_each now cs (let_go now c w)

  unfoldable pub tick : ℕ → World → ℕ × World
  tick now w =
      let chats = chats_with_unsettled_payments w.storage in
      let (settled, w') = check_each now chats (record w { busy = any (λ c. true) chats }) in
      (settled, let_go_each now (keep (λ k. not (any (λ c. c == k) chats)) (keys w'.clients)) w')

  unfoldable pub next_pass_in : World → ℕ
  next_pass_in w = if w.busy then verify_interval else max poll_interval verify_interval
