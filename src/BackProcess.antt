-- ===== src/BackProcess.antt =====
-- The watch on a payment of src/korail_bot/telegramBot/telebotBackProcess.py: what the search process
-- does after it has booked a seat. Each pass of its loop takes the clock at the loop's test and the
-- railway's answer, which are parameters; a call of the storage does not fail here.
pub mod Watch
mod Tests
use korail_ktx_macro_telegra.Common.{
  ℕ, Bool, true, false, Option, none, some, List, [], ◌∷◌, ltb, if◌then◌else◌,
}
use korail_ktx_macro_telegra.Payment.{Operator, PaymentStatus}
use korail_ktx_macro_telegra.Storage.{
  Storage, get_payment_status, save_payment_status, claim_payment_watch,
}
use korail_ktx_macro_telegra.Telegram.{payment_verified, payment_expired_verified}
use korail_ktx_macro_telegra.PendingPayment.{Desk, tell}

-- One pass: the clock at the test of the loop and after the sleep, and whether the reservation is still
-- listed (`none`: no answer).
pub record Poll : Type 0 where
  pub now : ℕ
  pub woken : ℕ
  pub outstanding : Option Bool

-- The booking that is watched, and who watches it.
pub record Booked : Type 0 where
  pub chat_id : ℕ
  pub reservation_id : ℕ
  pub train_info : ℕ
  pub operator : Operator
  pub deadline : ℕ
  pub watch_owner : ℕ
  pub lease : ℕ

abbrev pub new_status : ℕ → Operator → PaymentStatus
new_status chat op = record {
  chat_id = chat;
  completed = false;
  created_at = none;
  reminder_active = false;
  reservation_id = 0;
  train_info = 0;
  operator = op;
  expires_at = none;
  cancelled = false;
}

unfoldable pub claim_the_watch : Booked → ℕ → Desk → Desk
claim_the_watch b now d = record d {
  storage = (claim_payment_watch b.chat_id b.watch_owner b.lease now d.storage).1;
}

unfoldable pub record_pending_payment : Booked → Desk → Desk
record_pending_payment b d =
    let status : PaymentStatus = elim (get_payment_status b.chat_id d.storage) [
      | none ↦ new_status b.chat_id b.operator
      | some s ↦ s
    ] in
    record d {
      storage =
          save_payment_status
            (record status {
              reservation_id = b.reservation_id;
              train_info = b.train_info;
              operator = b.operator;
              expires_at = some b.deadline;
            })
            d.storage;
    }

abbrev pub settled_status : PaymentStatus → PaymentStatus
settled_status s = record s { completed = true; reminder_active = false }

-- Whether a message is sent: always for a booking that was lost, and for one that was paid for only
-- if the record did not say so before.
unfoldable pub settle_payment : ℕ → Bool → Desk → Desk
settle_payment chat verified d = elim (get_payment_status chat d.storage) [
  | none ↦ tell chat (if verified then payment_verified else payment_expired_verified) d
  | some s ↦
      let d' = record d { storage = save_payment_status (settled_status s) d.storage } in
      if verified
      then (if s.completed then d' else tell chat payment_verified d')
      else tell chat payment_expired_verified d'
]

-- The loop. The result says whether it has ended, which it has not when the passes run out.
unfoldable pub watch_loop : Booked → List Poll → Desk → Bool × Desk
watch_loop b [] d = (false, d)
watch_loop b (p ∷ ps) d =
    if ltb p.now b.deadline
    then elim p.outstanding [
      | some false ↦ (true, settle_payment b.chat_id true (claim_the_watch b p.woken d))
      | _ ↦ watch_loop b ps (claim_the_watch b p.woken d)
    ]
    else (true, settle_payment b.chat_id false d)

-- From the moment `start` on, for a reservation that has a number.
unfoldable pub watch_payment : Booked → ℕ → List Poll → Desk → Bool × Desk
watch_payment b start ps d = watch_loop b ps (record_pending_payment b (claim_the_watch b start d))
