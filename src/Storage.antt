-- ===== src/Storage.antt =====
-- The part of src/korail_bot/storage/redis.py that the payment services share: the records of one
-- chat under each key prefix, the watch on a payment, and what a random-seating run waits for.
-- Only the watch's expiry is modelled: the others are there to bound what a dead record costs.
pub mod Watch
mod Tests
use korail_ktx_macro_telegra.Common.{
  ℕ, ◌+◌, Bool, true, false, Option, none, some, List, leb, ◌==◌, ltb, if◌then◌else◌,
}
use korail_ktx_macro_telegra.Common.Dict.{Dict, lookup, insert, erase, values}
use korail_ktx_macro_telegra.Payment.{PaymentStatus, MultiReservationStatus}

-- `payment_watch:{chat_id}`: whose the key is, and when Redis drops it.
pub record PaymentWatch : Type 0 where
  pub owner : ℕ
  pub until : ℕ

pub record Storage : Type 0 where
  pub payment_statuses : Dict PaymentStatus
  pub multi_statuses : Dict MultiReservationStatus
  pub payment_watches : Dict PaymentWatch
  pub current_seats : Dict ℕ
  pub payment_ready : ℕ → ℕ → Bool

unfoldable pub get_payment_status : ℕ → Storage → Option PaymentStatus
get_payment_status chat s = lookup chat s.payment_statuses

unfoldable pub save_payment_status : PaymentStatus → Storage → Storage
save_payment_status p s = record s { payment_statuses = insert p.chat_id p s.payment_statuses }

unfoldable pub get_all_payment_statuses : Storage → List PaymentStatus
get_all_payment_statuses s = values s.payment_statuses

unfoldable pub get_multi_reservation_status : ℕ → Storage → Option MultiReservationStatus
get_multi_reservation_status chat s = lookup chat s.multi_statuses

unfoldable pub save_multi_reservation_status : MultiReservationStatus → Storage → Storage
save_multi_reservation_status m s = record s {
  multi_statuses = insert m.chat_id m s.multi_statuses;
}

unfoldable pub get_all_multi_reservation_statuses : Storage → List MultiReservationStatus
get_all_multi_reservation_statuses s = values s.multi_statuses

unfoldable pub get_current_seat_index : ℕ → Storage → Option ℕ
get_current_seat_index chat s = lookup chat s.current_seats

unfoldable pub mark_payment_ready : ℕ → ℕ → Storage → Storage
mark_payment_ready chat seat s = record s {
  payment_ready = λ c i.
      if c == chat then (if i == seat then true else s.payment_ready c i) else s.payment_ready c i;
}

-- GET of the watch: an expired key is not there.
unfoldable pub unexpired : Option PaymentWatch → ℕ → Option ℕ
unexpired none now = none
unexpired (some w) now = if leb w.until now then none else some w.owner

unfoldable pub watch_owner : ℕ → ℕ → Storage → Option ℕ
unfolding unexpired
watch_owner chat now s = unexpired (lookup chat s.payment_watches) now

-- SET with an expiry of `ttl` seconds, and EXPIRE of the owner's own key.
unfoldable pub hold_watch : ℕ → ℕ → ℕ → ℕ → Storage → Storage
hold_watch chat owner ttl now s = record s {
  payment_watches = insert chat (record { owner = owner; until = now + ttl }) s.payment_watches;
}

unfoldable pub claim_payment_watch : ℕ → ℕ → ℕ → ℕ → Storage → Bool × Storage
unfolding watch_owner hold_watch
claim_payment_watch chat owner ttl now s = elim (watch_owner chat now s) [
  | none ↦ (true, hold_watch chat owner ttl now s)
  | some held ↦ if held == owner then (true, hold_watch chat owner ttl now s) else (false, s)
]

unfoldable pub release_payment_watch : ℕ → ℕ → ℕ → Storage → Storage
unfolding watch_owner
release_payment_watch chat owner now s = elim (watch_owner chat now s) [
  | none ↦ s
  | some held ↦
      if held == owner then record s { payment_watches = erase chat s.payment_watches } else s
]
