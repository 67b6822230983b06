-- ===== src/PendingPayment/Silent.antt =====
-- A booking that was given back, seen by the watch on payments: the railway no longer lists it, as
-- it would no longer list one that was paid for.
use korail_ktx_macro_telegra.Common.{
  ℕ, ◌≡◌, ◌∙◌, ap, Bool, true, false, not, none, some, [], ◌∷◌, arith, ◌==◌,
}
use korail_ktx_macro_telegra.Common.Dict.{lookup-insert}
use korail_ktx_macro_telegra.Payment.{PaymentStatus, Operator}
use korail_ktx_macro_telegra.Storage.{
  Storage, get_payment_status, save_payment_status, get_multi_reservation_status,
}
use korail_ktx_macro_telegra.Watchdog.{Services, World, Client, settle_single, unsettled_single}
use korail_ktx_macro_telegra.PendingPayment.{
  Rails, Desk, of_booking, pending_reservations, multi_status, single_status, is_among,
  cancel_seats, cancel_booking, record_cancelled, gives_back, give_back, cancel_items, cancel,
  holding_operator,
}

-- The watch is done with the record.
abbrev pub is_done : ℕ → Storage → Bool
is_done chat s = elim (get_payment_status chat s) [
  | none ↦ false
  | some p ↦ not (unsettled_single p)
]

module _ (rails : Rails) (now chat : ℕ) (p : PaymentStatus) (d : Desk) where
  done-record_cancelled :
      p.chat_id ≡ chat
      → get_payment_status chat d.storage ≡ some p
      → get_multi_reservation_status chat d.storage ≡ none
      → (p.reservation_id == 0) ≡ false
      → is_done chat (record_cancelled chat (of_booking p ∷ []) d.storage) ≡ true
  unfolding record_cancelled cancel_booking cancel_seats is_among get_payment_status
      save_payment_status unsettled_single
  done-record_cancelled own found alone known =
      let q : PaymentStatus = record p {
        cancelled = true;
        completed = true;
        reminder_active = false;
      } in
      ground
        (arith, own, found, alone, known, lookup-insert p.chat_id chat q d.storage.payment_statuses)

  done-give_back :
      (op : Operator)
      → p.chat_id ≡ chat
      → get_payment_status chat d.storage ≡ some p
      → get_multi_reservation_status chat d.storage ≡ none
      → (give_back rails chat op (of_booking p ∷ []) d).0 ≡ true
      → is_done chat (give_back rails chat op (of_booking p ∷ []) d).1.storage ≡ true
  unfolding give_back gives_back
  done-give_back op own found alone = ground (arith, done-record_cancelled own found alone)

  done-cancel :
      p.chat_id ≡ chat
      → get_payment_status chat d.storage ≡ some p
      → get_multi_reservation_status chat d.storage ≡ none
      → (cancel rails now chat d).0 ≡ true
      → is_done chat (cancel rails now chat d).1.storage ≡ true
  unfolding cancel cancel_items pending_reservations holding_operator multi_status single_status
  done-cancel own found alone =
      ground (arith, found, alone, done-give_back p.operator own found alone)

  -- Where a single booking stands under its own chat, and the chat has no run of seats: once it was
  -- given back, no check of the payment watch reports it, as paid for or as lost, or changes anything,
  -- whatever the railway answers and whenever it is asked.
  pub given_back_silent :
      p.chat_id ≡ chat
      → get_payment_status chat d.storage ≡ some p
      → get_multi_reservation_status chat d.storage ≡ none
      → (cancel rails now chat d).0 ≡ true
      → (services : Services) (later : ℕ) (rail : Client) (w : World)
      → w.storage ≡ (cancel rails now chat d).1.storage
      → settle_single services later chat rail w ≡ (some 0, w)
  unfolding settle_single
  given_back_silent own found alone done services later rail w same =
      let over : is_done chat w.storage ≡ true =
        ap (is_done chat) same ∙ done-cancel own found alone done in
      ground (arith, over)
