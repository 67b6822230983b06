-- ===== src/Watchdog/Single.antt =====
-- One booking: it is reported once, and what the report says.
use korail_ktx_macro_telegra.Common.{ℕ, ◌≡◌, true, false, some, arith, inl, inr, Option-cases}
use korail_ktx_macro_telegra.Common.Dict.{lookup-insert}
use korail_ktx_macro_telegra.Payment.{PaymentStatus}
use korail_ktx_macro_telegra.Storage.{Storage, get_payment_status}
use korail_ktx_macro_telegra.Telegram.{sends, payment_verified}
use korail_ktx_macro_telegra.Watchdog.{
  gone, Client, Services, World, unsettled_single, settle_single,
}

-- A payment record stands under the key of its own chat.
abbrev pub OwnRecord : ℕ → Storage → Type 0
OwnRecord chat s = (p : PaymentStatus) → get_payment_status chat s ≡ some p → p.chat_id ≡ chat

module _ (services : Services) (now chat : ℕ) (rail : Client) (w : World) where
  -- Where the payment record stands under its own chat: once a check reported a booking of the
  -- chat, as paid for or as lost, no later check reports it again or changes anything, whatever the
  -- railway answers then.
  pub settle_single_once :
      {w' : World}
      → OwnRecord chat w.storage
      → settle_single services now chat rail w ≡ (some 1, w')
      → (services' : Services) (later : ℕ) (rail' : Client)
      → settle_single services' later chat rail' w' ≡ (some 0, w')
  unfolding settle_single
  settle_single_once {w'} own e services' later rail' =
      elim (Option-cases (get_payment_status chat w.storage)) [
        | inl gone_record ↦ ground arith
        | inr (p, found) ↦ ground (
          arith,
          own p found,
          lookup-insert chat chat
              (let q : PaymentStatus = record p { completed = true; reminder_active = false } in q)
              w.storage.payment_statuses,
        )
      ]

  -- A booking that is not settled and that the railway no longer lists is reported as paid for, at
  -- whatever time it is asked, so also after the booking's deadline, when the railway drops what
  -- was not paid for.
  pub gone_means_paid :
      (p : PaymentStatus)
      → get_payment_status chat w.storage ≡ some p
      → unsettled_single p ≡ true
      → services.outstanding rail p.reservation_id ≡ gone
      → let (result, w') = settle_single services now chat rail w in
        (result ≡ some 1) × (w'.sent ≡ sends chat payment_verified w.sent)
  unfolding settle_single
  gone_means_paid p found open_one answer = ground arith
