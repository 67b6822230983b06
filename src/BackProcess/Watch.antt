-- ===== src/BackProcess/Watch.antt =====
-- How the watch of a search process ends: what it tells the user, and what the app's own watch makes
-- of the record that it leaves.
use mathlib.Core.Bool.{false≢true}
use korail_ktx_macro_telegra.Common.{
  ℕ, ◌+◌, ◌≤◌, ◌≡◌, ◌∙◌, ap, Bool, true, false, none, some, List, [], ◌∷◌, arith, leb, ◌==◌, any,
  length, length-append, All, Option-cases, inl, inr,
}
use korail_ktx_macro_telegra.Common.Dict.{lookup, lookup-insert}
use korail_ktx_macro_telegra.Payment.{PaymentStatus}
use korail_ktx_macro_telegra.Storage.{
  Storage, get_payment_status, save_payment_status, claim_payment_watch, hold_watch,
}
use korail_ktx_macro_telegra.Telegram.{sends, payment_verified, payment_expired_verified}
use korail_ktx_macro_telegra.Watchdog.{Services, World, Client, settle_single, unsettled_single}
use korail_ktx_macro_telegra.PendingPayment.{Desk}
use korail_ktx_macro_telegra.PendingPayment.Silent.{is_done}
use korail_ktx_macro_telegra.BackProcess.{
  Poll, Booked, claim_the_watch, record_pending_payment, settle_payment, settled_status, new_status,
  watch_loop, watch_payment,
}

-- The chat's payment record, if there is one, stands under its own chat; and there is one.
abbrev pub is_own : ℕ → Storage → Bool
is_own chat s = elim (get_payment_status chat s) [ none ↦ true | some p ↦ p.chat_id == chat ]

abbrev has_own : ℕ → Storage → Bool
has_own chat s = elim (get_payment_status chat s) [ none ↦ false | some p ↦ p.chat_id == chat ]

statuses-claim :
    (chat owner ttl now : ℕ) (s : Storage)
    → (claim_payment_watch chat owner ttl now s).1.payment_statuses ≡ s.payment_statuses
unfolding claim_payment_watch hold_watch
statuses-claim chat owner ttl now s = ground arith

module _ (b : Booked) where
  own-claim :
      (now : ℕ) (d : Desk)
      → get_payment_status b.chat_id (claim_the_watch b now d).storage
        ≡ get_payment_status b.chat_id d.storage
  unfolding claim_the_watch get_payment_status
  own-claim now d =
      ap (lookup b.chat_id) (statuses-claim b.chat_id b.watch_owner b.lease now d.storage)

  has_own-claim :
      (now : ℕ) (d : Desk)
      → has_own b.chat_id (claim_the_watch b now d).storage ≡ has_own b.chat_id d.storage
  has_own-claim now d =
      ap (λ o. elim o [ none ↦ false | some p ↦ p.chat_id == b.chat_id ]) (own-claim now d)

  is_own-claim :
      (now : ℕ) (d : Desk)
      → is_own b.chat_id (claim_the_watch b now d).storage ≡ is_own b.chat_id d.storage
  is_own-claim now d =
      ap (λ o. elim o [ none ↦ true | some p ↦ p.chat_id == b.chat_id ]) (own-claim now d)

  -- The record with the booking on it.
  abbrev booked_status : PaymentStatus → PaymentStatus
  booked_status s = record s {
    reservation_id = b.reservation_id;
    train_info = b.train_info;
    operator = b.operator;
    expires_at = some b.deadline;
  }

  own-record :
      (d : Desk)
      → is_own b.chat_id d.storage ≡ true
      → has_own b.chat_id (record_pending_payment b d).storage ≡ true
  unfolding record_pending_payment get_payment_status save_payment_status
  own-record d own = elim (Option-cases (get_payment_status b.chat_id d.storage)) [
    | inl e ↦ ground (
      arith,
      own,
      e,
      lookup-insert b.chat_id b.chat_id (booked_status (new_status b.chat_id b.operator))
          d.storage.payment_statuses,
    )
    | inr (p, e) ↦ ground (
      arith,
      own,
      e,
      lookup-insert p.chat_id b.chat_id (booked_status p) d.storage.payment_statuses,
    )
  ]

  settle_payment_lem :
      (verified : Bool) (d : Desk)
      → has_own b.chat_id d.storage ≡ true
      → let d' = settle_payment b.chat_id verified d in
        (is_done b.chat_id d'.storage ≡ true) × (length d'.sent ≤ length d.sent + 1)
  unfolding settle_payment get_payment_status save_payment_status unsettled_single
  settle_payment_lem verified d own = elim (Option-cases (get_payment_status b.chat_id d.storage)) [
    | inl e ↦ ground (arith, own, e)
    | inr (p, e) ↦ ground (
      arith,
      own,
      e,
      lookup-insert p.chat_id b.chat_id (settled_status p) d.storage.payment_statuses,
      length-append d.sent ((b.chat_id, payment_verified) ∷ []),
      length-append d.sent ((b.chat_id, payment_expired_verified) ∷ []),
    )
  ]

  watch_loop_lem :
      (ps : List Poll) (d : Desk)
      → has_own b.chat_id d.storage ≡ true
      → let (ended, d') = watch_loop b ps d in
        (ended ≡ true → is_done b.chat_id d'.storage ≡ true) × (length d'.sent ≤ length d.sent + 1)
  unfolding watch_loop claim_the_watch
  watch_loop_lem [] d own = ground arith
  watch_loop_lem (p ∷ ps) d own =
      let d1 = claim_the_watch b p.woken d in
      let own1 : has_own b.chat_id d1.storage ≡ true = has_own-claim p.woken d ∙ own in
      ground (
        arith,
        settle_payment_lem true d1 own1,
        settle_payment_lem false d own,
        watch_loop_lem ps d1 own1,
      )

  -- Where the chat's payment record, if any, stands under its own chat: when the watch of the search
  -- process has ended, it has sent at most one message, and no check of the app's own watch reports
  -- the booking again or changes anything, whatever the railway answers and whenever it is asked.
  pub watch_payment_once :
      (start : ℕ) (ps : List Poll) (d : Desk)
      → is_own b.chat_id d.storage ≡ true
      → (watch_payment b start ps d).0 ≡ true
      → (services : Services) (later : ℕ) (rail : Client) (w : World)
      → w.storage ≡ (watch_payment b start ps d).1.storage
      → (length (watch_payment b start ps d).1.sent ≤ length d.sent + 1)
        × (settle_single services later b.chat_id rail w ≡ (some 0, w))
  unfolding watch_payment settle_single claim_the_watch record_pending_payment
  watch_payment_once start ps d own ended services later rail w same =
      let d1 = record_pending_payment b (claim_the_watch b start d) in
      let own1 = own-record (claim_the_watch b start d) (is_own-claim start d ∙ own) in
      let (done, few) = watch_loop_lem ps d1 own1 in
      let over : is_done b.chat_id w.storage ≡ true = ap (is_done b.chat_id) same ∙ done ended in
      (few, ground (arith, over))

  -- While the railway could not be asked.
  abbrev pub Unanswered : Poll → Type 0
  Unanswered p = p.outstanding ≡ none

  loop_of_silence :
      (ps : List Poll) (d : Desk)
      → All Unanswered ps
      → any (λ p. leb b.deadline p.now) ps ≡ true
      → let (ended, d') = watch_loop b ps d in
        (ended ≡ true) × (d'.sent ≡ sends b.chat_id payment_expired_verified d.sent)
  unfolding watch_loop settle_payment claim_the_watch
  loop_of_silence [] d silent past = absurd (false≢true past)
  loop_of_silence (p ∷ ps) d (here, rest) past =
      ground (arith, here, past, loop_of_silence ps (claim_the_watch b p.woken d) rest)

  -- When the railway answers none of the questions of a search process until the deadline has passed,
  -- the user is told that the booking was lost unpaid, though nobody has seen whether it was paid for.
  pub silence_means_loss :
      (start : ℕ) (ps : List Poll) (d : Desk)
      → All Unanswered ps
      → any (λ p. leb b.deadline p.now) ps ≡ true
      → let (ended, d') = watch_payment b start ps d in
        (ended ≡ true) × (d'.sent ≡ sends b.chat_id payment_expired_verified d.sent)
  unfolding watch_payment record_pending_payment claim_the_watch
  silence_means_loss start ps d silent past = loop_of_silence ps _ silent past
