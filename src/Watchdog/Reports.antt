-- ===== src/Watchdog/Reports.antt =====
-- What a check of a chat reports: its booking, and the seats of its run.
use mathlib.Core.List.{append-nil}
use korail_ktx_macro_telegra.Common.{
  ℕ, ◌+◌, ◌≡◌, refl, sym, ◌∙◌, Bool, true, false, not, ◌&&◌, Option, none, some, List, [], ◌∷◌,
  ◌++◌, map, length, if◌then◌else◌, sort_by,
}
use korail_ktx_macro_telegra.Payment.{
  korail, PaymentStatus, SingleReservationInfo, MultiReservationStatus,
}
use korail_ktx_macro_telegra.Storage.{get_payment_status, get_multi_reservation_status}
use korail_ktx_macro_telegra.Telegram.{Message, Outbox, payment_verified, payment_expired_verified}
use korail_ktx_macro_telegra.Watchdog.Settled.{
  seats_in, remaining_in, settled_between, settled_between-same, announcement,
}
use korail_ktx_macro_telegra.Watchdog.{
  Answer, unanswered, gone, Client, Services, World, unsettled_single,
}

-- The chat has a booking whose fate is not known.
abbrev is_open_in : Option PaymentStatus → Bool
is_open_in none = false
is_open_in (some p) = unsettled_single p

abbrev verdict : Answer → Message
verdict gone = payment_verified
verdict _ = payment_expired_verified

-- What is said of a booking that was open before and is not after, given the railway's answer
abbrev booking_news : ℕ → Answer → World → World → List (ℕ × Message)
booking_news chat answer w w' =
    if is_open_in (get_payment_status chat w.storage)
      && not (is_open_in (get_payment_status chat w'.storage))
    then (chat, verdict answer) ∷ []
    else []

-- The same of what is stored and sent: the booking's record, the run, and the messages, before and after
abbrev pub IsReportedOf :
    ℕ
    → ℕ
    → Answer
    → Option PaymentStatus
    → Option MultiReservationStatus
    → Outbox
    → ℕ
    → Option PaymentStatus
    → Option MultiReservationStatus
    → Outbox
    → Type 0
IsReportedOf now chat answer p r out n p' r' out' =
    let news : List (ℕ × Message) =
      if is_open_in p && not (is_open_in p') then (chat, verdict answer) ∷ [] else [] in
    let seats : List SingleReservationInfo =
      sort_by (λ x. x.seat_number) (settled_between (seats_in r) (seats_in r')) in
    (n ≡ length news + length seats)
    × (out' ≡ out ++ news ++ map (announcement chat (remaining_in now r')) seats)

abbrev pub IsReported : ℕ → ℕ → Answer → World → ℕ → World → Type 0
IsReported now chat answer w n w' =
    IsReportedOf now chat answer (get_payment_status chat w.storage)
      (get_multi_reservation_status chat w.storage) w.sent n (get_payment_status chat w'.storage)
      (get_multi_reservation_status chat w'.storage) w'.sent

-- Two worlds hold the same of a chat's payments, and the same was sent.
abbrev pub IsAlike : ℕ → World → World → Type 0
IsAlike chat w v =
    (get_payment_status chat w.storage ≡ get_payment_status chat v.storage)
    × (get_multi_reservation_status chat w.storage ≡ get_multi_reservation_status chat v.storage)
    × (w.sent ≡ v.sent)

pub alike_reported :
    (now chat : ℕ) (answer : Answer) {p q p' q' : Option PaymentStatus}
    {r s r' s' : Option MultiReservationStatus} {o u o' u' : Outbox} {n : ℕ}
    → p ≡ q
    → r ≡ s
    → o ≡ u
    → p' ≡ q'
    → r' ≡ s'
    → o' ≡ u'
    → IsReportedOf now chat answer q s u n q' s' u'
    → IsReportedOf now chat answer p r o n p' r' o'
alike_reported now chat answer a b c d e f h = rw (a, b, c, d, e, f) h

pub unreported : (now chat : ℕ) (answer : Answer) (w : World) → IsReported now chat answer w 0 w
unreported now chat answer w =
    let same = settled_between-same (seats_in (get_multi_reservation_status chat w.storage)) in
    go (is_open_in (get_payment_status chat w.storage))
      (settled_between (seats_in (get_multi_reservation_status chat w.storage))
        (seats_in (get_multi_reservation_status chat w.storage)))
      same
  where
    go :
        (b : Bool) (seats : List SingleReservationInfo)
        → seats ≡ []
        → let news : List (ℕ × Message) = if b && not b then (chat, verdict answer) ∷ [] else [] in
          (0 ≡ length news + length (sort_by (λ x. x.seat_number) seats))
          × (w.sent
              ≡ w.sent
                ++ news
                ++ map
                    (announcement chat
                      (remaining_in now (get_multi_reservation_status chat w.storage)))
                    (sort_by (λ x. x.seat_number) seats))
    go true seats e = rw e (refl, sym (append-nil (w.sent ++ []) ∙ append-nil w.sent))
    go false seats e = rw e (refl, sym (append-nil (w.sent ++ []) ∙ append-nil w.sent))

abbrev pub IsNews : ℕ → Answer → World → ℕ → World → Type 0
IsNews chat answer w n w' =
    (n ≡ length (booking_news chat answer w w'))
    × (w'.sent ≡ w.sent ++ booking_news chat answer w w')

abbrev pub answer_in : Services → Client → Option PaymentStatus → Answer
answer_in services rail none = unanswered
answer_in services rail (some p) = services.outstanding rail p.reservation_id

-- A report by what the railway answers some client of the booking that was open
abbrev pub IsCheckedBy : ℕ → ℕ → Services → World → ℕ → World → Type 0
IsCheckedBy now chat services w n w' =
    (rail : Client) × IsReported now chat
      (answer_in services rail (get_payment_status chat w.storage)) w n w'

-- Where no client is asked
abbrev pub nobody : Client
nobody = record { operator = korail; username = 0 }
