-- ===== src/Watchdog/Pass.antt =====
-- A whole check of a chat: its booking and the seats of its run.
use mathlib.Core.List.{append-nil}
use korail_ktx_macro_telegra.Common.{
  ℕ, ◌+◌, ◌≡◌, refl, sym, ap, ◌∙◌, Bool, true, false, Option, none, some, ◌++◌, arith, map,
  if◌then◌else◌, Option-cases, Bool-cases, inl, inr,
}
use korail_ktx_macro_telegra.Common.Dict.{lookup, lookup-insert}
use mathlib.Core.Path.{subst}
use korail_ktx_macro_telegra.Payment.{PaymentStatus, MultiReservationStatus, get_pending_count}
use korail_ktx_macro_telegra.Storage.{
  get_payment_status, get_multi_reservation_status, save_multi_reservation_status,
  claim_payment_watch, release_payment_watch,
}
use korail_ktx_macro_telegra.Telegram.{Outbox}
use korail_ktx_macro_telegra.Watchdog.Settled.{
  OwnRun, announcement, remaining_of, settled_seats, payment_statuses-report_seats,
}
use korail_ktx_macro_telegra.Watchdog.Seats.{settle_seats-IsAnnounced}
use korail_ktx_macro_telegra.Watchdog.Single.{OwnRecord}
use korail_ktx_macro_telegra.Watchdog.{
  Settled, settle_each, newly_settled, Answer, Client, Services, World, settle_single, settle_seats,
  client, check_claimed, check_watching, check, let_go, save_settled, store_settled, still_watching,
}
use korail_ktx_macro_telegra.Watchdog.Reports.{
  IsReportedOf, IsReported, IsAlike, alike_reported, unreported, IsNews, answer_in, IsCheckedBy,
  nobody,
}

module _ (services : Services) (now chat : ℕ) where
  settle_single-IsNews :
      (rail : Client) (w : World) {n : ℕ} {w' : World}
      → OwnRecord chat w.storage
      → settle_single services now chat rail w ≡ (some n, w')
      → IsNews chat (answer_in services rail (get_payment_status chat w.storage)) w n w'
  unfolding settle_single
  settle_single-IsNews rail w own e = elim (Option-cases (get_payment_status chat w.storage)) [
    | inl no_record ↦ ground (arith, append-nil w.sent)
    | inr (p, found) ↦ ground (
      arith,
      append-nil w.sent,
      own p found,
      lookup-insert chat chat
          (let q : PaymentStatus = record p { completed = true; reminder_active = false } in q)
          w.storage.payment_statuses,
    )
  ]

  multi-settle_single :
      (rail : Client) (w : World)
      → (settle_single services now chat rail w).1.storage.multi_statuses ≡ w.storage.multi_statuses
  unfolding settle_single
  multi-settle_single rail w = ground arith

  statuses-save_settled :
      (m : MultiReservationStatus) (xs : Settled) (w : World)
      → (save_settled now chat m xs w).1.storage.payment_statuses ≡ w.storage.payment_statuses
  unfolding save_settled store_settled save_multi_reservation_status
  statuses-save_settled m xs w =
      let m' = record m { reservations = map (λ x. x.0) xs } in
      ground (
        arith,
        payment_statuses-report_seats chat (get_pending_count m' now) (newly_settled xs)
            (record w { storage = save_multi_reservation_status m' w.storage }),
      )

  statuses-settle_seats :
      (rail : Client) (w : World)
      → (settle_seats services now chat rail w).1.storage.payment_statuses
        ≡ w.storage.payment_statuses
  unfolding settle_seats
  statuses-settle_seats rail w = elim (Option-cases (get_multi_reservation_status chat w.storage)) [
    | inl no_run ↦ ground arith
    | inr (m, found) ↦
        elim (Option-cases
          (settle_each (λ r. services.outstanding rail r.reservation_id) now m.reservations)) [
            | inl failed ↦ ground arith
            | inr (xs, done) ↦ ground (arith, statuses-save_settled m xs w)
          ]
  ]

  -- What the two parts of a check report, together.
  both-IsReported :
      (rail : Client) (w w1 w2 : World) (k b : ℕ)
      → OwnRecord chat w.storage
      → OwnRun chat w.storage
      → settle_single services now chat rail w ≡ (some k, w1)
      → settle_seats services now chat rail w1 ≡ (some b, w2)
      → IsReported now chat
          (answer_in services rail (get_payment_status chat w.storage))
          w
          (k + b)
          w2
  unfolding get_payment_status get_multi_reservation_status
  both-IsReported rail w w1 w2 k b own own_run e1 e2 =
      let runs : w1.storage.multi_statuses ≡ w.storage.multi_statuses =
        ap (λ (x : Option ℕ × World). x.1.storage.multi_statuses) (sym e1)
        ∙ multi-settle_single rail w in
      let records : w2.storage.payment_statuses ≡ w1.storage.payment_statuses =
        ap (λ (x : Option ℕ × World). x.1.storage.payment_statuses) (sym e2)
        ∙ statuses-settle_seats rail w1 in
      let run : get_multi_reservation_status chat w1.storage
          ≡ get_multi_reservation_status chat w.storage =
        ap (lookup chat) runs in
      let news = settle_single-IsNews rail w own e1 in
      let seats =
        settle_seats-IsAnnounced services now chat rail w1 (λ m found. own_run m (sym run ∙ found))
          e2 in
      let same_run : get_multi_reservation_status chat w2.storage
          ≡ get_multi_reservation_status chat w2.storage =
        refl in
      let both : IsReportedOf now chat (answer_in services rail (get_payment_status chat w.storage))
          (get_payment_status chat w.storage) (get_multi_reservation_status chat w1.storage) w.sent
          (k + b) (get_payment_status chat w1.storage)
          (get_multi_reservation_status chat w2.storage) w2.sent =
        (
          omega (arith, news.0, seats.0),
          seats.1
              ∙ ap
                  (λ (l : Outbox).
                    l
                    ++ map (announcement chat (remaining_of chat now w2.storage))
                        (settled_seats chat w1 w2))
                  news.1,
        ) in
      alike_reported now chat (answer_in services rail (get_payment_status chat w.storage)) refl
        (sym run) refl (ap (lookup chat) records) same_run refl both

  let_go-IsAlike : (w : World) → IsAlike chat (let_go services now chat w) w
  unfolding let_go release_payment_watch get_payment_status get_multi_reservation_status
  let_go-IsAlike w = ground arith

  -- The world that a check leaves: what it held is let go of, or not.
  either-IsAlike :
      (b : Bool) (w : World) → IsAlike chat (if b then w else let_go services now chat w) w
  either-IsAlike true w = (refl, refl, refl)
  either-IsAlike false w = let_go-IsAlike w

  IsReported-alike :
      (answer : Answer) (w v w' v' : World) {n : ℕ}
      → IsAlike chat w v
      → IsAlike chat w' v'
      → IsReported now chat answer v n v'
      → IsReported now chat answer w n w'
  IsReported-alike answer w v w' v' (a, b, c) (d, e, f) h =
      alike_reported now chat answer a b c d e f h

  claimed-IsReported :
      (rail : Client) (w : World) {n : ℕ} {w' : World}
      → OwnRecord chat w.storage
      → OwnRun chat w.storage
      → check_claimed services now chat (some rail) w ≡ (some n, w')
      → IsReported now chat (answer_in services rail (get_payment_status chat w.storage)) w n w'
  unfolding check_claimed
  claimed-IsReported rail w {n = n} {w' = w'} own own_run e =
      let x = settle_single services now chat rail w in
      elim (Option-cases x.0) [
        | inl failed ↦ absurd (ground arith)
        | inr (k, e0) ↦
            let y = settle_seats services now chat rail x.1 in
            elim (Option-cases y.0) [
              | inl failed ↦ absurd (ground arith)
              | inr (b, e1) ↦
                  let z =
                    if still_watching services chat y.1.storage
                    then y.1
                    else let_go services now chat y.1 in
                  let count : n ≡ k + b = ground arith in
                  let world : w' ≡ z = ground arith in
                  rw (count, world)
                    (IsReported-alike (answer_in services rail (get_payment_status chat w.storage))
                      w w z y.1 (refl, refl, refl)
                      (either-IsAlike (still_watching services chat y.1.storage) y.1)
                      (both-IsReported rail w x.1 y.1 k b own own_run
                        (ap (λ (r : Option ℕ). (r, x.1)) e0) (ap (λ (r : Option ℕ). (r, y.1)) e1)))
            ]
      ]

  client-IsAlike : (w : World) → IsAlike chat (client services chat w).1 w
  unfolding client
  client-IsAlike w = ground arith

  claim-IsAlike :
      (w : World)
      → let s = (claim_payment_watch chat services.owner services.lease now w.storage).1 in
        IsAlike chat (record w { storage = s }) w
  unfolding claim_payment_watch get_payment_status get_multi_reservation_status
  claim-IsAlike w = ground arith

  -- Two worlds that hold the same have records of their own chats alike.
  own-IsAlike :
      (w v : World)
      → IsAlike chat v w
      → OwnRecord chat w.storage
      → OwnRun chat w.storage
      → OwnRecord chat v.storage × OwnRun chat v.storage
  own-IsAlike w v (a, b, c) own own_run =
      ((λ p found. own p (sym a ∙ found)), (λ m found. own_run m (sym b ∙ found)))

  IsAlike-trans : (u v w : World) → IsAlike chat u v → IsAlike chat v w → IsAlike chat u w
  IsAlike-trans u v w (a, b, c) (d, e, f) = (a ∙ d, b ∙ e, c ∙ f)

  -- With the watch claimed and the client found, or not
  watching_reported :
      (rail : Option (Option Client)) (w v : World) {n : ℕ} {w' : World}
      → IsAlike chat v w
      → OwnRecord chat w.storage
      → OwnRun chat w.storage
      → (let z : Option ℕ × World = elim rail [
        | none ↦ (none, v)
        | some c ↦ check_claimed services now chat c v
      ] in
          z ≡ (some n, w'))
      → IsCheckedBy now chat services w n w'
  unfolding check_claimed
  watching_reported none w v alike own own_run e = absurd (ground arith)
  watching_reported (some none) w v {n = n} {w' = w'} alike own own_run e =
      let count : n ≡ 0 = ground arith in
      let world : w' ≡ v = ground arith in
      (
        nobody,
        (let answer = answer_in services nobody (get_payment_status chat w.storage) in
            rw (count, world)
              (IsReported-alike answer w w v w (refl, refl, refl) alike
                (unreported now chat answer w))),
      )
  watching_reported (some (some rail)) w v {n = n} {w' = w'} alike own own_run e =
      let owned = own-IsAlike w v alike own own_run in
      let (a, b, c) = alike in
      (
        rail,
        subst (λ p. IsReported now chat (answer_in services rail p) w n w') a
            (IsReported-alike (answer_in services rail (get_payment_status chat v.storage)) w v w'
              w' (sym a, sym b, sym c) (refl, refl, refl)
              (claimed-IsReported rail v owned.0 owned.1 e)),
      )

  -- Where the records of a chat stand under their own keys and a check of the chat ends without an
  -- exception: it counts the booking, if it was open before and is not after, and the seats of the run
  -- that were; it sends the chat one message for each of these, which says whether it was paid for or
  -- lost, the booking's by what the railway answers a client and each seat's by its new status; and
  -- it sends nothing else. So also where another watcher holds the chat or no client can be had.
  pub check_reports :
      (w : World) {n : ℕ} {w' : World}
      → OwnRecord chat w.storage
      → OwnRun chat w.storage
      → check services now chat w ≡ (some n, w')
      → IsCheckedBy now chat services w n w'
  unfolding check check_watching
  check_reports w {n = n} {w' = w'} own own_run e =
      let claim = claim_payment_watch chat services.owner services.lease now w.storage in
      let v = record w { storage = claim.1 } in
      let u = (client services chat v).1 in
      elim (Bool-cases claim.0) [
        | inl granted ↦
            watching_reported (client services chat v).0 w u
              (IsAlike-trans u v w (client-IsAlike v) (claim-IsAlike w)) own own_run
              (rw granted at e)
        | inr held ↦
            let count : n ≡ 0 = ground arith in
            let world : w' ≡ w = ground arith in
            (
              nobody,
              rw (count, world)
                  (unreported now chat
                    (answer_in services nobody (get_payment_status chat w.storage)) w),
            )
      ]
