-- ===== src/Watchdog/Settled.antt =====
-- Which seats of a run a check settles, and what is sent for them.
use mathlib.Core.List.{append-nil, append_assoc}
use korail_ktx_macro_telegra.Common.{List-cases, ap}
use mathlib.Core.Path.{ap₂}
use korail_ktx_macro_telegra.Telegram.{Message, payment_verified_seat, payment_expired_seat}
use korail_ktx_macro_telegra.Common.{
  ◌++◌, not, ◌&&◌, if◌then◌else◌, ℕ, ◌+◌, ◌≡◌, refl, Option, none, some, List, [], ◌∷◌, arith, map,
  keep, inl, inr, Option-cases, sym, some_inj, length, length-append, count_if, length-sort_by,
  length-map, length-keep, ◌∙◌, sort_by, ap, List-cases,
}
use korail_ktx_macro_telegra.Common.Dict.{lookup-insert_eq}
use korail_ktx_macro_telegra.Payment.{
  SingleReservationInfo, MultiReservationStatus, is_pending, is_paid, get_pending_count,
}
use korail_ktx_macro_telegra.Storage.{
  Storage, get_multi_reservation_status, save_multi_reservation_status, mark_payment_ready,
}
use korail_ktx_macro_telegra.Watchdog.{
  Answer, World, settle_seat, settle_each, newly_settled, Settled, report_seats, store_settled,
  save_settled, report_seat, seat_message,
}

-- The seats whose fate is not known.
abbrev open_seats : List SingleReservationInfo → ℕ
open_seats = count_if (λ r. is_pending r.status)

abbrev settled_count : Settled → ℕ
settled_count = count_if (λ x. x.1)

-- The seats of a run that were open before and are not after, as they are after
abbrev pub settled_between :
    List SingleReservationInfo → List SingleReservationInfo → List SingleReservationInfo
settled_between [] after = []
settled_between (r ∷ rs) [] = []
settled_between (r ∷ rs) (r' ∷ after) =
    if is_pending r.status && not (is_pending r'.status)
    then r' ∷ settled_between rs after
    else settled_between rs after

-- What a chat is told of a seat that is paid for, or lost unpaid
abbrev pub announcement : ℕ → ℕ → SingleReservationInfo → ℕ × Message
announcement chat remaining r = (
  chat,
  if is_paid r.status
      then payment_verified_seat r.seat_number r.train_info remaining
      else payment_expired_seat r.seat_number r.train_info remaining,
)

pub settled_between-settle_each :
    (answer : SingleReservationInfo → Answer) (now : ℕ) (rs : List SingleReservationInfo)
    {xs : Settled}
    → settle_each answer now rs ≡ some xs
    → settled_between rs (map (λ x. x.0) xs) ≡ map (λ x. x.0) (keep (λ x. x.1) xs)
unfolding settle_each settle_seat
settled_between-settle_each answer now [] e = ground arith
settled_between-settle_each answer now (r ∷ rs) e =
    elim (Option-cases (settle_each answer now rs)) [
      | inl failed ↦ ground arith
      | inr (ys, h) ↦ ground (arith, settled_between-settle_each answer now rs h)
    ]

pub settled_between-same : (rs : List SingleReservationInfo) → settled_between rs rs ≡ []
settled_between-same [] = refl
settled_between-same (r ∷ rs) = ground (arith, settled_between-same rs)

-- Every seat that is settled was open, and is not any more.
pub settle_each-open_seats :
    (answer : SingleReservationInfo → Answer) (now : ℕ) (rs : List SingleReservationInfo)
    {xs : Settled}
    → settle_each answer now rs ≡ some xs
    → open_seats rs ≡ settled_count xs + open_seats (map (λ x. x.0) xs)
unfolding settle_each
settle_each-open_seats answer now [] e = ground arith
settle_each-open_seats answer now (r ∷ rs) e = elim (Option-cases (settle_each answer now rs)) [
  | inl failed ↦ ground arith
  | inr (ys, h) ↦ ground (arith, settle_each-open_seats answer now rs h)
]

length-newly_settled : (xs : Settled) → length (newly_settled xs) ≡ settled_count xs
unfolding newly_settled
length-newly_settled xs =
    length-sort_by (λ r. r.seat_number) (map (λ x. x.0) (keep (λ x. x.1) xs))
    ∙ length-map (keep (λ x. x.1) xs) (λ x. x.0)
    ∙ length-keep (λ x. x.1) xs

module _ (chat remaining : ℕ) where
  length-report_seats :
      (rs : List SingleReservationInfo) (w : World)
      → length (report_seats chat remaining rs w).sent ≡ length w.sent + length rs
  unfolding report_seats
  length-report_seats [] w = omega arith
  length-report_seats (r ∷ rs) w = omega (
    arith,
    length-report_seats rs (report_seat chat remaining r w),
    length-append w.sent ((chat, seat_message r remaining) ∷ []),
  )

  sent-report_seats :
      (rs : List SingleReservationInfo) (w : World)
      → (report_seats chat remaining rs w).sent ≡ w.sent ++ map (announcement chat remaining) rs
  unfolding report_seats report_seat seat_message
  sent-report_seats [] w = sym (append-nil w.sent)
  sent-report_seats (r ∷ rs) w =
      sent-report_seats rs (report_seat chat remaining r w)
      ∙ append_assoc w.sent (announcement chat remaining r ∷ []) _

  multi_statuses-report_seat :
      (r : SingleReservationInfo) (w : World)
      → (report_seat chat remaining r w).storage.multi_statuses ≡ w.storage.multi_statuses
  unfolding report_seat mark_payment_ready
  multi_statuses-report_seat r w = ground arith

  multi_statuses-report_seats :
      (rs : List SingleReservationInfo) (w : World)
      → (report_seats chat remaining rs w).storage.multi_statuses ≡ w.storage.multi_statuses
  multi_statuses-report_seats [] w = unfold report_seats in refl
  multi_statuses-report_seats (r ∷ rs) w =
      unfold_step r rs w (multi_statuses-report_seats rs (report_seat chat remaining r w))
    where
      unfold_step :
          (r : SingleReservationInfo) (rs : List SingleReservationInfo) (w : World)
          → (report_seats chat remaining rs (report_seat chat remaining r w)).storage.multi_statuses
            ≡ (report_seat chat remaining r w).storage.multi_statuses
          → (report_seats chat remaining (r ∷ rs) w).storage.multi_statuses
            ≡ w.storage.multi_statuses
      unfold_step r rs w ih = unfold report_seats in ih ∙ multi_statuses-report_seat r w

  payment_statuses-report_seat :
      (r : SingleReservationInfo) (w : World)
      → (report_seat chat remaining r w).storage.payment_statuses ≡ w.storage.payment_statuses
  unfolding report_seat mark_payment_ready
  payment_statuses-report_seat r w = ground arith

  pub payment_statuses-report_seats :
      (rs : List SingleReservationInfo) (w : World)
      → (report_seats chat remaining rs w).storage.payment_statuses ≡ w.storage.payment_statuses
  payment_statuses-report_seats [] w = unfold report_seats in refl
  payment_statuses-report_seats (r ∷ rs) w =
      unfold_step r rs w (payment_statuses-report_seats rs (report_seat chat remaining r w))
    where
      unfold_step :
          (r : SingleReservationInfo) (rs : List SingleReservationInfo) (w : World)
          → (report_seats chat remaining rs
              (report_seat chat remaining r w)).storage.payment_statuses
            ≡ (report_seat chat remaining r w).storage.payment_statuses
          → (report_seats chat remaining (r ∷ rs) w).storage.payment_statuses
            ≡ w.storage.payment_statuses
      unfold_step r rs w ih = unfold report_seats in ih ∙ payment_statuses-report_seat r w

-- The seats of the chat's run whose fate is not known; none when there is no run.
abbrev pub open_of : ℕ → Storage → ℕ
open_of chat s = elim (get_multi_reservation_status chat s) [
  | none ↦ 0
  | some m ↦ open_seats m.reservations
]

-- The seats of the chat's run; none when there is no run.
abbrev pub seats_in : Option MultiReservationStatus → List SingleReservationInfo
seats_in none = []
seats_in (some m) = m.reservations

abbrev seats_of : ℕ → Storage → List SingleReservationInfo
seats_of chat s = seats_in (get_multi_reservation_status chat s)

-- How many seats of the chat's run are still to be paid for
abbrev pub remaining_in : ℕ → Option MultiReservationStatus → ℕ
remaining_in now none = 0
remaining_in now (some m) = get_pending_count m now

abbrev pub remaining_of : ℕ → ℕ → Storage → ℕ
remaining_of chat now s = remaining_in now (get_multi_reservation_status chat s)

-- The seats that were open before and are not after, in the order of their numbers
abbrev pub settled_seats : ℕ → World → World → List SingleReservationInfo
settled_seats chat w w' =
    sort_by (λ r. r.seat_number)
      (settled_between (seats_of chat w.storage) (seats_of chat w'.storage))

-- Each seat that is settled is announced, by one message of its own, and nothing else is sent.
abbrev pub IsAnnounced : ℕ → ℕ → World → ℕ → World → Type 0
IsAnnounced now chat w n w' =
    (n ≡ length (settled_seats chat w w'))
    × (w'.sent
        ≡ w.sent
          ++ map (announcement chat (remaining_of chat now w'.storage)) (settled_seats chat w w'))

settled_seats-same : (chat : ℕ) (w : World) → settled_seats chat w w ≡ []
settled_seats-same chat w =
    ap (sort_by (λ r. r.seat_number)) (settled_between-same (seats_of chat w.storage))

pub unchanged-IsAnnounced : (now chat : ℕ) (w : World) → IsAnnounced now chat w 0 w
unchanged-IsAnnounced now chat w = rw (settled_seats-same chat w) (refl, sym (append-nil w.sent))

pub same_result :
    (now chat : ℕ) (w : World) (k : ℕ) (v : World) {n : ℕ} {w' : World} {x : Option ℕ × World}
    → IsAnnounced now chat w k v
    → x ≡ (some n, w')
    → x.0 ≡ some k
    → x.1 ≡ v
    → IsAnnounced now chat w n w'
same_result now chat w k v h e e0 e1 =
    let k_is = some_inj (sym (ap (λ (y : Option ℕ × World). y.0) e) ∙ e0) in
    let v_is = sym (ap (λ (y : Option ℕ × World). y.1) e) ∙ e1 in rw (k_is, v_is) h

-- A run stands under the key of its own chat.
abbrev pub OwnRun : ℕ → Storage → Type 0
OwnRun chat s =
    (m : MultiReservationStatus) → get_multi_reservation_status chat s ≡ some m → m.chat_id ≡ chat

module _ (now chat : ℕ) (m : MultiReservationStatus) (xs : Settled) (w : World) where
  length-store_settled :
      length (store_settled now chat m xs w).sent ≡ length w.sent + settled_count xs
  unfolding store_settled save_multi_reservation_status
  length-store_settled =
      let m' = record m { reservations = map (λ x. x.0) xs } in
      length-report_seats chat (get_pending_count m' now) (newly_settled xs)
        (record w { storage = save_multi_reservation_status m' w.storage })
      ∙ rw (length-newly_settled xs)

  sent-store_settled :
      (store_settled now chat m xs w).sent
      ≡ w.sent
        ++ map
            (announcement chat
              (get_pending_count (record m { reservations = map (λ x. x.0) xs }) now))
            (newly_settled xs)
  unfolding store_settled
  sent-store_settled =
      let m' = record m { reservations = map (λ x. x.0) xs } in
      sent-report_seats chat (get_pending_count m' now) (newly_settled xs)
        (record w { storage = save_multi_reservation_status m' w.storage })

  pub multi-store_settled :
      m.chat_id ≡ chat
      → get_multi_reservation_status chat (store_settled now chat m xs w).storage
        ≡ some (record m { reservations = map (λ x. x.0) xs })
  unfolding store_settled get_multi_reservation_status save_multi_reservation_status
  multi-store_settled own =
      let m' = record m { reservations = map (λ x. x.0) xs } in
      rw
        (multi_statuses-report_seats chat (get_pending_count m' now) (newly_settled xs)
          (record w { storage = save_multi_reservation_status m' w.storage }))
        (lookup-insert_eq m' w.storage.multi_statuses own)

  stored-IsAnnounced :
      m.chat_id ≡ chat
      → get_multi_reservation_status chat w.storage ≡ some m
      → settled_between m.reservations (map (λ x. x.0) xs) ≡ map (λ x. x.0) (keep (λ x. x.1) xs)
      → IsAnnounced now chat w (length (newly_settled xs)) (store_settled now chat m xs w)
  unfolding newly_settled
  stored-IsAnnounced own found between =
      let after = multi-store_settled own in
      let seats : settled_seats chat w (store_settled now chat m xs w) ≡ newly_settled xs =
        ap (sort_by (λ r. r.seat_number))
          (ap₂ settled_between (ap seats_in found) (ap seats_in after) ∙ between) in
      rw (seats, ap (remaining_in now) after) (refl, sent-store_settled)

  pub saved-IsAnnounced :
      {n : ℕ} {w' : World}
      → m.chat_id ≡ chat
      → get_multi_reservation_status chat w.storage ≡ some m
      → settled_between m.reservations (map (λ x. x.0) xs) ≡ map (λ x. x.0) (keep (λ x. x.1) xs)
      → save_settled now chat m xs w ≡ (some n, w')
      → IsAnnounced now chat w n w'
  unfolding save_settled
  saved-IsAnnounced own found between e = elim (List-cases (newly_settled xs)) [
    | inl none_settled ↦
        same_result now chat w 0 w (unchanged-IsAnnounced now chat w) e
          (rw (none_settled, save_settled) refl) (rw (none_settled, save_settled) refl)
    | inr (r, rs, settled) ↦
        let count = ap (λ (l : List SingleReservationInfo). some (length l)) settled in
        same_result now chat w (length (newly_settled xs)) (store_settled now chat m xs w)
          (stored-IsAnnounced own found between) e (rw (settled, save_settled) count)
          (rw (settled, save_settled) refl)
  ]

  pub save_settled_counts :
      m.chat_id ≡ chat
      → get_multi_reservation_status chat w.storage ≡ some m
      → open_seats m.reservations ≡ settled_count xs + open_seats (map (λ x. x.0) xs)
      → let (result, w') = save_settled now chat m xs w in
        (result ≡ some (settled_count xs))
        × (length w'.sent ≡ length w.sent + settled_count xs)
        × (open_seats m.reservations ≡ settled_count xs + open_of chat w'.storage)
  unfolding save_settled
  save_settled_counts own found opened =
      ground (arith, length-newly_settled xs, length-store_settled, multi-store_settled own, found)
