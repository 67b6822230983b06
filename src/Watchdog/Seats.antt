-- ===== src/Watchdog/Seats.antt =====
-- The seats of a random-seating run: what a check makes of each, and what it announces.
use korail_ktx_macro_telegra.Common.{
  ◌++◌, ℕ, ◌+◌, ◌≡◌, refl, Bool, true, Option, none, some, List, [], ◌∷◌, arith, map, inl, inr,
  Option-cases, sym, some_inj, ◌≤◌, ◌⊎◌, All2, length, ◌∙◌,
}
use korail_ktx_macro_telegra.Payment.{
  SingleReservationInfo, MultiReservationStatus, is_pending, paid, expired, past_deadline,
}
use korail_ktx_macro_telegra.Storage.{get_multi_reservation_status}
use korail_ktx_macro_telegra.Watchdog.{
  Answer, listed, gone, Client, Services, World, settle_seat, settle_each, Settled, save_settled,
  settle_seats,
}
use korail_ktx_macro_telegra.Watchdog.Settled.{
  announcement, settled_between-settle_each, settle_each-open_seats, open_of, remaining_of,
  settled_seats, IsAnnounced, unchanged-IsAnnounced, same_result, OwnRun, multi-store_settled,
  saved-IsAnnounced, save_settled_counts,
}

-- What the railway's answer makes of a seat: only an open seat changes, to paid if the railway no
-- longer lists it, and to expired if it still does and the deadline has passed.
abbrev pub FollowsAnswer :
    (SingleReservationInfo → Answer) → ℕ → SingleReservationInfo → SingleReservationInfo → Type 0
FollowsAnswer answer now r r' =
    (r' ≡ r)
    ⊎ ((is_pending r.status ≡ true) × (answer r ≡ gone) × (r' ≡ record r { status = paid }))
    ⊎ ((is_pending r.status ≡ true)
        × (answer r ≡ listed)
        × (r.expires_at ≤ now)
        × (r' ≡ record r { status = expired }))

settle_seat-FollowsAnswer :
    (answer : SingleReservationInfo → Answer) (now : ℕ) (r : SingleReservationInfo)
    {x : SingleReservationInfo × Bool}
    → settle_seat now (answer r) r ≡ some x
    → FollowsAnswer answer now r x.0
unfolding settle_seat past_deadline
settle_seat-FollowsAnswer answer now r e = ground arith

-- A loop that ends without an exception has gone through its first seat and the rest.
settle_each-cons :
    (answer : SingleReservationInfo → Answer) (now : ℕ) (r : SingleReservationInfo)
    (rs : List SingleReservationInfo) {ys : Settled}
    → settle_each answer now (r ∷ rs) ≡ some ys
    → (x : SingleReservationInfo × Bool) × (xs : Settled) × (settle_seat now (answer r) r ≡ some x)
      × (settle_each answer now rs ≡ some xs)
      × (ys ≡ x ∷ xs)
settle_each-cons answer now r rs {ys} e =
    go (settle_seat now (answer r) r) (settle_each answer now rs) refl refl
      (unfold settle_each in e)
  where
    go :
        (a : Option (SingleReservationInfo × Bool)) (b : Option Settled)
        → settle_seat now (answer r) r ≡ a
        → settle_each answer now rs ≡ b
        → elim a [ none ↦ none | some x ↦ elim b [ none ↦ none | some xs ↦ some (x ∷ xs) ] ]
          ≡ some ys
        → (x : SingleReservationInfo × Bool) × (xs : Settled) × (settle_seat now (answer r) r
            ≡ some x)
          × (settle_each answer now rs ≡ some xs)
          × (ys ≡ x ∷ xs)
    go none b ea eb h = cc
    go (some x) none ea eb h = cc
    go (some x) (some xs) ea eb h = (x, xs, ea, eb, sym (some_inj h))

settle_each-FollowsAnswer :
    (answer : SingleReservationInfo → Answer) (now : ℕ) (rs : List SingleReservationInfo)
    (ys : Settled)
    → settle_each answer now rs ≡ some ys
    → All2 (FollowsAnswer answer now) rs (map (λ x. x.0) ys)
settle_each-FollowsAnswer answer now [] [] e = tt
settle_each-FollowsAnswer answer now [] (y ∷ ys) e = unfold settle_each in cc
settle_each-FollowsAnswer answer now (r ∷ rs) ys e =
    let (x, xs, ex, exs, whole) = settle_each-cons answer now r rs e in
    rw whole
      (settle_seat-FollowsAnswer answer now r ex, settle_each-FollowsAnswer answer now rs xs exs)

module _ (services : Services) (now chat : ℕ) (rail : Client) (w : World) where
  counts-settle_seats :
      {n : ℕ} {w' : World}
      → OwnRun chat w.storage
      → settle_seats services now chat rail w ≡ (some n, w')
      → (length w'.sent ≡ length w.sent + n)
        × (open_of chat w.storage ≡ n + open_of chat w'.storage)
  unfolding settle_seats
  counts-settle_seats own e = elim (Option-cases (get_multi_reservation_status chat w.storage)) [
    | inl no_run ↦ ground arith
    | inr (m, found) ↦
        elim (Option-cases
          (settle_each (λ r. services.outstanding rail r.reservation_id) now m.reservations)) [
            | inl failed ↦ ground arith
            | inr (xs, done) ↦ ground (
              arith,
              save_settled_counts now chat m xs w (own m found) found (
                  settle_each-open_seats (λ r. services.outstanding rail r.reservation_id) now
                    m.reservations done),
            )
          ]
  ]

  settle_seats-done :
      (m : MultiReservationStatus) (xs : Settled)
      → get_multi_reservation_status chat w.storage ≡ some m
      → settle_each (λ r. services.outstanding rail r.reservation_id) now m.reservations ≡ some xs
      → settle_seats services now chat rail w ≡ save_settled now chat m xs w
  unfolding settle_seats
  settle_seats-done m xs found done = ground arith

  pub settle_seats-IsAnnounced :
      {n : ℕ} {w' : World}
      → OwnRun chat w.storage
      → settle_seats services now chat rail w ≡ (some n, w')
      → IsAnnounced now chat w n w'
  unfolding settle_seats
  settle_seats-IsAnnounced own e =
      elim (Option-cases (get_multi_reservation_status chat w.storage)) [
        | inl no_run ↦
            same_result now chat w 0 w (unchanged-IsAnnounced now chat w) e
              (rw (no_run, settle_seats) refl) (rw (no_run, settle_seats) refl)
        | inr (m, found) ↦
            let answer : SingleReservationInfo → Answer =
              λ r. services.outstanding rail r.reservation_id in
            elim (Option-cases (settle_each answer now m.reservations)) [
              | inl failed ↦ absurd (ground arith)
              | inr (xs, done) ↦
                  saved-IsAnnounced now chat m xs w (own m found) found
                    (settled_between-settle_each answer now m.reservations done)
                    (sym (settle_seats-done m xs found done) ∙ e)
            ]
      ]

  -- Where a run stands under its own chat and a check of its seats ends without an exception: it
  -- counts the seats that were open before and are not after; for each of them, in the order of
  -- their numbers, it sends the chat one message, which says whether that seat is paid for or lost
  -- and how many are still to be paid for, and it sends nothing else; and the open seats before
  -- are those it settled and those open after.
  pub settle_seats_counts :
      {n : ℕ} {w' : World}
      → OwnRun chat w.storage
      → settle_seats services now chat rail w ≡ (some n, w')
      → (n ≡ length (settled_seats chat w w'))
        × (w'.sent
            ≡ w.sent
              ++ map
                  (announcement chat (remaining_of chat now w'.storage))
                  (settled_seats chat w w'))
        × (length w'.sent ≡ length w.sent + n)
        × (open_of chat w.storage ≡ n + open_of chat w'.storage)
  settle_seats_counts own e =
      let told = settle_seats-IsAnnounced own e in
      let counted = counts-settle_seats own e in (told.0, told.1, counted.0, counted.1)

  FollowsAnswer-refl :
      (answer : SingleReservationInfo → Answer) (rs : List SingleReservationInfo)
      → All2 (FollowsAnswer answer now) rs rs
  FollowsAnswer-refl answer [] = tt
  FollowsAnswer-refl answer (r ∷ rs) = (inl refl, FollowsAnswer-refl answer rs)

  run-save_settled :
      (m : MultiReservationStatus) (xs : Settled)
      → m.chat_id ≡ chat
      → get_multi_reservation_status chat w.storage ≡ some m
      → let w' = (save_settled now chat m xs w).1 in
        (get_multi_reservation_status chat w'.storage ≡ some m)
        ⊎ (get_multi_reservation_status chat w'.storage
            ≡ some (record m { reservations = map (λ x. x.0) xs }))
  unfolding save_settled
  run-save_settled m xs own found = ground (arith, multi-store_settled now chat m xs w own)

  settle_seats-failed :
      (m : MultiReservationStatus)
      → get_multi_reservation_status chat w.storage ≡ some m
      → settle_each (λ r. services.outstanding rail r.reservation_id) now m.reservations ≡ none
      → (settle_seats services now chat rail w).1 ≡ w
  unfolding settle_seats
  settle_seats-failed m found failed = ground arith

  -- Where a run stands under its own chat: a check of its seats leaves every seat as it was, or
  -- marks an open seat as paid because the railway no longer lists it, or marks an open seat as
  -- expired because the railway still lists it past its deadline; so also when an exception ends
  -- the check.
  pub settle_seats-FollowsAnswer :
      (m : MultiReservationStatus)
      → m.chat_id ≡ chat
      → get_multi_reservation_status chat w.storage ≡ some m
      → let w' = (settle_seats services now chat rail w).1 in
        (m' : MultiReservationStatus) × (get_multi_reservation_status chat w'.storage ≡ some m')
        × All2
            (FollowsAnswer (λ r. services.outstanding rail r.reservation_id) now)
            m.reservations
            m'.reservations
  settle_seats-FollowsAnswer m own found =
      let answer : SingleReservationInfo → Answer =
        λ r. services.outstanding rail r.reservation_id in
      elim (Option-cases (settle_each answer now m.reservations)) [
        | inl failed ↦
            rw (settle_seats-failed m found failed)
              (m, found, FollowsAnswer-refl answer m.reservations)
        | inr (xs, done) ↦
            rw (settle_seats-done m xs found done) (elim (run-save_settled m xs own found) [
              | inl same ↦ (m, same, FollowsAnswer-refl answer m.reservations)
              | inr saved ↦ (
                record m { reservations = map (λ x. x.0) xs },
                saved,
                settle_each-FollowsAnswer answer now m.reservations xs done,
              )
            ])
      ]
