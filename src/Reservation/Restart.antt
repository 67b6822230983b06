-- ===== src/Reservation/Restart.antt =====
-- What a restart makes of the records that the run before left behind.
use korail_ktx_macro_telegra.Common.{
  ℕ, ◌+◌, ◌≡◌, refl, Bool, true, false, not, ◌||◌, none, some, List, [], ◌∷◌, arith, Option-cases,
  inl, inr, keep, any, length, length-keep, count_if, ◌==◌,
}
use korail_ktx_macro_telegra.Common.Dict.{Dict, lookup, values, lookup-erase}
use korail_ktx_macro_telegra.Telegram.{reservation_resumed}
use korail_ktx_macro_telegra.Reservation.Process.{
  RunningReservation, State, Os, Config, Credentials, is_stale, terminate_search_process,
}
use korail_ktx_macro_telegra.Reservation.Start.{start_reservation_process}
use korail_ktx_macro_telegra.Reservation.Ending.{
  resume, abandon, Summary, reconcile_one, reconcile_each, reconcile_after_restart,
}
use korail_ktx_macro_telegra.Reservation.Fields.{running-reset_session}
use korail_ktx_macro_telegra.Reservation.Outcome.{start_lem, is_admitted}
use korail_ktx_macro_telegra.Reservation.Keyed.{IsKeyed, running-terminate}

module _ (c : Config) where
  -- The chat's record, if it has one, is of this run.
  abbrev pub fresh_at : ℕ → Dict RunningReservation → Bool
  fresh_at j d = elim (lookup j d) [ none ↦ true | some r ↦ not (is_stale c.run_id r) ]

  fresh-start :
      (os : Os) (r : RunningReservation) (login : Credentials) (j : ℕ) (s : State)
      → let (done, s') =
          start_reservation_process c os r.chat_id login r.search_params true reservation_resumed
            s in
        (done ≡ true → fresh_at j s'.running ≡ (r.chat_id == j || fresh_at j s.running))
        × (r.chat_id == j ≡ false → fresh_at j s'.running ≡ fresh_at j s.running)
  unfolding is_admitted is_stale
  fresh-start os r login j s =
      ground (arith, start_lem c r.chat_id login r.search_params reservation_resumed j os true s)

  fresh-resume :
      (os : Os) (r : RunningReservation) (j : ℕ) (s : State)
      → let (done, s') = resume c os r s in
        (done ≡ true → fresh_at j s'.running ≡ (r.chat_id == j || fresh_at j s.running))
        × (r.chat_id == j ≡ false → fresh_at j s'.running ≡ fresh_at j s.running)
  unfolding resume
  fresh-resume os r j s = elim (Option-cases (lookup r.chat_id s.resume_credentials)) [
    | inl e ↦ ground (arith, e)
    | inr (l, e) ↦ ground (arith, e, fresh-start os r l j s)
  ]

  fresh-abandon :
      (r : RunningReservation) (j : ℕ) (s : State)
      → fresh_at j (abandon r s).running ≡ (r.chat_id == j || fresh_at j s.running)
  unfolding abandon
  fresh-abandon r j s =
      rw (running-reset_session r.chat_id _) (ground (arith, lookup-erase r.chat_id j s.running))

  reconcile_one_lem :
      (os : Os) (r : RunningReservation) (n : Summary) (j : ℕ) (s : State)
      → let (n', s') = reconcile_one c os r (n, s) in
        (fresh_at j s'.running ≡ (r.chat_id == j || fresh_at j s.running))
        × (n'.resumed + n'.interrupted ≡ n.resumed + n.interrupted + 1)
  unfolding reconcile_one
  reconcile_one_lem os r n j s =
      let s1 = (terminate_search_process os r.process_id s).1 in
      ground (
        arith,
        running-terminate os r.process_id s,
        fresh-resume os r j s1,
        fresh-abandon r j (resume c os r s1).1,
      )

  -- One of the records is the chat's.
  abbrev names : ℕ → List RunningReservation → Bool
  names j rs = any (λ r. r.chat_id == j) rs

  reconcile_each_lem :
      (os : ℕ → Os) (rs : List RunningReservation) (n : Summary) (j : ℕ) (s : State)
      → let (n', s') = reconcile_each c os rs (n, s) in
        (fresh_at j s'.running ≡ (names j rs || fresh_at j s.running))
        × (n'.resumed + n'.interrupted ≡ n.resumed + n.interrupted + length rs)
  unfolding reconcile_each
  reconcile_each_lem os [] n j s = ground arith
  reconcile_each_lem os (r ∷ rs) n j s =
      let (n', s') = reconcile_one c (os r.chat_id) r (n, s) in
      ground (arith, reconcile_one_lem (os r.chat_id) r n j s, reconcile_each_lem os rs n' j s')

  -- A record of another run is on the list of those to settle.
  names-stale :
      (j : ℕ) (d : Dict RunningReservation)
      → IsKeyed d
      → (names j (keep (is_stale c.run_id) (values d)) || fresh_at j d) ≡ true
  unfolding IsKeyed lookup
  names-stale j [] keyed = refl
  names-stale j ((k, r) ∷ d) keyed = ground (arith, names-stale j d)

  -- Where each record stands under its own chat: after a restart was settled, every running record
  -- is of this run, whatever became of the searches, and each record of an earlier run was counted
  -- once, as resumed or as interrupted.
  pub reconcile_lem :
      (os : ℕ → Os) (j : ℕ) (s : State)
      → IsKeyed s.running
      → let (n, s') = reconcile_after_restart c os s in
        (fresh_at j s'.running ≡ true)
        × (n.resumed + n.interrupted ≡ count_if (is_stale c.run_id) (values s.running))
  unfolding reconcile_after_restart
  reconcile_lem os j s keyed =
      let stale = keep (is_stale c.run_id) (values s.running) in
      ground (
        arith,
        reconcile_each_lem os stale (record { resumed = 0; interrupted = 0 }) j s,
        names-stale j s.running keyed,
        length-keep (is_stale c.run_id) (values s.running),
      )
