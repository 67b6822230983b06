-- ===== src/Reservation/Stop.antt =====
-- What is left of a search that was cancelled, and of a login that was given up.
use korail_ktx_macro_telegra.Common.{
  ℕ, ◌≡◌, Bool, true, false, ◌&&◌, none, some, arith, Option-cases, inl, inr, ◌==◌, if◌then◌else◌,
  is_some, ==-refl,
}
use korail_ktx_macro_telegra.Common.Dict.{lookup, erase, lookup-erase, lookup-erase_self}
use korail_ktx_macro_telegra.Telegram.{reservation_resumed}
use korail_ktx_macro_telegra.Reservation.Process.{
  RunningReservation, State, Os, Config, Credentials, terminate_search_process, signal, escalate,
  wait_for_exit, gone_early,
}
use korail_ktx_macro_telegra.Reservation.Start.{start_reservation_process}
use korail_ktx_macro_telegra.Reservation.Ending.{
  has_partial, resume, abandon, Summary, reconcile_one, cancel_reservation, resume_dead_search,
  drop_login,
}
use korail_ktx_macro_telegra.Reservation.Fields.{
  running-reset_session, dead-reset_session, login-reset_session,
}
use korail_ktx_macro_telegra.Reservation.Outcome.{start_lem, is_admitted}
use korail_ktx_macro_telegra.Reservation.Keyed.{running-terminate}

-- Stopping a process touches the handles alone.
login-terminate :
    (os : Os) (pid : ℕ) (s : State)
    → (terminate_search_process os pid s).1.resume_credentials ≡ s.resume_credentials
unfolding terminate_search_process signal escalate wait_for_exit
login-terminate os pid s = ground arith

dead-terminate :
    (os : Os) (pid : ℕ) (s : State) → (terminate_search_process os pid s).1.dead ≡ s.dead
unfolding terminate_search_process signal escalate wait_for_exit
dead-terminate os pid s = ground arith

partial-terminate :
    (os : Os) (pid : ℕ) (s : State)
    → (terminate_search_process os pid s).1.partial_reservations ≡ s.partial_reservations
unfolding terminate_search_process signal escalate wait_for_exit
partial-terminate os pid s = ground arith

-- Cancelling succeeds exactly when the chat has a running record. Then, however the process takes the
-- signals, neither the record nor the login is left; every other chat keeps both.
pub cancel_lem :
    (os : Os) (chat j : ℕ) (s : State)
    → let (done, s') = cancel_reservation os chat s in
      (done ≡ is_some (lookup chat s.running))
      × (lookup j s'.running ≡ (if chat == j then none else lookup j s.running))
      × (lookup j s'.resume_credentials
          ≡ (if chat == j && done then none else lookup j s.resume_credentials))
unfolding cancel_reservation
cancel_lem os chat j s = elim (Option-cases (lookup chat s.running)) [
  | inl e ↦ ground (arith, e)
  | inr (r, e) ↦
      let s1 = record s { running = erase chat s.running } in
      let s2 = (terminate_search_process os r.process_id s1).1 in
      ground (
        arith,
        e,
        running-reset_session chat (drop_login chat s2),
        login-reset_session chat (drop_login chat s2),
        running-terminate os r.process_id s1,
        login-terminate os r.process_id s1,
        lookup-erase chat j s.running,
        lookup-erase chat j s.resume_credentials,
      )
]

-- The dead search says that it can be resumed.
abbrev pub offers_resume : ℕ → State → Bool
offers_resume chat s = elim (lookup chat s.dead) [ none ↦ false | some d ↦ d.resumable ]

module _ (r : RunningReservation) (s : State) where
  dead-abandon : (abandon r s).dead ≡ s.dead
  unfolding abandon
  dead-abandon = dead-reset_session r.chat_id _

  login-abandon : (abandon r s).resume_credentials ≡ erase r.chat_id s.resume_credentials
  unfolding abandon
  login-abandon = login-reset_session r.chat_id _

module _ (c : Config) (os : Os) (r : RunningReservation) (login : Credentials) where
  resume_known :
      (s : State)
      → c.resume_on_restart ≡ true
      → has_partial r.chat_id s ≡ false
      → lookup r.chat_id s.resume_credentials ≡ some login
      → resume c os r s
        ≡ start_reservation_process c os r.chat_id login r.search_params true reservation_resumed s
  unfolding resume has_partial
  resume_known s on whole known = ground (arith, on, whole, known)

  resume_gone :
      (pid : ℕ) (s : State)
      → c.resume_on_restart ≡ true
      → has_partial r.chat_id s ≡ false
      → lookup r.chat_id s.resume_credentials ≡ some login
      → os.spawn ≡ gone_early pid
      → let (done, s') = resume c os r s in (done ≡ false) × (offers_resume r.chat_id s' ≡ true)
  unfolding is_admitted
  resume_gone pid s on whole known gone = rw (resume_known s on whole known) (
      ground (
        arith,
        on,
        gone,
        ==-refl r.chat_id,
        start_lem c r.chat_id login r.search_params reservation_resumed r.chat_id os true s,
      ))

  -- When a restart picks a search up again whose login is there and the new process is gone at once,
  -- the chat is offered to resume the search, but the login is deleted: the button pressed then
  -- answers False, starts no process and records no search.
  pub reconcile_dead_end :
      (os' : Os) (n : Summary) (pid : ℕ) (s : State)
      → c.resume_on_restart ≡ true
      → has_partial r.chat_id s ≡ false
      → lookup r.chat_id s.resume_credentials ≡ some login
      → os.spawn ≡ gone_early pid
      → let (n', s') = reconcile_one c os r (n, s) in
        (offers_resume r.chat_id s' ≡ true)
        × (lookup r.chat_id s'.resume_credentials ≡ none)
        × ((resume_dead_search c os' r.chat_id s').0 ≡ false)
        × ((resume_dead_search c os' r.chat_id s').1.children ≡ s'.children)
        × ((resume_dead_search c os' r.chat_id s').1.running ≡ s'.running)
  unfolding reconcile_one resume_dead_search has_partial is_admitted
  reconcile_dead_end os' n pid s on whole known gone =
      let s1 = (terminate_search_process os r.process_id s).1 in
      let s2 = (resume c os r s1).1 in
      let whole' : has_partial r.chat_id s1 ≡ false =
        rw (has_partial, partial-terminate os r.process_id s) whole in
      let known' : lookup r.chat_id s1.resume_credentials ≡ some login =
        rw (login-terminate os r.process_id s) known in
      ground (
        arith,
        resume_gone pid s1 on whole' known' gone,
        dead-abandon r s2,
        login-abandon r s2,
        lookup-erase_self r.chat_id s2.resume_credentials,
      )
