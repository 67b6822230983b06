-- ===== src/Reservation/Ending.antt =====
-- How a search ends without its callback: a process that died, a user or an operator who stops it, the
-- end of the app, and what the next run makes of the records that it finds.
use korail_ktx_macro_telegra.Common.{
  ℕ, ◌+◌, Bool, true, false, not, ◌&&◌, ◌||◌, none, some, List, [], ◌∷◌, if◌then◌else◌, is_some,
  keep, ltb,
}
use korail_ktx_macro_telegra.Common.Dict.{lookup, erase, values}
use korail_ktx_macro_telegra.Telegram.{
  Message, sends, search_dead_gone, schedule_no_credentials, search_resumed, search_resume_failed,
  reservation_resumed, reservation_interrupted, reservation_interrupted_partial,
  reservation_cancelled, error_no_progress, stopped_by_admin, admin_summary,
}
use korail_ktx_macro_telegra.Reservation.Process.{
  RunningReservation, is_stale, DeadSearch, crashed, Credentials, State, Os, Config, forget_child,
  reap_children, terminate_search_process,
}
use korail_ktx_macro_telegra.Reservation.Start.{
  record_death, reset_session, start_reservation_process,
}

abbrev pub tells : ℕ → Message → State → State
tells chat message s = record s { sent = sends chat message s.sent }

abbrev pub drop_login : ℕ → State → State
drop_login chat s = record s {
  resume_credentials = erase chat s.resume_credentials;
  app_session_starts = erase chat s.app_session_starts;
}

-- A record of this run whose process is not there any more.
unfoldable pub is_lost : Config → Os → RunningReservation → Bool
is_lost c os r = not (is_stale c.run_id r) && not (os.owns r.process_id)

-- One record of the snapshot: it counts only if it is still in the storage.
unfoldable pub detect_one : Config → Os → RunningReservation → State → ℕ × State
detect_one c os r s =
    if is_lost c os r && is_some (lookup r.chat_id s.running)
    then (
      1,
      record_death c r.chat_id r.korail_id r.search_params crashed (forget_child r.process_id s),
    )
    else (0, s)

unfoldable pub detect_each : Config → Os → List RunningReservation → State → ℕ × State
detect_each c os [] s = (0, s)
detect_each c os (r ∷ rs) s =
    let (n, s') = detect_one c os r s in let (rest, s'') = detect_each c os rs s' in (n + rest, s'')

unfoldable pub detect_dead_searches : Config → Os → State → ℕ × State
detect_dead_searches c os s =
    if s.shutting_down then (0, s) else detect_each c os (values s.running) (reap_children os s)

-- The login is there: the dead search is forgotten and the process started.
unfoldable pub resume_with : Config → Os → ℕ → DeadSearch → Credentials → State → Bool × State
resume_with c os chat dead login s =
    let (started, s') =
      start_reservation_process c os chat login dead.search_params true search_resumed
        (record s { dead = erase chat s.dead }) in
    if started
    then (true, s')
    else if is_some (lookup chat s'.running) || is_some (lookup chat s'.dead)
    then (false, s')
    else (false, tells chat search_resume_failed s')

unfoldable pub resume_dead_search : Config → Os → ℕ → State → Bool × State
resume_dead_search c os chat s = elim (lookup chat s.dead) [
  | none ↦ (false, tells chat search_dead_gone s)
  | some dead ↦ elim (lookup chat s.resume_credentials) [
    | none ↦ (false, tells chat schedule_no_credentials (record s { dead = erase chat s.dead }))
    | some login ↦ resume_with c os chat dead login s
  ]
]

unfoldable pub discard_dead_search : ℕ → State → Bool × State
discard_dead_search chat s =
    if is_some (lookup chat s.dead)
    then (true, drop_login chat (record s { dead = erase chat s.dead }))
    else (false, s)

unfoldable pub has_partial : ℕ → State → Bool
has_partial chat s = elim (lookup chat s.partial_reservations) [ none ↦ false | some n ↦ ltb 0 n ]

-- `_resume`
unfoldable pub resume : Config → Os → RunningReservation → State → Bool × State
resume c os r s =
    if not c.resume_on_restart || has_partial r.chat_id s
    then (false, s)
    else elim (lookup r.chat_id s.resume_credentials) [
      | none ↦ (false, s)
      | some login ↦
          start_reservation_process c os r.chat_id login r.search_params true reservation_resumed s
    ]

-- `_abandon`
unfoldable pub abandon : RunningReservation → State → State
abandon r s =
    let s' =
      tells r.chat_id
        (if has_partial r.chat_id s
          then reservation_interrupted_partial
          else reservation_interrupted)
        s in
    reset_session r.chat_id
      (drop_login r.chat_id (record s' { running = erase r.chat_id s'.running }))

-- What a restart counts: searches resumed, and searches given up.
pub record Summary : Type 0 where
  pub resumed : ℕ
  pub interrupted : ℕ

unfoldable pub reconcile_one : Config → Os → RunningReservation → Summary × State → Summary × State
reconcile_one c os r (n, s) =
    let (done, s') = resume c os r (terminate_search_process os r.process_id s).1 in
    if done
    then (record n { resumed = n.resumed + 1 }, s')
    else (record n { interrupted = n.interrupted + 1 }, abandon r s')

-- The operating system is asked anew for each record.
unfoldable pub reconcile_each :
    Config → (ℕ → Os) → List RunningReservation → Summary × State → Summary × State
reconcile_each c os [] x = x
reconcile_each c os (r ∷ rs) x = reconcile_each c os rs (reconcile_one c (os r.chat_id) r x)

unfoldable pub reconcile_after_restart : Config → (ℕ → Os) → State → Summary × State
reconcile_after_restart c os s =
    reconcile_each c os (keep (is_stale c.run_id) (values s.running))
      (record { resumed = 0; interrupted = 0 }, s)

unfoldable pub cancel_reservation : Os → ℕ → State → Bool × State
cancel_reservation os chat s = elim (lookup chat s.running) [
  | none ↦ (false, tells chat error_no_progress s)
  | some r ↦
      let s' =
        (terminate_search_process os r.process_id
          (record s { running = erase chat s.running })).1 in
      (true, tells chat reservation_cancelled (reset_session chat (drop_login chat s')))
]

unfoldable pub cancel_one : Os → RunningReservation → State → State
cancel_one os r s =
    let s' = (terminate_search_process os r.process_id s).1 in
    let s'' =
      reset_session r.chat_id (tells r.chat_id stopped_by_admin (drop_login r.chat_id s')) in
    record s'' { running = erase r.chat_id s''.running }

unfoldable pub cancel_each : Os → List RunningReservation → State → ℕ × State
cancel_each os [] s = (0, s)
cancel_each os (r ∷ rs) s = let (n, s') = cancel_each os rs (cancel_one os r s) in (n + 1, s')

unfoldable pub cancel_all_reservations : Os → ℕ → State → ℕ × State
cancel_all_reservations os admin s =
    let (n, s') = cancel_each os (values s.running) s in (n, tells admin (admin_summary n) s')

unfoldable pub stop_each : Os → List ℕ → State → State
stop_each os [] s = s
stop_each os (pid ∷ pids) s = stop_each os pids (terminate_search_process os pid s).1

-- The handles that are left after `_reap_children` are those of processes that run.
unfoldable pub shutdown : Os → State → State
shutdown os s =
    let s' = reap_children os (record s { shutting_down = true }) in stop_each os s'.children s'
