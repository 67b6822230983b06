-- ===== src/Reservation/Start.antt =====
-- Starting a search process: `start_reservation_process` with its guards and what follows a failure.
use korail_ktx_macro_telegra.Common.{
  ℕ, Bool, true, false, not, ◌&&◌, ◌||◌, none, some, [], ◌∷◌, ◌++◌, ltb, ◌==◌, if◌then◌else◌,
  count_if, is_some,
}
use korail_ktx_macro_telegra.Common.Dict.{Dict, lookup, insert, erase, values}
use korail_ktx_macro_telegra.Payment.{Operator, korail, srt}
use korail_ktx_macro_telegra.Telegram.{Message, sends, already_running, server_busy, search_died}
use korail_ktx_macro_telegra.Reservation.Process.{
  TrainSearchParams, RunningReservation, DeadSearch, DeathCause, start_failed, crashed, Credentials,
  reset, State, Spawned, spawn_error, no_pipe, gone_early, alive, Os, Config, forget_child,
  reap_children,
}

abbrev pub same_operator : Operator → Operator → Bool
same_operator korail korail = true
same_operator srt srt = true
same_operator _ _ = false

-- The records of one railway's searches.
unfoldable pub running_on : Operator → Dict RunningReservation → ℕ
running_on op d = count_if (λ r. same_operator r.search_params.operator op) (values d)

unfoldable pub under_limit : Config → Operator → State → Bool
under_limit c op s =
    c.max_concurrent_searches == 0 || ltb (running_on op s.running) c.max_concurrent_searches

unfoldable pub reset_session : ℕ → State → State
reset_session chat s = elim (lookup chat s.sessions) [
  | none ↦ s
  | some u ↦ record s { sessions = insert chat (reset u) s.sessions }
]

unfoldable pub is_crash : DeathCause → Bool
is_crash start_failed = false
is_crash crashed = true

-- `_record_death` with `_announce_death`
unfoldable pub record_death : Config → ℕ → ℕ → TrainSearchParams → DeathCause → State → State
record_death c chat username params cause s =
    let resumable = c.resume_on_restart && is_some (lookup chat s.resume_credentials) in
    let dead : DeadSearch = record {
      chat_id = chat;
      korail_id = username;
      search_params = params;
      cause = cause;
      resumable = resumable;
    } in
    let s' =
      reset_session chat
        (record s { dead = insert chat dead s.dead; running = erase chat s.running }) in
    record s' { sent = sends chat (search_died (is_crash cause) resumable) s'.sent }

unfoldable pub note_process : ℕ → ℕ → State → State
note_process chat pid s = elim (lookup chat s.sessions) [
  | none ↦ s
  | some u ↦ record s { sessions = insert chat (record u { process_id = pid }) s.sessions }
]

-- The search is confirmed: it is recorded, and the chat is told.
unfoldable pub record_search : Config → ℕ → ℕ → TrainSearchParams → Message → ℕ → State → State
record_search c chat username params message pid s =
    let r : RunningReservation = record {
      chat_id = chat;
      process_id = pid;
      korail_id = username;
      search_params = params;
      run_id = c.run_id;
    } in
    let s' =
      note_process chat pid
        (record s { running = insert chat r s.running; dead = erase chat s.dead }) in
    record s' { sent = sends chat message s'.sent }

unfoldable pub keep_login : Config → ℕ → Credentials → State → State
keep_login c chat login s =
    if c.resume_on_restart
    then record s { resume_credentials = insert chat login s.resume_credentials }
    else s

abbrev pub with_child : ℕ → State → State
with_child pid s = record s { children = s.children ++ pid ∷ [] }

-- From `Popen` on. An exception ends the call with False; what was done stays done.
unfoldable pub launch :
    Config → ℕ → Credentials → TrainSearchParams → Message → Spawned → State → Bool × State
launch c chat login params message spawn_error s = (false, s)
launch c chat login params message (no_pipe pid) s = (false, with_child pid s)
launch c chat login params message (gone_early pid) s = (
  false,
  record_death c chat login.korail_id params start_failed
      (forget_child pid (keep_login c chat login (with_child pid s))),
)
launch c chat login params message (alive pid) s = (
  true,
  record_search c chat login.korail_id params message pid
      (keep_login c chat login (with_child pid s)),
)

unfoldable pub start_reservation_process :
    Config → Os → ℕ → Credentials → TrainSearchParams → Bool → Message → State → Bool × State
start_reservation_process c os chat login params resumed message s =
    let s' = reap_children os s in
    if not resumed && is_some (lookup chat s'.running)
    then (false, record s' { sent = sends chat already_running s'.sent })
    else if not resumed && not (under_limit c params.operator s')
    then (
      false,
      record s' {
        sent = sends chat (server_busy params.operator c.max_concurrent_searches) s'.sent;
      },
    )
    else launch c chat login params message os.spawn s'
