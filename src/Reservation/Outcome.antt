-- ===== src/Reservation/Outcome.antt =====
-- What a start leaves of the records, on every branch.
use korail_ktx_macro_telegra.Common.{
  ℕ, ◌≡◌, refl, Bool, true, false, not, ◌&&◌, ◌||◌, Option, none, some, arith, ◌==◌, if◌then◌else◌,
  is_some,
}
use korail_ktx_macro_telegra.Common.Dict.{lookup, lookup-insert, lookup-erase}
use korail_ktx_macro_telegra.Telegram.{Message}
use korail_ktx_macro_telegra.Reservation.Process.{
  TrainSearchParams, RunningReservation, DeadSearch, start_failed, Credentials, State, Spawned,
  spawn_error, no_pipe, gone_early, alive, Os, Config, forget_child, reap_children,
}
use korail_ktx_macro_telegra.Reservation.Start.{
  under_limit, keep_login, with_child, launch, start_reservation_process,
}
use korail_ktx_macro_telegra.Reservation.Fields.{
  running-record_death, dead-record_death, running-keep_login, dead-keep_login, kept_login,
  running-record_search, dead-record_search,
}

-- Whether the guards let a start through.
unfoldable pub is_admitted : Config → ℕ → TrainSearchParams → Bool → State → Bool
is_admitted c chat params resumed s =
    resumed || (not (is_some (lookup chat s.running)) && under_limit c params.operator s)

abbrev pub lives : Spawned → Bool
lives (alive _) = true
lives _ = false

module _ (c : Config) (chat : ℕ) (login : Credentials) (params : TrainSearchParams) where
  -- The chat's running record once the process was started, given the one before.
  abbrev pub record_after : Spawned → Option RunningReservation → Option RunningReservation
  record_after spawn_error old = old
  record_after (no_pipe pid) old = old
  record_after (gone_early pid) old = none
  record_after (alive pid) old = some (record {
    chat_id = chat;
    process_id = pid;
    korail_id = login.korail_id;
    search_params = params;
    run_id = c.run_id;
  })

  -- And its dead search.
  abbrev pub death_after : Spawned → Option DeadSearch → Option DeadSearch
  death_after spawn_error old = old
  death_after (no_pipe pid) old = old
  death_after (gone_early pid) old = some (record {
    chat_id = chat;
    korail_id = login.korail_id;
    search_params = params;
    cause = start_failed;
    resumable = c.resume_on_restart;
  })
  death_after (alive pid) old = none

  module _ (message : Message) (j : ℕ) where
    pub launch_lem :
        (sp : Spawned) (s : State)
        → let (started, s') = launch c chat login params message sp s in
          (started ≡ lives sp)
          × (lookup j s'.running
              ≡ (if chat == j then record_after sp (lookup j s.running) else lookup j s.running))
          × (lookup j s'.dead
              ≡ (if chat == j then death_after sp (lookup j s.dead) else lookup j s.dead))
    unfolding launch
    launch_lem spawn_error s = ground arith
    launch_lem (no_pipe pid) s = ground arith
    launch_lem (gone_early pid) s =
        let s1 = with_child pid s in
        let s2 = forget_child pid (keep_login c chat login s1) in
        (
          refl,
          rw
              (
                running-record_death c chat login.korail_id params s2 start_failed,
                running-keep_login chat s1 c login,
                lookup-erase chat j s.running,
              )
              (ground arith),
          rw
              (
                dead-record_death c chat login.korail_id params s2 start_failed,
                dead-keep_login chat s1 c login,
                kept_login chat s1 c login,
              )
              (lookup-insert chat j _ s.dead),
        )
    launch_lem (alive pid) s =
        let s2 = keep_login c chat login (with_child pid s) in
        (
          refl,
          rw
              (
                running-record_search c chat login.korail_id params s2 message pid,
                running-keep_login chat (with_child pid s) c login,
              )
              (lookup-insert chat j _ s.running),
          rw
              (
                dead-record_search c chat login.korail_id params s2 message pid,
                dead-keep_login chat (with_child pid s) c login,
              )
              (lookup-erase chat j s.dead),
        )

    -- A start is refused when a guard holds it back, and then no record changes. Otherwise it
    -- succeeds exactly when the process lives; the chat has a record of the new search then and no
    -- dead search. A process that is gone at once leaves no running record and a dead search, which
    -- can be resumed exactly when logins are kept. No other chat's record is touched on any branch.
    pub start_lem :
        (os : Os) (resumed : Bool) (s : State)
        → let (started, s') = start_reservation_process c os chat login params resumed message s in
          let ok = is_admitted c chat params resumed s in
          (started ≡ (ok && lives os.spawn))
          × (lookup j s'.running ≡ (
              if chat == j && ok
              then record_after os.spawn (lookup j s.running)
              else lookup j s.running))
          × (lookup j s'.dead ≡ (
              if chat == j && ok then death_after os.spawn (lookup j s.dead) else lookup j s.dead))
    unfolding start_reservation_process is_admitted reap_children under_limit
    start_lem os resumed s = ground (arith, launch_lem os.spawn (reap_children os s))
