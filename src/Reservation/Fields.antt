-- ===== src/Reservation/Fields.antt =====
-- Which fields of the state the steps of a start leave alone, and what they write to the others.
use korail_ktx_macro_telegra.Common.{ℕ, ◌≡◌, ◌&&◌, arith, is_some}
use korail_ktx_macro_telegra.Common.Dict.{lookup, insert, erase, lookup-insert}
use korail_ktx_macro_telegra.Telegram.{Message}
use korail_ktx_macro_telegra.Reservation.Process.{
  TrainSearchParams, DeathCause, Credentials, State, Config,
}
use korail_ktx_macro_telegra.Reservation.Start.{
  reset_session, note_process, record_death, record_search, keep_login,
}

module _ (chat : ℕ) (s : State) where
  pub running-reset_session : (reset_session chat s).running ≡ s.running
  unfolding reset_session
  running-reset_session = ground arith

  pub dead-reset_session : (reset_session chat s).dead ≡ s.dead
  unfolding reset_session
  dead-reset_session = ground arith

  pub login-reset_session : (reset_session chat s).resume_credentials ≡ s.resume_credentials
  unfolding reset_session
  login-reset_session = ground arith

  pub sent-reset_session : (reset_session chat s).sent ≡ s.sent
  unfolding reset_session
  sent-reset_session = ground arith

  pub running-note_process : (pid : ℕ) → (note_process chat pid s).running ≡ s.running
  unfolding note_process
  running-note_process pid = ground arith

  pub dead-note_process : (pid : ℕ) → (note_process chat pid s).dead ≡ s.dead
  unfolding note_process
  dead-note_process pid = ground arith

  pub running-keep_login :
      (c : Config) (l : Credentials) → (keep_login c chat l s).running ≡ s.running
  unfolding keep_login
  running-keep_login c l = ground arith

  pub dead-keep_login : (c : Config) (l : Credentials) → (keep_login c chat l s).dead ≡ s.dead
  unfolding keep_login
  dead-keep_login c l = ground arith

  -- The login that a death finds is the one that the start has just stored.
  pub kept_login :
      (c : Config) (l : Credentials)
      → (c.resume_on_restart && is_some (lookup chat (keep_login c chat l s).resume_credentials))
        ≡ c.resume_on_restart
  unfolding keep_login
  kept_login c l = ground (arith, lookup-insert chat chat l s.resume_credentials)

module _ (c : Config) (chat username : ℕ) (params : TrainSearchParams) (s : State) where
  pub running-record_death :
      (cause : DeathCause)
      → (record_death c chat username params cause s).running ≡ erase chat s.running
  unfolding record_death
  running-record_death cause = running-reset_session chat _

  pub dead-record_death :
      (cause : DeathCause)
      → (record_death c chat username params cause s).dead
        ≡ insert chat
            (record {
              chat_id = chat;
              korail_id = username;
              search_params = params;
              cause = cause;
              resumable = c.resume_on_restart && is_some (lookup chat s.resume_credentials);
            })
            s.dead
  unfolding record_death
  dead-record_death cause = dead-reset_session chat _

  pub running-record_search :
      (message : Message) (pid : ℕ)
      → (record_search c chat username params message pid s).running
        ≡ insert chat
            (record {
              chat_id = chat;
              process_id = pid;
              korail_id = username;
              search_params = params;
              run_id = c.run_id;
            })
            s.running
  unfolding record_search
  running-record_search message pid = running-note_process chat _ pid

  pub dead-record_search :
      (message : Message) (pid : ℕ)
      → (record_search c chat username params message pid s).dead ≡ erase chat s.dead
  unfolding record_search
  dead-record_search message pid = dead-note_process chat _ pid
