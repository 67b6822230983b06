-- ===== src/Schedule/Quiet.antt =====
-- Which messages say that a booked search came due too late: none of those that a start sends.
use korail_ktx_macro_telegra.Common.{
  ℕ, ◌≡◌, refl, ◌∙◌, Bool, true, false, [], ◌∷◌, arith, count_if, count_if-append, ap,
}
use korail_ktx_macro_telegra.Telegram.{
  Message, Outbox, sends, schedule_missed, reservation_started, already_running, server_busy,
}
use korail_ktx_macro_telegra.Reservation.Process.{
  TrainSearchParams, Credentials, State, Os, Config, Spawned, spawn_error, no_pipe, gone_early,
  alive, DeathCause, reap_children,
}
use korail_ktx_macro_telegra.Reservation.Start.{
  note_process, keep_login, record_death, record_search, launch, start_reservation_process,
}
use korail_ktx_macro_telegra.Reservation.Fields.{sent-reset_session}

abbrev pub says_missed : ℕ × Message → Bool
says_missed (chat, schedule_missed) = true
says_missed (chat, _) = false

abbrev pub missed : Outbox → ℕ
missed out = count_if says_missed out

pub missed-sends :
    (chat : ℕ) (m : Message) (out : Outbox)
    → says_missed (chat, m) ≡ false
    → missed (sends chat m out) ≡ missed out
missed-sends chat m out quiet =
    ground (arith, count_if-append says_missed out ((chat, m) ∷ []), quiet)

module _ (c : Config) (chat : ℕ) (login : Credentials) (params : TrainSearchParams) where
  quiet-record_death :
      (cause : DeathCause) (s : State)
      → missed (record_death c chat login.korail_id params cause s).sent ≡ missed s.sent
  unfolding record_death
  quiet-record_death cause s = missed-sends chat _ _ refl ∙ ap missed (sent-reset_session chat _)

  sent-note_process : (pid : ℕ) (s : State) → (note_process chat pid s).sent ≡ s.sent
  unfolding note_process
  sent-note_process pid s = ground arith

  quiet-record_search :
      (pid : ℕ) (s : State)
      → missed (record_search c chat login.korail_id params reservation_started pid s).sent
        ≡ missed s.sent
  unfolding record_search
  quiet-record_search pid s = missed-sends chat _ _ refl ∙ ap missed (sent-note_process pid _)

  sent-keep_login : (s : State) → (keep_login c chat login s).sent ≡ s.sent
  unfolding keep_login
  sent-keep_login s = ground arith

  quiet-launch :
      (sp : Spawned) (s : State)
      → missed (launch c chat login params reservation_started sp s).1.sent ≡ missed s.sent
  unfolding launch
  quiet-launch spawn_error s = refl
  quiet-launch (no_pipe pid) s = refl
  quiet-launch (gone_early pid) s = quiet-record_death _ _ ∙ ap missed (sent-keep_login _)
  quiet-launch (alive pid) s = quiet-record_search pid _ ∙ ap missed (sent-keep_login _)

  pub quiet-start :
      (os : Os) (s : State)
      → missed (start_reservation_process c os chat login params false reservation_started s).1.sent
        ≡ missed s.sent
  unfolding start_reservation_process reap_children
  quiet-start os s =
      let s' = reap_children os s in
      ground (
        arith,
        quiet-launch os.spawn s',
        missed-sends chat already_running s.sent refl,
        missed-sends chat (server_busy params.operator c.max_concurrent_searches) s.sent refl,
      )
