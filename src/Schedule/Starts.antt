-- ===== src/Schedule/Starts.antt =====
-- What a pass does for the chat of a schedule, and for the other chats.
use korail_ktx_macro_telegra.Common.{
  ℕ, ◌-◌, ◌≡◌, refl, ap, ◌∙◌, Bool, false, Option, none, some, [], ◌∷◌, arith, ◌==◌, ltb, leb,
  if◌then◌else◌, Bool-cases, Option-cases, inl, inr,
}
use korail_ktx_macro_telegra.Common.Dict.{Dict, lookup, values, lookup-insert, lookup-erase}
use korail_ktx_macro_telegra.Telegram.{
  Message, Outbox, sent_to, sent_to-sends, schedule_missed, schedule_no_credentials,
  schedule_starting, reservation_started,
}
use korail_ktx_macro_telegra.Reservation.Process.{
  TrainSearchParams, RunningReservation, DeadSearch, Credentials, State, Os, Config, Spawned,
  spawn_error, no_pipe, gone_early, alive, reap_children,
}
use korail_ktx_macro_telegra.Reservation.Start.{
  note_process, keep_login, record_death, record_search, launch, start_reservation_process,
}
use korail_ktx_macro_telegra.Reservation.Ending.{tells}
use korail_ktx_macro_telegra.Reservation.Fields.{sent-reset_session, login-reset_session}
use korail_ktx_macro_telegra.Reservation.Outcome.{start_lem}
use korail_ktx_macro_telegra.Schedule.{
  ScheduledSearch, Kept, Timing, Scheduler, is_due, live_search, live_searches, drop_credentials,
  get_scheduled_search, get_all_scheduled_searches, delete_scheduled_search, fire, fire_with,
  fire_due, tick,
}
use korail_ktx_macro_telegra.Schedule.Firing.{IsKept, due_at, tick_takes}

-- What the service holds for one chat (its running search, its dead search and its login), and what it
-- was sent
abbrev View : Type 0
View = Option RunningReservation × Option DeadSearch × Option Credentials × Outbox

abbrev view : ℕ → State → View
view j s = (lookup j s.running, lookup j s.dead, lookup j s.resume_credentials, sent_to j s.sent)

module _ (c : Config) (chat : ℕ) (login : Credentials) (params : TrainSearchParams) (j : ℕ) where
  told-launch :
      (message : Message) (sp : Spawned) (s : State)
      → (chat == j) ≡ false
      → (sent_to j (launch c chat login params message sp s).1.sent ≡ sent_to j s.sent)
        × (lookup j (launch c chat login params message sp s).1.resume_credentials
            ≡ lookup j s.resume_credentials)
  unfolding launch record_death record_search keep_login note_process
  told-launch message spawn_error s other = (refl, refl)
  told-launch message (no_pipe pid) s other = (refl, refl)
  told-launch message (gone_early pid) s other =
      grind (arith, sent-reset_session, login-reset_session, sent_to-sends, lookup-insert)
  told-launch message (alive pid) s other = grind (arith, sent_to-sends, lookup-insert)

  told-start :
      (message : Message) (os : Os) (resumed : Bool) (s : State)
      → (chat == j) ≡ false
      → let s' = (start_reservation_process c os chat login params resumed message s).1 in
        (sent_to j s'.sent ≡ sent_to j s.sent)
        × (lookup j s'.resume_credentials ≡ lookup j s.resume_credentials)
  unfolding start_reservation_process reap_children
  told-start message os resumed s other =
      grind (arith, told-launch message os.spawn (reap_children os s), sent_to-sends)

  view-start :
      (message : Message) (os : Os) (resumed : Bool) (s : State)
      → (chat == j) ≡ false
      → view j (start_reservation_process c os chat login params resumed message s).1 ≡ view j s
  view-start message os resumed s other = ground (
    arith,
    told-start message os resumed s other,
    start_lem c chat login params message j os resumed s,
  )

module _ (c : Config) (t : Timing) (os : ℕ → Os) (now : ℕ) where
  -- A search whose time has come: given up where the pass is later than the grace period, told that
  -- its login is gone, or announced and started.
  abbrev handed_over : ScheduledSearch → State → State
  handed_over x s =
      if ltb t.grace (now - x.start_at)
      then drop_credentials x.chat_id (tells x.chat_id schedule_missed s)
      else elim (lookup x.chat_id s.resume_credentials) [
        | none ↦ tells x.chat_id schedule_no_credentials s
        | some login ↦
            (start_reservation_process c (os x.chat_id) x.chat_id login x.search_params false
              reservation_started (tells x.chat_id schedule_starting s)).1
      ]

  -- The schedule that was found is handed over, if its time has come.
  abbrev turn : Option ScheduledSearch → State → State
  turn none s = s
  turn (some x) s = if is_due now x then handed_over x s else s

  service-fire :
      (x : ScheduledSearch) (w : Scheduler)
      → (fire c t os now x w).service ≡ handed_over x w.service
  unfolding fire fire_with delete_scheduled_search
  service-fire x w = ground arith

  view-handed_over :
      (j : ℕ) (x : ScheduledSearch) (s : State)
      → (x.chat_id == j) ≡ false
      → view j (handed_over x s) ≡ view j s
  view-handed_over j x s other = elim (Option-cases (lookup x.chat_id s.resume_credentials)) [
    | inl gone ↦ ground (
      arith,
      sent_to-sends j x.chat_id schedule_missed s.sent,
      sent_to-sends j x.chat_id schedule_no_credentials s.sent,
      lookup-erase x.chat_id j s.resume_credentials,
    )
    | inr (login, found) ↦
        let s' = tells x.chat_id schedule_starting s in
        ground (
          arith,
          sent_to-sends j x.chat_id schedule_missed s.sent,
          sent_to-sends j x.chat_id schedule_starting s.sent,
          lookup-erase x.chat_id j s.resume_credentials,
          view-start c x.chat_id login x.search_params j reservation_started (os x.chat_id) false s'
              other,
        )
  ]

  -- One search of the pass
  abbrev taken : ScheduledSearch → Scheduler → Scheduler
  taken x w = if is_due now x then fire c t os now x w else w

  service-taken :
      (x : ScheduledSearch) (w : Scheduler) → (taken x w).service ≡ turn (some x) w.service
  service-taken x w = ground (arith, service-fire x w)

  view-taken :
      (j : ℕ) (x : ScheduledSearch) (w : Scheduler)
      → (x.chat_id == j) ≡ false
      → view j (taken x w).service ≡ view j w.service
  view-taken j x w other = ground (arith, service-fire x w, view-handed_over j x w.service other)

  -- The chat's search is handed over once, by a service that shows the chat what it showed before.
  abbrev pub IsHandedOver : ℕ → Option ScheduledSearch → State → State → Type 0
  IsHandedOver j found s s' =
      (m : State) × (view j m ≡ view j s) × (view j s' ≡ view j (turn found m))

  untouched :
      (j : ℕ) (found : Option ScheduledSearch) (s s1 s' : State)
      → view j s1 ≡ view j s
      → IsHandedOver j found s1 s'
      → IsHandedOver j found s s'
  untouched j found s s1 s' e (m, before, after) = (m, before ∙ e, after)

  fired_first :
      (j : ℕ) (x : ScheduledSearch) (w : Scheduler) (s' : State)
      → IsHandedOver j none (taken x w).service s'
      → IsHandedOver j (some x) w.service s'
  fired_first j x w s' (m, before, after) =
      (w.service, refl, after ∙ before ∙ ap (view j) (service-taken x w))

  fire_due-IsHandedOver :
      (j : ℕ) (d : Dict Kept) (w : Scheduler)
      → IsKept d
      → IsHandedOver j
          (live_search now (lookup j d))
          w.service
          (fire_due c t os now (live_searches now (values d)) w).service
  unfolding IsKept lookup live_searches live_search fire_due
  fire_due-IsHandedOver j [] w kept = (w.service, refl, refl)
  fire_due-IsHandedOver j ((k, x) ∷ d) w kept = elim (Bool-cases (leb x.until now)) [
    | inl over ↦ elim (Bool-cases (k == j)) [
      | inl own ↦
          let none_left : lookup j d ≡ none = ground arith in
          let rest : IsHandedOver j none w.service
              (fire_due c t os now (live_searches now (values d)) w).service =
            rw none_left at (fire_due-IsHandedOver j d w kept.2) in
          rw (own, over) rest
      | inr other ↦ rw (other, over) (fire_due-IsHandedOver j d w kept.2)
    ]
    | inr live ↦ elim (Bool-cases (k == j)) [
      | inl own ↦
          let none_left : lookup j d ≡ none = ground arith in
          let rest : IsHandedOver j none (taken x.search w).service
              (fire_due c t os now (live_searches now (values d)) (taken x.search w)).service =
            rw none_left at (fire_due-IsHandedOver j d (taken x.search w) kept.2) in
          rw (own, live)
            (fired_first j x.search w
              ((fire_due c t os now (live_searches now (values d)) (taken x.search w)).service)
              rest)
      | inr other ↦
          let elsewhere : (x.search.chat_id == j) ≡ false = ground arith in
          rw (other, live)
            (untouched j (live_search now (lookup j d)) w.service (taken x.search w).service
              ((fire_due c t os now (live_searches now (values d)) (taken x.search w)).service)
              (view-taken j x.search w elsewhere)
              (fire_due-IsHandedOver j d (taken x.search w) kept.2))
    ]
  ]

  -- Where each schedule stands under its own chat: a pass takes away exactly the schedules whose time
  -- has come. The search of such a schedule is handed over once, by a service that holds for its chat
  -- what it held before the pass (running search, dead search, login, messages sent): past the grace
  -- period the chat is told that the search was missed and its login is dropped; without a login it
  -- is told so; otherwise it is told that the search starts, and the process is started. What the
  -- service then holds for the chat and has sent to it is what this leaves. For every other chat it
  -- holds and has sent what it did before.
  pub tick_fires :
      (j : ℕ) (w : Scheduler)
      → IsKept w.scheduled
      → let w' = (tick c t os now w).1 in
        let found = get_scheduled_search j now w in
        (get_scheduled_search j now w' ≡ (if due_at now found then none else found))
        × IsHandedOver j found w.service w'.service
  unfolding tick get_scheduled_search get_all_scheduled_searches
  tick_fires j w kept = (tick_takes c t os now j w kept, fire_due-IsHandedOver j w.scheduled w kept)
