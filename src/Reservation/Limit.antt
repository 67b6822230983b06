-- ===== src/Reservation/Limit.antt =====
-- The ceiling on the searches of one railway that run at once.
use mathlib.Core.Bool.{false≢true}
use korail_ktx_macro_telegra.Common.{
  ℕ, ◌+◌, ◌≤◌, ◌<◌, max, ◌≡◌, refl, true, false, [], ◌∷◌, arith, if◌then◌else◌, is_some,
}
use korail_ktx_macro_telegra.Common.Dict.{Dict, lookup, insert, erase}
use korail_ktx_macro_telegra.Payment.{Operator, korail, srt}
use korail_ktx_macro_telegra.Telegram.{Message}
use korail_ktx_macro_telegra.Reservation.Process.{
  TrainSearchParams, RunningReservation, State, Credentials, Spawned, Os, Config, spawn_error,
  no_pipe, gone_early, alive, forget_child, reap_children, start_failed,
}
use korail_ktx_macro_telegra.Reservation.Start.{
  same_operator, running_on, launch, start_reservation_process, under_limit, with_child, keep_login,
}
use korail_ktx_macro_telegra.Reservation.Fields.{
  running-record_death, running-keep_login, running-record_search,
}

abbrev weight : Operator → RunningReservation → ℕ
weight op r = if same_operator r.search_params.operator op then 1 else 0

running_on-insert :
    (op : Operator) (k : ℕ) (r : RunningReservation) (d : Dict RunningReservation)
    → is_some (lookup k d) ≡ false
    → running_on op (insert k r d) ≡ running_on op d + weight op r
unfolding running_on lookup insert
running_on-insert op k r [] e = ground arith
running_on-insert op k r ((j, w) ∷ d) e = ground (arith, running_on-insert op k r d)

running_on-erase :
    (op : Operator) (k : ℕ) (d : Dict RunningReservation)
    → running_on op (erase k d) ≤ running_on op d
unfolding running_on erase
running_on-erase op k [] = ground arith
running_on-erase op k ((j, w) ∷ d) = ground (arith, running_on-erase op k d)

same_operator_lem : (a b : Operator) → same_operator a b ≡ true → a ≡ b
same_operator_lem korail korail e = refl
same_operator_lem srt srt e = refl
same_operator_lem korail srt e = absurd (false≢true e)
same_operator_lem srt korail e = absurd (false≢true e)

module _ (c : Config) (chat : ℕ) (login : Credentials) (params : TrainSearchParams)
    (message : Message) (op : Operator) where
  running_on-launch :
      (sp : Spawned) (s : State)
      → is_some (lookup chat s.running) ≡ false
      → running_on op (launch c chat login params message sp s).1.running
        ≤ running_on op s.running + (if same_operator params.operator op then 1 else 0)
  unfolding launch
  running_on-launch spawn_error s e = ground arith
  running_on-launch (no_pipe pid) s e = ground arith
  running_on-launch (gone_early pid) s e =
      let s1 = with_child pid s in
      let s2 = forget_child pid (keep_login c chat login s1) in
      rw
        (
          running-record_death c chat login.korail_id params s2 start_failed,
          running-keep_login chat s1 c login,
        )
        (omega (arith, running_on-erase op chat s.running))
  running_on-launch (alive pid) s e =
      let s2 = keep_login c chat login (with_child pid s) in
      rw
        (
          running-record_search c chat login.korail_id params s2 message pid,
          running-keep_login chat (with_child pid s) c login,
        )
        (omega (arith, running_on-insert op chat _ s.running e))

  -- A start that is not a resumption never takes the searches of a railway above the ceiling that
  -- is set, unless they were above it before.
  pub start_bounded :
      (os : Os) (s : State)
      → 0 < c.max_concurrent_searches
      → running_on op (start_reservation_process c os chat login params false message s).1.running
        ≤ max (running_on op s.running) c.max_concurrent_searches
  unfolding start_reservation_process reap_children under_limit
  start_bounded os s pos =
      ground (
        arith,
        running_on-launch os.spawn (reap_children os s),
        same_operator_lem params.operator op,
      )
