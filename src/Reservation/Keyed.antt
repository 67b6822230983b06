-- ===== src/Reservation/Keyed.antt =====
-- The keys of the running records, under a start and the other writes to them.
use korail_ktx_macro_telegra.Common.{ℕ, ◌≡◌, refl, Bool, none, [], ◌∷◌, arith}
use korail_ktx_macro_telegra.Common.Dict.{Dict, lookup, erase, insert, lookup-insert, lookup-erase}
use korail_ktx_macro_telegra.Telegram.{Message}
use korail_ktx_macro_telegra.Reservation.Process.{
  RunningReservation, State, Os, Config, forget_child, reap_children, signal, escalate,
  terminate_search_process, wait_for_exit, TrainSearchParams, Credentials, Spawned, spawn_error,
  no_pipe, gone_early, alive, start_failed,
}
use korail_ktx_macro_telegra.Reservation.Start.{
  launch, start_reservation_process, keep_login, with_child,
}
use korail_ktx_macro_telegra.Reservation.Fields.{
  running-record_death, running-keep_login, running-record_search,
}

unfoldable pub IsKeyed : Dict RunningReservation → Type 0
IsKeyed [] = Unit
IsKeyed ((k, r) ∷ d) = (r.chat_id ≡ k) × (lookup k d ≡ none) × IsKeyed d

pub erase-IsKeyed : (k : ℕ) (d : Dict RunningReservation) → IsKeyed d → IsKeyed (erase k d)
unfolding IsKeyed erase
erase-IsKeyed k [] keyed = tt
erase-IsKeyed k ((j, r) ∷ d) keyed = ground (arith, erase-IsKeyed k d, lookup-erase k j d)

insert-IsKeyed :
    (k : ℕ) (r : RunningReservation) (d : Dict RunningReservation)
    → r.chat_id ≡ k
    → IsKeyed d
    → IsKeyed (insert k r d)
unfolding IsKeyed insert lookup
insert-IsKeyed k r [] e keyed = (e, refl, tt)
insert-IsKeyed k r ((j, w) ∷ d) e keyed =
    ground (arith, insert-IsKeyed k r d, lookup-insert k j r d)

pub running-terminate :
    (os : Os) (pid : ℕ) (s : State) → (terminate_search_process os pid s).1.running ≡ s.running
unfolding terminate_search_process signal escalate wait_for_exit
running-terminate os pid s = ground arith

module _ (c : Config) (os : Os) (chat : ℕ) (login : Credentials) (params : TrainSearchParams)
    (message : Message) where
  launch-IsKeyed :
      (sp : Spawned) (s : State)
      → IsKeyed s.running
      → IsKeyed (launch c chat login params message sp s).1.running
  unfolding launch
  launch-IsKeyed spawn_error s keyed = keyed
  launch-IsKeyed (no_pipe pid) s keyed = keyed
  launch-IsKeyed (gone_early pid) s keyed =
      let s1 = with_child pid s in
      let s2 = forget_child pid (keep_login c chat login s1) in
      rw
        (
          running-record_death c chat login.korail_id params s2 start_failed,
          running-keep_login chat s1 c login,
        )
        (erase-IsKeyed chat s.running keyed)
  launch-IsKeyed (alive pid) s keyed =
      let s2 = keep_login c chat login (with_child pid s) in
      rw
        (
          running-record_search c chat login.korail_id params s2 message pid,
          running-keep_login chat (with_child pid s) c login,
        )
        (insert-IsKeyed chat _ s.running refl keyed)

  pub start-IsKeyed :
      (resumed : Bool) (s : State)
      → IsKeyed s.running
      → IsKeyed (start_reservation_process c os chat login params resumed message s).1.running
  unfolding start_reservation_process reap_children
  start-IsKeyed resumed s keyed = ground (arith, launch-IsKeyed os.spawn (reap_children os s))
