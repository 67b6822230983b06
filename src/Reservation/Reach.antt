-- ===== src/Reservation/Reach.antt =====
-- The life of the service as steps, and the records under every sequence of its operations.
use korail_ktx_macro_telegra.Common.{
  Option-cases, Bool-cases, inl, inr, ℕ, Bool, true, not, List, [], ◌∷◌, arith, ◌||◌, ◌≡◌, ◌∙◌,
  refl,
}
use korail_ktx_macro_telegra.Common.Dict.{lookup, erase, values}
use korail_ktx_macro_telegra.Telegram.{Message, search_resumed, reservation_resumed}
use korail_ktx_macro_telegra.Reservation.Process.{
  RunningReservation, State, Os, Config, DeadSearch, forget_child, reap_children, TrainSearchParams,
  Credentials, terminate_search_process, crashed,
}
use korail_ktx_macro_telegra.Reservation.Start.{start_reservation_process}
use korail_ktx_macro_telegra.Reservation.Ending.{
  detect_one, detect_each, detect_dead_searches, resume_with, resume_dead_search,
  discard_dead_search, resume, abandon, reconcile_one, reconcile_each, reconcile_after_restart,
  cancel_reservation, cancel_one, cancel_each, cancel_all_reservations, stop_each, shutdown,
  Summary, has_partial,
}
use korail_ktx_macro_telegra.Reservation.Fields.{running-record_death, running-reset_session}
use korail_ktx_macro_telegra.Reservation.Keyed.{
  IsKeyed, erase-IsKeyed, running-terminate, start-IsKeyed,
}

-- One call of the service. `os` is how the operating system behaves during it.
data Step (c : Config) : State → State → Type 0 where
  started :
      (os : Os) (chat : ℕ) (login : Credentials) (params : TrainSearchParams) (resumed : Bool)
      (message : Message) (s : State)
      → Step c s (start_reservation_process c os chat login params resumed message s).1
  swept : (os : Os) (s : State) → Step c s (detect_dead_searches c os s).1
  resumed_dead : (os : Os) (chat : ℕ) (s : State) → Step c s (resume_dead_search c os chat s).1
  discarded : (chat : ℕ) (s : State) → Step c s (discard_dead_search chat s).1
  reconciled : (os : ℕ → Os) (s : State) → Step c s (reconcile_after_restart c os s).1
  cancelled : (os : Os) (chat : ℕ) (s : State) → Step c s (cancel_reservation os chat s).1
  cancelled_all :
      (os : Os) (admin : ℕ) (s : State) → Step c s (cancel_all_reservations os admin s).1
  stopped : (os : Os) (s : State) → Step c s (shutdown os s)

data Reach (c : Config) : State → State → Type 0 where
  here : (s : State) → Reach c s s
  after : (s t u : State) → Reach c s t → Step c t u → Reach c s u

module _ (c : Config) where
  detect_one-IsKeyed :
      (os : Os) (r : RunningReservation) (s : State)
      → IsKeyed s.running
      → IsKeyed (detect_one c os r s).1.running
  unfolding detect_one
  detect_one-IsKeyed os r s keyed = ground (
    arith,
    running-record_death c r.chat_id r.korail_id r.search_params (forget_child r.process_id s)
        crashed,
    erase-IsKeyed r.chat_id s.running keyed,
  )

  detect_each-IsKeyed :
      (os : Os) (rs : List RunningReservation) (s : State)
      → IsKeyed s.running
      → IsKeyed (detect_each c os rs s).1.running
  unfolding detect_each
  detect_each-IsKeyed os [] s keyed = keyed
  detect_each-IsKeyed os (r ∷ rs) s keyed =
      detect_each-IsKeyed os rs _ (detect_one-IsKeyed os r s keyed)

  detect-IsKeyed :
      (os : Os) (s : State) → IsKeyed s.running → IsKeyed (detect_dead_searches c os s).1.running
  unfolding detect_dead_searches reap_children
  detect-IsKeyed os s keyed =
      ground (arith, detect_each-IsKeyed os (values s.running) (reap_children os s) keyed)

  resume_with-IsKeyed :
      (os : Os) (chat : ℕ) (d : DeadSearch) (l : Credentials) (s : State)
      → IsKeyed s.running
      → IsKeyed (resume_with c os chat d l s).1.running
  unfolding resume_with
  resume_with-IsKeyed os chat d l s keyed = ground (
    arith,
    start-IsKeyed c os chat l d.search_params search_resumed true
        (record s { dead = erase chat s.dead }) keyed,
  )

  resume_dead-IsKeyed :
      (os : Os) (chat : ℕ) (s : State)
      → IsKeyed s.running
      → IsKeyed (resume_dead_search c os chat s).1.running
  unfolding resume_dead_search
  resume_dead-IsKeyed os chat s keyed = elim (Option-cases (lookup chat s.dead)) [
    | inl e ↦ rw (e, resume_dead_search) keyed
    | inr (d, e) ↦
        rw (e, resume_dead_search)
          (elim (Option-cases (lookup chat s.resume_credentials)) [
            | inl e' ↦ rw e' keyed
            | inr (l, e') ↦ rw e' (resume_with-IsKeyed os chat d l s keyed)
          ])
  ]

  discard-IsKeyed :
      (chat : ℕ) (s : State) → IsKeyed s.running → IsKeyed (discard_dead_search chat s).1.running
  unfolding discard_dead_search
  discard-IsKeyed chat s keyed = ground arith

  resume-IsKeyed :
      (os : Os) (r : RunningReservation) (s : State)
      → IsKeyed s.running
      → IsKeyed (resume c os r s).1.running
  unfolding resume
  resume-IsKeyed os r s keyed =
      elim (Bool-cases (not c.resume_on_restart || has_partial r.chat_id s)) [
        | inl e ↦ rw e keyed
        | inr e ↦ rw e (elim (Option-cases (lookup r.chat_id s.resume_credentials)) [
          | inl e' ↦ rw e' keyed
          | inr (l, e') ↦
              rw e'
                (start-IsKeyed c os r.chat_id l r.search_params reservation_resumed true s keyed)
        ])
      ]

  abandon-IsKeyed :
      (r : RunningReservation) (s : State) → IsKeyed s.running → IsKeyed (abandon r s).running
  unfolding abandon
  abandon-IsKeyed r s keyed =
      rw (running-reset_session r.chat_id _) (erase-IsKeyed r.chat_id s.running keyed)

  reconcile_one-IsKeyed :
      (os : Os) (r : RunningReservation) (n : Summary) (s : State)
      → IsKeyed s.running
      → IsKeyed (reconcile_one c os r (n, s)).1.running
  unfolding reconcile_one
  reconcile_one-IsKeyed os r n s keyed =
      let s1 = (terminate_search_process os r.process_id s).1 in
      let k1 = resume-IsKeyed os r s1 (rw (running-terminate os r.process_id s) keyed) in
      elim (Bool-cases (resume c os r s1).0) [
        | inl e ↦ rw e k1
        | inr e ↦ rw e (abandon-IsKeyed r (resume c os r s1).1 k1)
      ]

  reconcile_each-IsKeyed :
      (os : ℕ → Os) (rs : List RunningReservation) (n : Summary) (s : State)
      → IsKeyed s.running
      → IsKeyed (reconcile_each c os rs (n, s)).1.running
  unfolding reconcile_each
  reconcile_each-IsKeyed os [] n s keyed = keyed
  reconcile_each-IsKeyed os (r ∷ rs) n s keyed =
      let x = reconcile_one c (os r.chat_id) r (n, s) in
      reconcile_each-IsKeyed os rs x.0 x.1 (reconcile_one-IsKeyed (os r.chat_id) r n s keyed)

cancel-IsKeyed :
    (os : Os) (chat : ℕ) (s : State)
    → IsKeyed s.running
    → IsKeyed (cancel_reservation os chat s).1.running
unfolding cancel_reservation
cancel-IsKeyed os chat s keyed = elim (Option-cases (lookup chat s.running)) [
  | inl e ↦ rw (e, cancel_reservation) keyed
  | inr (r, e) ↦
      rw (e, cancel_reservation, running-reset_session chat _, running-terminate os r.process_id _)
        (erase-IsKeyed chat s.running keyed)
]

cancel_one-IsKeyed :
    (os : Os) (r : RunningReservation) (s : State)
    → IsKeyed s.running
    → IsKeyed (cancel_one os r s).running
unfolding cancel_one
cancel_one-IsKeyed os r s keyed =
    rw (running-reset_session r.chat_id _, running-terminate os r.process_id s)
      (erase-IsKeyed r.chat_id s.running keyed)

cancel_each-IsKeyed :
    (os : Os) (rs : List RunningReservation) (s : State)
    → IsKeyed s.running
    → IsKeyed (cancel_each os rs s).1.running
unfolding cancel_each
cancel_each-IsKeyed os [] s keyed = keyed
cancel_each-IsKeyed os (r ∷ rs) s keyed =
    cancel_each-IsKeyed os rs _ (cancel_one-IsKeyed os r s keyed)

running-stop_each :
    (os : Os) (pids : List ℕ) (s : State) → (stop_each os pids s).running ≡ s.running
unfolding stop_each
running-stop_each os [] s = refl
running-stop_each os (pid ∷ pids) s = running-stop_each os pids _ ∙ running-terminate os pid s

running-shutdown : (os : Os) (s : State) → (shutdown os s).running ≡ s.running
unfolding shutdown reap_children
running-shutdown os s = running-stop_each os _ _

Step-IsKeyed : (c : Config) (s t : State) → Step c s t → IsKeyed s.running → IsKeyed t.running
unfolding reconcile_after_restart cancel_all_reservations
Step-IsKeyed c _ _ (started os chat login params resumed message s) keyed =
    start-IsKeyed c os chat login params message resumed s keyed
Step-IsKeyed c _ _ (swept os s) keyed = detect-IsKeyed c os s keyed
Step-IsKeyed c _ _ (resumed_dead os chat s) keyed = resume_dead-IsKeyed c os chat s keyed
Step-IsKeyed c _ _ (discarded chat s) keyed = discard-IsKeyed c chat s keyed
Step-IsKeyed c _ _ (reconciled os s) keyed = reconcile_each-IsKeyed c os _ _ s keyed
Step-IsKeyed c _ _ (cancelled os chat s) keyed = cancel-IsKeyed os chat s keyed
Step-IsKeyed c _ _ (cancelled_all os admin s) keyed = cancel_each-IsKeyed os _ s keyed
Step-IsKeyed c _ _ (stopped os s) keyed = rw (running-shutdown os s) keyed

-- However the service is called, in whatever order and whatever the operating system does, each
-- running record stands under its own chat and no chat has two, if it was so at the start.
Reach-IsKeyed : (c : Config) (s t : State) → Reach c s t → IsKeyed s.running → IsKeyed t.running
Reach-IsKeyed c _ _ (here s) keyed = keyed
Reach-IsKeyed c _ _ (after s t u path last) keyed =
    Step-IsKeyed c t u last (Reach-IsKeyed c s t path keyed)
