-- ===== src/Reservation/Death.antt =====
-- The sweep that finds search processes which died without their callback.
use korail_ktx_macro_telegra.Common.{
  ℕ, ◌+◌, ◌≡◌, Bool, ◌&&◌, ◌||◌, none, List, [], ◌∷◌, arith, ◌==◌, if◌then◌else◌, is_some, any,
  length, length-append, false, some, not, refl, true, ap,
}
use korail_ktx_macro_telegra.Common.Dict.{Dict, lookup, lookup-insert, lookup-erase, values}
use korail_ktx_macro_telegra.Telegram.{Message, sends, sent_to, sent_to-sends, search_died}
use korail_ktx_macro_telegra.Reservation.Process.{
  RunningReservation, State, Os, Config, forget_child, crashed, TrainSearchParams, reap_children,
}
use korail_ktx_macro_telegra.Reservation.Start.{is_crash, record_death}
use korail_ktx_macro_telegra.Reservation.Keyed.{IsKeyed}
use korail_ktx_macro_telegra.Reservation.Ending.{
  is_lost, detect_one, detect_each, detect_dead_searches,
}
use korail_ktx_macro_telegra.Reservation.Fields.{
  running-record_death, dead-record_death, sent-reset_session, login-reset_session,
}

module _ (c : Config) (os : Os) where
  -- A record of the list says that the chat's search is lost.
  abbrev says_lost : ℕ → List RunningReservation → Bool
  says_lost j rs = any (λ r. r.chat_id == j && is_lost c os r) rs

  length-record_death :
      (chat user : ℕ) (params : TrainSearchParams) (s : State)
      → length (record_death c chat user params crashed s).sent ≡ length s.sent + 1
  unfolding record_death
  length-record_death chat user params s =
      rw (length-append _ (_ ∷ []), sent-reset_session chat _) (omega arith)

  -- What a death of the chat's search says: whether it can be resumed depends on the login alone.
  abbrev death_notice : ℕ → State → Message
  death_notice j s =
      search_died true (c.resume_on_restart && is_some (lookup j s.resume_credentials))

  sent-record_death :
      (chat user : ℕ) (params : TrainSearchParams) (s : State)
      → (record_death c chat user params crashed s).sent ≡ sends chat (death_notice chat s) s.sent
  unfolding record_death is_crash
  sent-record_death chat user params s =
      ap (sends chat (death_notice chat s)) (sent-reset_session chat _)

  login-detect_one :
      (r : RunningReservation) (s : State)
      → (detect_one c os r s).1.resume_credentials ≡ s.resume_credentials
  unfolding detect_one record_death
  login-detect_one r s = grind (arith, login-reset_session)

  told-detect_one :
      (r : RunningReservation) (j : ℕ) (s : State)
      → sent_to j (detect_one c os r s).1.sent ≡ (
          if (r.chat_id == j && is_lost c os r) && is_some (lookup j s.running)
          then sends j (death_notice j s) (sent_to j s.sent)
          else sent_to j s.sent)
  unfolding detect_one
  told-detect_one r j s =
      let s' = forget_child r.process_id s in
      ground (
        arith,
        sent-record_death r.chat_id r.korail_id r.search_params s',
        sent_to-sends j r.chat_id (death_notice r.chat_id s') s'.sent,
      )

  detect_one_lem :
      (r : RunningReservation) (j : ℕ) (s : State)
      → let (n, s') = detect_one c os r s in
        let lost = r.chat_id == j && is_lost c os r in
        (lookup j s'.running ≡ (if lost then none else lookup j s.running))
        × (is_some (lookup j s'.dead)
            ≡ (is_some (lookup j s.dead) || (lost && is_some (lookup j s.running))))
        × (length s'.sent ≡ length s.sent + n)
  unfolding detect_one
  detect_one_lem r j s =
      let s' = forget_child r.process_id s in
      grind (
        arith,
        running-record_death c r.chat_id r.korail_id r.search_params s' crashed,
        dead-record_death c r.chat_id r.korail_id r.search_params s' crashed,
        lookup-insert,
        lookup-erase,
        length-record_death r.chat_id r.korail_id r.search_params s',
      )

  detect_each_lem :
      (rs : List RunningReservation) (j : ℕ) (s : State)
      → let (n, s') = detect_each c os rs s in
        (lookup j s'.running ≡ (if says_lost j rs then none else lookup j s.running))
        × (is_some (lookup j s'.dead)
            ≡ (is_some (lookup j s.dead) || (says_lost j rs && is_some (lookup j s.running))))
        × (length s'.sent ≡ length s.sent + n)
        × (sent_to j s'.sent ≡ (
            if says_lost j rs && is_some (lookup j s.running)
            then sends j (death_notice j s) (sent_to j s.sent)
            else sent_to j s.sent))
  unfolding detect_each
  detect_each_lem [] j s = ground arith
  detect_each_lem (r ∷ rs) j s = ground (
    arith,
    detect_one_lem r j s,
    told-detect_one r j s,
    login-detect_one r s,
    detect_each_lem rs j (detect_one c os r s).1,
  )

module _ (c : Config) (os : Os) where
  -- The chat has a record of this run whose process is gone.
  abbrev pub lost_at : ℕ → Dict RunningReservation → Bool
  lost_at j d = elim (lookup j d) [ none ↦ false | some r ↦ is_lost c os r ]

  lost_elsewhere :
      (j : ℕ) (d : Dict RunningReservation)
      → IsKeyed d
      → lookup j d ≡ none
      → says_lost c os j (values d) ≡ false
  unfolding IsKeyed lookup
  lost_elsewhere j [] keyed e = refl
  lost_elsewhere j ((k, r) ∷ d) keyed e = ground (arith, lost_elsewhere j d)

  says_lost-values :
      (j : ℕ) (d : Dict RunningReservation) → IsKeyed d → says_lost c os j (values d) ≡ lost_at j d
  unfolding IsKeyed lookup
  says_lost-values j [] keyed = refl
  says_lost-values j ((k, r) ∷ d) keyed = ground (arith, says_lost-values j d, lost_elsewhere j d)

  -- Where each record stands under its own chat: a sweep takes away exactly the records of this run
  -- whose process is gone, leaves a dead search for each of these chats and for no other chat that
  -- had none, tells each of these chats once that its search died and whether it can be resumed, and
  -- sends no other message; it counts as many deaths as it sends messages. While the app shuts down
  -- it does none of this.
  pub detect_lem :
      (j : ℕ) (s : State)
      → IsKeyed s.running
      → let (n, s') = detect_dead_searches c os s in
        let lost = not s.shutting_down && lost_at j s.running in
        (lookup j s'.running ≡ (if lost then none else lookup j s.running))
        × (is_some (lookup j s'.dead) ≡ (is_some (lookup j s.dead) || lost))
        × (length s'.sent ≡ length s.sent + n)
        × (sent_to j s'.sent ≡ (
            if lost
            then sends j
                (search_died true (c.resume_on_restart && is_some (lookup j s.resume_credentials)))
                (sent_to j s.sent)
            else sent_to j s.sent))
  unfolding detect_dead_searches reap_children
  detect_lem j s keyed = ground (
    arith,
    detect_each_lem c os (values s.running) j (reap_children os s),
    says_lost-values j s.running keyed,
  )
