-- ===== src/Schedule/Missed.antt =====
-- The notice that a booked search came due too late: its key has expired before it could be sent.
use korail_ktx_macro_telegra.Common.{
  ℕ, ◌+◌, ◌-◌, ◌≤◌, ◌≡◌, refl, ◌∙◌, true, false, Option, List, [], ◌∷◌, arith, if◌then◌else◌, All,
  max, Option-cases, inl, inr,
}
use korail_ktx_macro_telegra.Common.Dict.{Dict, lookup, erase, insert, values}
use korail_ktx_macro_telegra.Telegram.{schedule_starting, schedule_no_credentials}
use korail_ktx_macro_telegra.Reservation.Process.{TrainSearchParams, Credentials, Os, Config}
use korail_ktx_macro_telegra.Reservation.Ending.{tells}
use korail_ktx_macro_telegra.Schedule.{
  ScheduledSearch, Kept, Timing, Scheduler, is_due, live_searches, get_all_scheduled_searches,
  delete_scheduled_search, save_scheduled_search, seconds_until_due, validate_start_time, schedule,
  cancel, fire, fire_with, fire_due, tick,
}
use korail_ktx_macro_telegra.Schedule.Firing.{scheduled-fire}
use korail_ktx_macro_telegra.Schedule.Quiet.{missed, missed-sends, quiet-start}

-- Redis drops a schedule before the grace period after its start ends.
abbrev pub InTime : Timing → Dict Kept → Type 0
InTime t d = All (λ e. e.1.until ≤ e.1.search.start_at + t.grace) d

erase-InTime : (t : Timing) (k : ℕ) (d : Dict Kept) → InTime t d → InTime t (erase k d)
unfolding erase
erase-InTime t k [] h = tt
erase-InTime t k ((j, x) ∷ d) h = ground (arith, erase-InTime t k d, h)

insert-InTime :
    (t : Timing) (k : ℕ) (x : Kept) (d : Dict Kept)
    → x.until ≤ x.search.start_at + t.grace
    → InTime t d
    → InTime t (insert k x d)
unfolding insert
insert-InTime t k x [] e h = (e, tt)
insert-InTime t k x ((j, y) ∷ d) e h = ground (arith, insert-InTime t k x d, h)

module _ (t : Timing) (now : ℕ) where
  -- Not yet past the grace period.
  abbrev OnTime : ScheduledSearch → Type 0
  OnTime x = now ≤ x.start_at + t.grace

  live-OnTime : (d : Dict Kept) → InTime t d → All OnTime (live_searches now (values d))
  unfolding live_searches
  live-OnTime [] h = tt
  live-OnTime ((j, x) ∷ d) h = ground (arith, live-OnTime d, h)

  module _ (c : Config) (os : ℕ → Os) where
    quiet-fire :
        (x : ScheduledSearch) (w : Scheduler)
        → OnTime x
        → missed (fire c t os now x w).service.sent ≡ missed w.service.sent
    unfolding fire fire_with delete_scheduled_search
    quiet-fire x w early = elim (Option-cases (lookup x.chat_id w.service.resume_credentials)) [
      | inl e ↦
          ground
            (arith, e, early, missed-sends x.chat_id schedule_no_credentials w.service.sent refl)
      | inr (login, e) ↦ ground (
        arith,
        e,
        early,
        missed-sends x.chat_id schedule_starting w.service.sent refl,
        quiet-start c x.chat_id login x.search_params (os x.chat_id)
            (tells x.chat_id schedule_starting w.service),
      )
    ]

    fired-InTime :
        (x : ScheduledSearch) (w : Scheduler)
        → InTime t w.scheduled
        → InTime t (fire c t os now x w).scheduled
    fired-InTime x w h = rw (scheduled-fire c t os now x w) (erase-InTime t x.chat_id w.scheduled h)

    -- The state after one search of a pass.
    abbrev fire_if_due : ScheduledSearch → Scheduler → Scheduler
    fire_if_due x w = if is_due now x then fire c t os now x w else w

    quiet-fire_if_due :
        (x : ScheduledSearch) (w : Scheduler)
        → OnTime x
        → InTime t w.scheduled
        → (missed (fire_if_due x w).service.sent ≡ missed w.service.sent)
          × InTime t (fire_if_due x w).scheduled
    quiet-fire_if_due x w early h =
        elim (is_due now x)
          as (λ due.
            let w' = if due then fire c t os now x w else w in
            (missed w'.service.sent ≡ missed w.service.sent) × InTime t w'.scheduled) [
              | true ↦ (quiet-fire x w early, fired-InTime x w h)
              | false ↦ (refl, h)
            ]

    quiet-fire_due :
        (xs : List ScheduledSearch) (w : Scheduler)
        → All OnTime xs
        → InTime t w.scheduled
        → let w' = fire_due c t os now xs w in
          (missed w'.service.sent ≡ missed w.service.sent) × InTime t w'.scheduled
    unfolding fire_due
    quiet-fire_due [] w early h = (refl, h)
    quiet-fire_due (x ∷ xs) w (early, rest) h =
        let (q1, h1) = quiet-fire_if_due x w early h in
        let (q2, h2) = quiet-fire_due xs (fire_if_due x w) rest h1 in (q2 ∙ q1, h2)

-- What happens to the scheduler, each at its moment.
pub data Event : Type 0 where
  books : ℕ → ℕ → Credentials → TrainSearchParams → ℕ → Event
  cancels : ℕ → ℕ → Event
  ticks : (ℕ → Os) → ℕ → Event

module _ (c : Config) (t : Timing) (departure_of : TrainSearchParams → Option ℕ) where
  abbrev pub happens : Event → Scheduler → Scheduler
  happens (books now chat login params start_at) w =
      (schedule t departure_of now chat login params start_at w).1
  happens (cancels now chat) w = (cancel chat now w).1
  happens (ticks os now) w = (tick c t os now w).1

  abbrev pub history : List Event → Scheduler → Scheduler
  history [] w = w
  history (e ∷ es) w = history es (happens e w)

  quiet-happens :
      (e : Event) (w : Scheduler)
      → InTime t w.scheduled
      → let w' = happens e w in
        (missed w'.service.sent ≡ missed w.service.sent) × InTime t w'.scheduled
  unfolding schedule cancel tick save_scheduled_search validate_start_time seconds_until_due
      get_all_scheduled_searches delete_scheduled_search
  quiet-happens (books now chat login params start_at) w h =
      let x : ScheduledSearch = record {
        chat_id = chat;
        korail_id = login.korail_id;
        search_params = params;
        start_at = start_at;
      } in
      let kept : Kept = record {
        search = x;
        until = now + max (start_at - now + t.grace) t.grace;
      } in
      ground (arith, h, insert-InTime t chat kept w.scheduled)
  quiet-happens (cancels now chat) w h = ground (arith, h, erase-InTime t chat w.scheduled h)
  quiet-happens (ticks os now) w h =
      quiet-fire_due t now c os (live_searches now (values w.scheduled)) w
        (live-OnTime t now w.scheduled h) h

  -- From a state in which no search is scheduled, whatever is booked and cancelled and whenever passes
  -- are made, however late: the notice that a search came due too late is never sent, because the key
  -- of the search has always expired by then.
  pub never_missed :
      (es : List Event) (w : Scheduler)
      → w.scheduled ≡ []
      → missed (history es w).service.sent ≡ missed w.service.sent
  never_missed es w none_yet = (from es w (rw none_yet tt))
    where
      from :
          (es : List Event) (w : Scheduler)
          → InTime t w.scheduled
          → missed (history es w).service.sent ≡ missed w.service.sent
      from [] w h = refl
      from (e ∷ es) w h = let (q, h') = quiet-happens e w h in from es (happens e w) h' ∙ q
