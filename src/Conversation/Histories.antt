-- ===== src/Conversation/Histories.antt =====
-- The dialogue over a history of messages, commands, forms and favourites.
use korail_ktx_macro_telegra.Common.{
  All, List, Option, arith, false, inl, inr, is_some, none, refl, some, some_inj, sym, true, ◌∷◌,
  ◌≡◌, ◌⊎◌, [],
}
use korail_ktx_macro_telegra.Conversation.{
  FavouriteSearch, Outside, Progress, Sent, TrainInfo, UserSession, World, already_running,
  finding_ticket, init, mini_app_offer, mini_app_search_running, new_session, no_answers,
  no_buttons, no_session, reset, save_user_session, schedule_input_pending, send_message, started,
  train_select_input_success, unknown_state,
}
use korail_ktx_macro_telegra.Conversation.Backwards.{back_sound}
use korail_ktx_macro_telegra.Conversation.Booking.{build_search_params}
use korail_ktx_macro_telegra.Conversation.Bookings.{params_complete}
use korail_ktx_macro_telegra.Conversation.Dialogue.{
  handle_in_session, handle_message, is_searching, route,
}
use korail_ktx_macro_telegra.Conversation.Entrances.{
  MiniAppSubmission, apply_mini_app_submission, given_or_new, handle_start, offer_mini_app,
  session_or_new, start_afresh, start_from_favourite, start_with,
}
use korail_ktx_macro_telegra.Conversation.Entry.{
  begun, operator_input_sound, overwrite_sound, password_sound, start_sound,
}
use korail_ktx_macro_telegra.Conversation.Forms.{favourite_login_sound, submission_sound}
use korail_ktx_macro_telegra.Conversation.Moves.{
  either, moved, IsQuiet-send, quiet-At, reset-IsReady, stayed,
}
use korail_ktx_macro_telegra.Conversation.Parked.{offer_sound, resume_sound}
use korail_ktx_macro_telegra.Conversation.Questions.{wants_to_go_back}
use korail_ktx_macro_telegra.Conversation.Ready.{
  Here, IsQuiet, IsReady, IsSound, Stands, answered, answered_at, complete,
}
use korail_ktx_macro_telegra.Conversation.Resume.{offer_draft}
use korail_ktx_macro_telegra.Conversation.SeatSteps.{passenger_count_sound, special_option_sound}
use korail_ktx_macro_telegra.Conversation.Steps.{
  date_sound, dep_time_sound, dst_station_sound, max_dep_time_sound, phone_sound,
  seat_strategy_sound, src_station_sound, train_type_sound,
}
use korail_ktx_macro_telegra.Conversation.Summaries.{confirmation_sound, schedule_input_sound}
use korail_ktx_macro_telegra.Conversation.Ways.{train_selection_sound}
use korail_ktx_macro_telegra.Text.{Text, strip}

route_sound :
    (o : Outside) (p : Progress) (text : Text) (s : UserSession) (w : World)
    → strip o.unicode text ≡ text
    → Here p s w
    → IsSound (route o p text s w)
unfolding route
route_sound o Progress.init text s w e h = stayed init s unknown_state no_buttons w h refl
route_sound o Progress.started text s w e h = start_sound o text s w h
route_sound o Progress.start_accepted text s w e h = phone_sound o text s w h
route_sound o Progress.id_input_success text s w e h = password_sound o text s w h
route_sound o Progress.pw_input_success text s w e h = date_sound o text s w h
route_sound o Progress.date_input_success text s w e h = src_station_sound o text s w h
route_sound o Progress.src_locate_input_success text s w e h = dst_station_sound o text s w h
route_sound o Progress.dst_locate_input_success text s w e h = dep_time_sound o text s w h
route_sound o Progress.dep_time_input_success text s w e h = max_dep_time_sound o text s w h
route_sound o Progress.max_dep_time_input_success text s w e h = train_type_sound o text s w h
route_sound o Progress.train_type_input_success text s w e h = special_option_sound o text s w e h
route_sound o Progress.special_input_success text s w e h = passenger_count_sound o text s w h
route_sound o Progress.passenger_count_input_success text s w e h = seat_strategy_sound o text s w h
route_sound o Progress.seat_strategy_input_success text s w e h = train_selection_sound o text s w h
route_sound o Progress.finding_ticket text s w e h =
    stayed finding_ticket s already_running no_buttons w h refl
route_sound o Progress.train_select_input_success text s w e h = confirmation_sound o text s w h
route_sound o Progress.schedule_input_pending text s w e h = schedule_input_sound o text s w h
route_sound o Progress.onboarding_overwrite_pending text s w e h = overwrite_sound o text s w h
route_sound o Progress.operator_input_pending text s w e h = operator_input_sound o text s w h
route_sound o Progress.resume_draft_pending text s w e h = resume_sound o text s w h

in_session_sound :
    (o : Outside) (text : Text) (s : UserSession) (w : World)
    → strip o.unicode text ≡ text
    → Here s.last_action s w
    → IsSound (handle_in_session o text s w)
unfolding handle_in_session
in_session_sound o text s w e h =
    either (is_searching s.last_action) _ _
      (λ _. stayed s.last_action s already_running no_buttons w h refl)
      (λ _.
        either (wants_to_go_back o text s) _ _ (λ _. back_sound o s w h)
          (λ _. route_sound o s.last_action text s w e h))

-- The session of a world in which nothing was said yet
abbrev IsSessionReady : Option UserSession → Type 0
IsSessionReady none = Unit
IsSessionReady (some s) = IsReady s.last_action s.train_info

-- What happens to a chat
pub data Event : Type 0 where
  says : Text → Event
  starts_over : Event
  submits : MiniAppSubmission → Event
  picks : FavouriteSearch → Event

unfoldable pub handle_event : Outside → Event → World → World
unfolding handle_message handle_start apply_mini_app_submission start_from_favourite
handle_event o (says text) w = handle_message o text w
handle_event o starts_over w = handle_start o w
handle_event o (submits m) w = apply_mini_app_submission o m w
handle_event o (picks f) w = start_from_favourite o f w

-- A message arrives as the update processor hands it on, without white space around it.
abbrev pub IsStripped : Outside → Event → Type 0
IsStripped o (says text) = strip o.unicode text ≡ text
IsStripped o _ = Unit

-- Between two events: what was said has been delivered.
unfoldable pub delivered : World → World
delivered w = record w { sent = [] }

-- Each event comes with what the outside world is like then: the clock, the railways, the settings.
unfoldable pub run : List (Outside × Event) → World → World
unfolding handle_event delivered
run [] w = w
run ((o, e) ∷ es) w = run es (handle_event o e (delivered w))

-- A chat that has not been used
abbrev pub new_world : World
new_world = record {
  session = none;
  korail_account = none;
  srt_account = none;
  favourites = [];
  sent = [];
  started = [];
  scheduled = none;
  raised = false;
}

-- A fresh event in a sound world
abbrev IsOpen : World → Type 0
IsOpen w = (w.raised ≡ false) × IsSessionReady w.session × (w.sent ≡ [])

open-IsQuiet : (w : World) → IsOpen w → IsQuiet w
open-IsQuiet w h = (h.0, rw h.2 tt)

said_sound :
    (o : Outside) (text : Text) (w : World)
    → strip o.unicode text ≡ text
    → (r : Option UserSession) → w.session ≡ r
    → IsSessionReady r
    → IsQuiet w
    → IsSound (elim r [
      | none ↦ send_message no_session no_buttons w
      | some s ↦ handle_in_session o text s w
    ])
unfolding send_message
said_sound o text w e none k h q =
    let a = IsQuiet-send no_session no_buttons w q refl in (a.0, rw k a.1)
said_sound o text w e (some s) k h q = in_session_sound o text s w e (k, refl, h, q)

new-IsReady : IsReady new_session.last_action new_session.train_info
unfolding answered answered_at
new-IsReady = (refl, (λ e. e), (λ e. e))

started_sound :
    (o : Outside) (s : UserSession) (w : World)
    → IsReady s.last_action s.train_info
    → IsQuiet w
    → IsSound (start_with o s w)
unfolding start_with save_user_session start_afresh offer_mini_app
started_sound o s w r q =
    let w' = save_user_session s w in
    either (offer_draft s w').0 _ _ (λ _. offer_sound s w' (refl, refl, r, q))
      (λ _.
        either o.mini_app_enabled _ _
          (λ _.
            moved (reset s) mini_app_offer no_buttons w' (reset-IsReady s) (quiet-At init w' q)
              refl)
          (λ _. begun o s w' q))

searching_says :
    (w : World) (r : Option UserSession)
    → w.session ≡ r
    → IsSessionReady r
    → IsQuiet w
    → IsSound (send_message mini_app_search_running no_buttons w)
unfolding send_message
searching_says w none k h q =
    let a = IsQuiet-send mini_app_search_running no_buttons w q refl in (a.0, rw k a.1)
searching_says w (some s) k h q =
    stayed s.last_action s mini_app_search_running no_buttons w (k, refl, h, q) refl

session-IsReady :
    (r : Option UserSession)
    → IsSessionReady r
    → IsReady (given_or_new r).last_action (given_or_new r).train_info
unfolding given_or_new
session-IsReady none h = new-IsReady
session-IsReady (some s) h = h

event_sound :
    (o : Outside) (e : Event) (w : World) → IsStripped o e → IsOpen w → IsSound (handle_event o e w)
unfolding handle_event handle_message handle_start apply_mini_app_submission start_from_favourite
    save_user_session session_or_new reset answered answered_at
event_sound o (says text) w t h = said_sound o text w t w.session refl h.1 (open-IsQuiet w h)
event_sound o starts_over w t h =
    started_sound o (given_or_new w.session) w (session-IsReady w.session h.1) (open-IsQuiet w h)
event_sound o (submits m) w t h =
    submission_sound o m (given_or_new w.session) w
      (λ _. searching_says w w.session refl h.1 (open-IsQuiet w h)) (open-IsQuiet w h)
event_sound o (picks f) w t h =
    let s = record (reset (given_or_new w.session)) {
      in_progress = true;
      last_action = started;
      train_info = record no_answers { operator = some f.operator };
    } in
    favourite_login_sound o f s (save_user_session s w)
      (refl, refl, (refl, (λ e. e), (λ e. e)), open-IsQuiet w h)

Stands-ready : (r : Option UserSession) (sent : List Sent) → Stands r sent → IsSessionReady r
Stands-ready none sent h = tt
Stands-ready (some s) sent h = h.0

pub run_sound :
    (es : List (Outside × Event)) (w : World)
    → All (λ e. IsStripped e.0 e.1) es
    → IsSound w
    → IsSound (run es w)
unfolding run delivered
run_sound [] w t h = h
run_sound ((o, e) ∷ es) w t h =
    run_sound es (handle_event o e (delivered w)) t.1
      (event_sound o e (delivered w) t.0 (h.0, Stands-ready w.session w.sent h.1, refl))

-- Over every history of a chat, in which each event finds clocks, railways and settings of its own
-- and each message arrives without white space around it, no handler raises KeyError, the stored
-- session holds every answer that its state says, and the buttons of what was said last answer the
-- question of that state.
pub run-IsSound :
    (es : List (Outside × Event)) → All (λ e. IsStripped e.0 e.1) es → IsSound (run es new_world)
run-IsSound es t = run_sound es new_world t (refl, tt)

ready_summary :
    (p : Progress) (i : TrainInfo)
    → (p ≡ train_select_input_success) ⊎ (p ≡ schedule_input_pending)
    → answered p i ≡ true
    → complete i ≡ true
unfolding answered answered_at
ready_summary p i (inl e) h = rw e at h
ready_summary p i (inr e) h = rw e at h

Stands-at :
    (r : Option UserSession) (sent : List Sent) (s : UserSession)
    → Stands r sent
    → r ≡ some s
    → IsReady s.last_action s.train_info
Stands-at none sent s h e = absurd (ground arith)
Stands-at (some t) sent s h e = let k = some_inj e in rw (sym k) h.0

-- After every such history, a session that stands at the summary or at the question of the start time
-- holds all that a search is driven by.
pub summary_buildable :
    (es : List (Outside × Event)) (s : UserSession)
    → All (λ e. IsStripped e.0 e.1) es
    → (run es new_world).session ≡ some s
    → (s.last_action ≡ train_select_input_success) ⊎ (s.last_action ≡ schedule_input_pending)
    → is_some (build_search_params s) ≡ true
summary_buildable es s t e p = params_complete s (
    ready_summary s.last_action s.train_info p
      (Stands-at (run es new_world).session (run es new_world).sent s (run-IsSound es t).1 e).0)
