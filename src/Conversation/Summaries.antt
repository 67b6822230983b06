-- ===== src/Conversation/Summaries.antt =====
-- The summary and the question of the start time keep the invariant.
use korail_ktx_macro_telegra.Common.{
  ◌++◌, Option, Option-cases, arith, inl, inr, is_some, leb, length, none, refl, some, true, ◌||◌,
  ◌∷◌, ◌≡◌, [],
}
use korail_ktx_macro_telegra.Conversation.{
  Outside, SearchParams, Time, TrainInfo, UserCredentials, UserSession, World, at_progress, buttons,
  cancelled_by_user, error_confirm_invalid, error_reservation_start_failed, fav_full,
  fav_incomplete, fav_saved, init, no_answers, no_buttons, request_schedule, reset,
  save_user_session, schedule_confirmed, schedule_input_pending, schedule_no_credentials,
  schedule_refused, schedule_unparseable, send_message, step_confirm, step_schedule, stored,
  storing_failed, time_refused, train_select_input_success,
}
use korail_ktx_macro_telegra.Conversation.Answers.{moves_on}
use korail_ktx_macro_telegra.Conversation.Booking.{
  build_search_params, favourite_word, hand_over, handle_final_confirmation, handle_schedule_input,
  schedule_reservation, schedule_with, schedule_word, show_schedule_prompt,
}
use korail_ktx_macro_telegra.Conversation.Bookings.{params_complete, reservation_sound}
use korail_ktx_macro_telegra.Conversation.Favourites.{
  from_train_info, keep_favourite, save_favourite, text_of,
}
use korail_ktx_macro_telegra.Conversation.Moment.{parse_start_time}
use korail_ktx_macro_telegra.Conversation.Moves.{
  answered_how, either, ended, moved, IsQuiet-send, quiet-At, reset-IsReady, saved, stayed,
}
use korail_ktx_macro_telegra.Conversation.Ready.{
  Here, IsQuiet, IsReady, IsSound, answered, answered_at,
}
use korail_ktx_macro_telegra.Conversation.Trains.{has_login}
use korail_ktx_macro_telegra.Text.{Text, is_empty, same, strip}
use korail_ktx_macro_telegra.Validators.Choices.{validate_yes_no}

pub schedule_prompt_sound :
    (s : UserSession) (w : World)
    → IsReady schedule_input_pending s.train_info
    → IsQuiet w
    → IsSound (show_schedule_prompt s w)
unfolding show_schedule_prompt moves_on at_progress
schedule_prompt_sound s w r q =
    moved (at_progress schedule_input_pending s) request_schedule (buttons step_schedule) w r
      (quiet-At schedule_input_pending w q) refl

handed_sound :
    (o : Outside) (c : UserCredentials) (t : Time) (p : Option SearchParams) (s : UserSession)
    (w : World)
    → is_some p ≡ true
    → Here schedule_input_pending s w
    → IsSound (hand_over o c t p s w)
unfolding hand_over
handed_sound o c t none s w k h = absurd (ground arith)
handed_sound o c t (some p) s w k h =
    elim (o.schedule c p t)
      as (λ x. IsSound (elim x [
        | time_refused ↦ send_message schedule_refused (buttons step_schedule) w
        | storing_failed ↦ send_message error_reservation_start_failed no_buttons w
        | stored ↦
            save_user_session (reset s)
              (send_message schedule_confirmed no_buttons (record w { scheduled = some (p, t) }))
      ])) [
        | time_refused ↦
            stayed schedule_input_pending s schedule_refused (buttons step_schedule) w h refl
        | storing_failed ↦
            stayed schedule_input_pending s error_reservation_start_failed no_buttons w h refl
        | stored ↦
            let w' = record w { scheduled = some (p, t) } in
            saved (reset s) (send_message schedule_confirmed no_buttons w') (reset-IsReady s) (
              quiet-At init (send_message schedule_confirmed no_buttons w')
                (IsQuiet-send schedule_confirmed no_buttons w' h.3 refl))
      ]

schedule_with_sound :
    (o : Outside) (t : Time) (c : Option UserCredentials) (s : UserSession) (w : World)
    → Here schedule_input_pending s w
    → IsSound (schedule_with o t c s w)
unfolding schedule_with answered answered_at
schedule_with_sound o t none s w h =
    stayed schedule_input_pending s schedule_no_credentials no_buttons w h refl
schedule_with_sound o t (some c) s w h =
    either (has_login c) _ _
      (λ _. handed_sound o c t (build_search_params s) s w (params_complete s h.2.0) h)
      (λ _. stayed schedule_input_pending s schedule_no_credentials no_buttons w h refl)

schedule_sound :
    (o : Outside) (t : Time) (s : UserSession) (w : World)
    → Here schedule_input_pending s w
    → IsSound (schedule_reservation o t s w)
unfolding schedule_reservation
schedule_sound o t s w h = schedule_with_sound o t s.credentials s w h

pub schedule_input_sound :
    (o : Outside) (text : Text) (s : UserSession) (w : World)
    → Here schedule_input_pending s w
    → IsSound (handle_schedule_input o text s w)
unfolding handle_schedule_input
schedule_input_sound o text s w h =
    elim (Option-cases (parse_start_time o.unicode o.now (strip o.unicode text))) [
      | inl e ↦
          rw (handle_schedule_input, e)
            (stayed schedule_input_pending s schedule_unparseable (buttons step_schedule) w h refl)
      | inr (t, e) ↦ rw (handle_schedule_input, e) (schedule_sound o t s w h)
    ]

favourite_kept :
    (o : Outside) (info : TrainInfo) (s : UserSession) (w : World)
    → Here train_select_input_success s w
    → IsSound (keep_favourite o info w)
unfolding keep_favourite
favourite_kept o info s w h =
    let w' = record w { favourites = w.favourites ++ from_train_info info ∷ [] } in
    either (is_empty (text_of info.src_locate) || is_empty (text_of info.dst_locate)) _ _
      (λ _. stayed train_select_input_success s fav_incomplete no_buttons w h refl)
      (λ _.
        either (leb o.max_favourites (length w.favourites)) _ _
          (λ _. stayed train_select_input_success s fav_full no_buttons w h refl)
          (λ _. stayed train_select_input_success s fav_saved no_buttons w' h refl))

favourite_sound :
    (o : Outside) (s : UserSession) (w : World)
    → Here train_select_input_success s w
    → IsSound (save_favourite o w)
unfolding save_favourite
favourite_sound o s w h =
    elim w.session
      as (λ x. IsSound (elim x [
        | none ↦ keep_favourite o no_answers w
        | some s ↦ keep_favourite o s.train_info w
      ])) [
        | none ↦ favourite_kept o no_answers s w h
        | some r ↦ favourite_kept o r.train_info s w h
      ]

pub confirmation_sound :
    (o : Outside) (text : Text) (s : UserSession) (w : World)
    → Here train_select_input_success s w
    → IsSound (handle_final_confirmation o text s w)
unfolding handle_final_confirmation answered answered_at
confirmation_sound o text s w h =
    either (same (strip o.unicode text) schedule_word) _ _ (λ _. schedule_prompt_sound s w h.2 h.3)
      (λ _.
        either (same (strip o.unicode text) favourite_word) _ _ (λ _. favourite_sound o s w h)
          (λ _.
            answered_how (validate_yes_no o.unicode text) _ _ _ (reservation_sound o s w h)
              (ended cancelled_by_user no_buttons s w h.3 refl)
              (λ r.
                stayed train_select_input_success s error_confirm_invalid (buttons step_confirm) w h
                  refl)))
