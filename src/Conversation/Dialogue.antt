-- ===== src/Conversation/Dialogue.antt =====
-- The routing of an answer to the handler of the question on screen.
use korail_ktx_macro_telegra.Common.{Bool, false, none, some, true, if◌then◌else◌}
use korail_ktx_macro_telegra.Conversation.{
  Outside, Progress, UserSession, World, already_running, no_buttons, no_session, send_message,
  unknown_state,
}
use korail_ktx_macro_telegra.Conversation.Answers.{
  handle_date_input, handle_dst_station_input, handle_password_input, handle_phone_input,
  handle_src_station_input,
}
use korail_ktx_macro_telegra.Conversation.Booking.{handle_final_confirmation, handle_schedule_input}
use korail_ktx_macro_telegra.Conversation.Opening.{
  handle_onboarding_overwrite, handle_operator_input, handle_start_confirmation,
}
use korail_ktx_macro_telegra.Conversation.Preferences.{
  handle_dep_time_input, handle_max_dep_time_input, handle_passenger_count_input,
  handle_seat_strategy_input, handle_special_option_input, handle_train_type_input,
}
use korail_ktx_macro_telegra.Conversation.Questions.{handle_back, wants_to_go_back}
use korail_ktx_macro_telegra.Conversation.Resume.{handle_resume_draft}
use korail_ktx_macro_telegra.Conversation.Trains.{handle_train_selection_input}
use korail_ktx_macro_telegra.Text.{Text}

-- The handler of the question that a state stands for
unfoldable pub route : Outside → Progress → Text → UserSession → World → World
unfolding handle_start_confirmation handle_operator_input handle_phone_input handle_password_input
    handle_date_input handle_src_station_input handle_dst_station_input handle_dep_time_input
    handle_max_dep_time_input handle_train_type_input handle_special_option_input
    handle_passenger_count_input handle_seat_strategy_input handle_train_selection_input
    handle_final_confirmation handle_schedule_input handle_onboarding_overwrite handle_resume_draft
    send_message
route o Progress.started = handle_start_confirmation o
route o Progress.operator_input_pending = handle_operator_input o
route o Progress.start_accepted = handle_phone_input o
route o Progress.id_input_success = handle_password_input o
route o Progress.pw_input_success = handle_date_input o
route o Progress.date_input_success = handle_src_station_input o
route o Progress.src_locate_input_success = handle_dst_station_input o
route o Progress.dst_locate_input_success = handle_dep_time_input o
route o Progress.dep_time_input_success = handle_max_dep_time_input o
route o Progress.max_dep_time_input_success = handle_train_type_input o
route o Progress.train_type_input_success = handle_special_option_input o
route o Progress.special_input_success = handle_passenger_count_input o
route o Progress.passenger_count_input_success = handle_seat_strategy_input o
route o Progress.seat_strategy_input_success = handle_train_selection_input o
route o Progress.train_select_input_success = handle_final_confirmation o
route o Progress.schedule_input_pending = handle_schedule_input o
route o Progress.onboarding_overwrite_pending = handle_onboarding_overwrite o
route o Progress.resume_draft_pending = handle_resume_draft o
route o Progress.finding_ticket = λ text s w. send_message already_running no_buttons w
route o Progress.init = λ text s w. send_message unknown_state no_buttons w

abbrev pub is_searching : Progress → Bool
is_searching Progress.finding_ticket = true
is_searching _ = false

unfoldable pub handle_in_session : Outside → Text → UserSession → World → World
unfolding wants_to_go_back handle_back route send_message
handle_in_session o text s w =
    if is_searching s.last_action
    then send_message already_running no_buttons w
    else if wants_to_go_back o text s
    then handle_back o s w
    else route o s.last_action text s w

unfoldable pub handle_message : Outside → Text → World → World
unfolding handle_in_session send_message
handle_message o text w = elim w.session [
  | none ↦ send_message no_session no_buttons w
  | some s ↦ handle_in_session o text s w
]
