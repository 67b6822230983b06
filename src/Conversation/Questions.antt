-- ===== src/Conversation/Questions.antt =====
-- Putting a question on screen again, and going back a step.
use korail_ktx_macro_telegra.Common.{
  ◌&&◌, Bool, Option, false, leb, none, not, some, true, ◌||◌, ◌∷◌, if◌then◌else◌, [],
}
use korail_ktx_macro_telegra.Conversation.{
  Markup, Outside, Progress, TrainInfo, UserSession, World, ask_again, at_progress,
  back_at_the_start, buttons, cancel_only, date_input_success, dep_time_input_success,
  dst_locate_input_success, max_dep_time_input_success, no_buttons, offers_train_types,
  operator_input_pending, passenger_count_input_success, pw_input_success, raise_key_error,
  save_user_session, seat_strategy_input_success, send_message, session_operator,
  special_input_success, src_locate_input_success, start_accepted, step_date, step_dep_time,
  step_dst_station, step_max_dep_time, step_operator, step_passenger_count, step_seat_option,
  step_seat_strategy, step_src_station, step_train_type, train_select_input_success,
  train_type_input_success,
}
use korail_ktx_macro_telegra.Conversation.Trains.{show_final_confirmation, show_train_selection}
use korail_ktx_macro_telegra.Text.{Text, same, strip}

-- BACK_TARGETS; none where the question has nothing behind it
unfoldable pub back_targets : Progress → Option Progress
back_targets Progress.start_accepted = some operator_input_pending
back_targets Progress.id_input_success = some start_accepted
back_targets Progress.date_input_success = some pw_input_success
back_targets Progress.src_locate_input_success = some date_input_success
back_targets Progress.dst_locate_input_success = some src_locate_input_success
back_targets Progress.dep_time_input_success = some dst_locate_input_success
back_targets Progress.max_dep_time_input_success = some dep_time_input_success
back_targets Progress.train_type_input_success = some max_dep_time_input_success
back_targets Progress.special_input_success = some train_type_input_success
back_targets Progress.passenger_count_input_success = some special_input_success
back_targets Progress.seat_strategy_input_success = some passenger_count_input_success
back_targets Progress.train_select_input_success = some seat_strategy_input_success
back_targets Progress.schedule_input_pending = some train_select_input_success
back_targets _ = none

-- `(session.train_info.get("passengerCount") or 1) <= 1`
unfoldable pub travels_alone : TrainInfo → Bool
travels_alone info = elim info.passenger_count [ none ↦ true | some n ↦ leb n 1 ]

-- The question that was not asked on the way in is not asked on the way back.
unfoldable pub skip_unasked : UserSession → Progress → Progress
unfolding travels_alone offers_train_types session_operator
skip_unasked s Progress.passenger_count_input_success =
    if travels_alone s.train_info then special_input_success else passenger_count_input_success
skip_unasked s Progress.max_dep_time_input_success =
    if offers_train_types (session_operator s)
    then max_dep_time_input_success
    else dep_time_input_success
skip_unasked s p = p

-- The buttons of the prompts of `_reask`; none where there is no prompt, which raises KeyError.
unfoldable pub prompts : Progress → Option Markup
prompts Progress.operator_input_pending = some (buttons step_operator)
prompts Progress.start_accepted = some cancel_only
prompts Progress.pw_input_success = some (buttons step_date)
prompts Progress.date_input_success = some (buttons step_src_station)
prompts Progress.src_locate_input_success = some (buttons step_dst_station)
prompts Progress.dst_locate_input_success = some (buttons step_dep_time)
prompts Progress.dep_time_input_success = some (buttons step_max_dep_time)
prompts Progress.max_dep_time_input_success = some (buttons step_train_type)
prompts Progress.train_type_input_success = some (buttons step_seat_option)
prompts Progress.special_input_success = some (buttons step_passenger_count)
prompts Progress.passenger_count_input_success = some (buttons step_seat_strategy)
prompts _ = none

unfoldable pub asks_again_with : Progress → Option Markup → World → World
unfolding send_message raise_key_error
asks_again_with p none w = raise_key_error w
asks_again_with p (some m) w = send_message (ask_again p) m w

unfoldable pub reask : Outside → Progress → UserSession → World → World
unfolding show_train_selection show_final_confirmation asks_again_with prompts
reask o Progress.seat_strategy_input_success s w = show_train_selection o s w
reask o Progress.train_select_input_success s w = show_final_confirmation s w
reask o p s w = asks_again_with p (prompts p) w

-- "*back" and "뒤로"
abbrev pub back_button : Text
back_button = 42 ∷ 98 ∷ 97 ∷ 99 ∷ 107 ∷ []

abbrev pub back_word : Text
back_word = 46244 ∷ 47196 ∷ []

abbrev pub at_password : Progress → Bool
at_password Progress.id_input_success = true
at_password _ = false

-- At the password prompt only the button is a request to go back.
unfoldable pub wants_to_go_back : Outside → Text → UserSession → Bool
unfolding strip
wants_to_go_back o text s =
    same (strip o.unicode text) back_button
    || (not (at_password s.last_action) && same (strip o.unicode text) back_word)

unfoldable pub go_to : Outside → Progress → UserSession → World → World
unfolding at_progress save_user_session reask
go_to o p s w = reask o p (at_progress p s) (save_user_session (at_progress p s) w)

unfoldable pub handle_back : Outside → UserSession → World → World
unfolding back_targets skip_unasked go_to send_message
handle_back o s w = elim (back_targets s.last_action) [
  | none ↦ send_message back_at_the_start no_buttons w
  | some target ↦ go_to o (skip_unasked s target) s w
]
