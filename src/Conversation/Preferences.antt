-- ===== src/Conversation/Preferences.antt =====
-- The handlers of the questions from the times to the seats.
use korail_ktx_macro_telegra.Common.{◌++◌, Option, ltb, none, some, ℕ, ◌∷◌, if◌then◌else◌, []}
use korail_ktx_macro_telegra.Conversation.{
  Outside, SeatOption, Strategy, TrainType, UserSession, World, all_trains, buttons, consecutive,
  dep_time_input_success, general_first, general_only, ktx, max_dep_time_input_success,
  offers_train_types, passenger_count_input_success, raise_key_error, random, request_dep_time,
  request_passenger_count, request_seat_strategy, request_seat_type, request_seat_type_after_time,
  request_train_type, save_user_session, seat_strategy_input_success, send_message,
  session_operator, special_first, special_input_success, special_only, srt_only, step_dep_time,
  step_max_dep_time, step_passenger_count, step_seat_option, step_seat_strategy, step_train_type,
  train_type_input_success,
}
use korail_ktx_macro_telegra.Conversation.Answers.{asks_the_same, moves_on}
use korail_ktx_macro_telegra.Conversation.Trains.{show_train_selection}
use korail_ktx_macro_telegra.Text.{Text, same, strip, to_int}
use korail_ktx_macro_telegra.Validators.{Reason}
use korail_ktx_macro_telegra.Validators.Choices.{
  validate_passenger_count, validate_seat_strategy_choice, validate_special_option_choice,
  validate_train_type_choice,
}
use korail_ktx_macro_telegra.Validators.Date.{validate_time}

unfoldable pub handle_dep_time_input : Outside → Text → UserSession → World → World
unfolding validate_time asks_the_same moves_on
handle_dep_time_input o text s w = elim (validate_time o.unicode text) [
  | some why ↦ asks_the_same why (buttons step_dep_time) w
  | none ↦
      moves_on
        (record s {
          last_action = dep_time_input_success;
          train_info = record s.train_info { dep_time = some (text ++ 48 ∷ 48 ∷ []) };
        })
        request_dep_time (buttons step_max_dep_time) w
]

-- SR runs one kind of train, so that question is answered in its place.
unfoldable pub max_time_given : UserSession → World → World
unfolding offers_train_types session_operator moves_on save_user_session
max_time_given s w =
    if offers_train_types (session_operator s)
    then moves_on s request_train_type (buttons step_train_type) w
    else moves_on
        (record s {
          last_action = train_type_input_success;
          train_info = record s.train_info {
            train_type = some srt_only;
            train_type_show = some srt_only;
          };
        })
        request_seat_type_after_time (buttons step_seat_option) (save_user_session s w)

-- "2400"
abbrev pub no_end : Text
no_end = 50 ∷ 52 ∷ 48 ∷ 48 ∷ []

unfoldable pub handle_max_dep_time_input : Outside → Text → UserSession → World → World
unfolding validate_time asks_the_same max_time_given
handle_max_dep_time_input o text s w =
    let why : Option Reason = if same text no_end then none else validate_time o.unicode text in
    elim why [
      | some r ↦ asks_the_same r (buttons step_max_dep_time) w
      | none ↦
          max_time_given
            (record s {
              last_action = max_dep_time_input_success;
              train_info = record s.train_info { max_dep_time = some text };
            })
            w
    ]

unfoldable pub chosen_train_type : Text → TrainType
chosen_train_type text = if same text (49 ∷ []) then ktx else all_trains

unfoldable pub handle_train_type_input : Outside → Text → UserSession → World → World
unfolding validate_train_type_choice asks_the_same moves_on chosen_train_type
handle_train_type_input o text s w = elim (validate_train_type_choice o.unicode text) [
  | some why ↦ asks_the_same why (buttons step_train_type) w
  | none ↦
      moves_on
        (record s {
          last_action = train_type_input_success;
          train_info = record s.train_info {
            train_type = some (chosen_train_type text);
            train_type_show = some (chosen_train_type text);
          };
        })
        request_seat_type (buttons step_seat_option) w
]

-- `option_map`; none for a text that is no key of it, which raises KeyError
unfoldable pub option_map : Text → Option SeatOption
option_map text =
    if same text (49 ∷ [])
    then some general_first
    else if same text (50 ∷ [])
    then some general_only
    else if same text (51 ∷ [])
    then some special_first
    else if same text (52 ∷ [])
    then some special_only
    else none

unfoldable pub seat_chosen : Option SeatOption → UserSession → World → World
unfolding moves_on raise_key_error
seat_chosen none s w = raise_key_error w
seat_chosen (some seat) s w =
    moves_on
      (record s {
        last_action = special_input_success;
        train_info = record s.train_info {
          special_info = some seat;
          special_info_show = some seat;
        };
      })
      request_passenger_count (buttons step_passenger_count) w

unfoldable pub handle_special_option_input : Outside → Text → UserSession → World → World
unfolding validate_special_option_choice asks_the_same seat_chosen option_map
handle_special_option_input o text s w = elim (validate_special_option_choice o.unicode text) [
  | some why ↦ asks_the_same why (buttons step_seat_option) w
  | none ↦ seat_chosen (option_map text) s w
]

-- The strategy is asked of more than one passenger.
unfoldable pub passengers_given : Outside → Option ℕ → UserSession → World → World
unfolding save_user_session send_message show_train_selection raise_key_error
passengers_given o none s w = raise_key_error w
passengers_given o (some count) s w =
    let s' = record s {
      last_action = passenger_count_input_success;
      train_info = record s.train_info { passenger_count = some count };
    } in
    let w' = save_user_session s' w in
    let alone = record s' {
      last_action = seat_strategy_input_success;
      train_info = record s'.train_info { seat_strategy = some consecutive };
    } in
    if ltb 1 count
    then send_message request_seat_strategy (buttons step_seat_strategy) w'
    else show_train_selection o alone (save_user_session alone w')

unfoldable pub handle_passenger_count_input : Outside → Text → UserSession → World → World
unfolding validate_passenger_count asks_the_same passengers_given to_int strip
handle_passenger_count_input o text s w = elim (validate_passenger_count o.unicode text) [
  | some why ↦ asks_the_same why (buttons step_passenger_count) w
  | none ↦ passengers_given o (to_int o.unicode (strip o.unicode text)) s w
]

unfoldable pub chosen_strategy : Text → Strategy
chosen_strategy text = if same text (49 ∷ []) then consecutive else random

unfoldable pub handle_seat_strategy_input : Outside → Text → UserSession → World → World
unfolding validate_seat_strategy_choice asks_the_same save_user_session show_train_selection
    chosen_strategy
handle_seat_strategy_input o text s w =
    let s' = record s {
      last_action = seat_strategy_input_success;
      train_info = record s.train_info {
        seat_strategy = some (chosen_strategy text);
        seat_strategy_show = some (chosen_strategy text);
      };
    } in
    elim (validate_seat_strategy_choice o.unicode text) [
      | some why ↦ asks_the_same why (buttons step_seat_strategy) w
      | none ↦ show_train_selection o s' (save_user_session s' w)
    ]
