-- ===== src/Conversation/SeatSteps.antt =====
-- The handlers of the seats and the passengers keep the invariant.
use korail_ktx_macro_telegra.Common.{Option, arith, is_some, ltb, none, refl, some, true, ℕ, ◌≡◌}
use korail_ktx_macro_telegra.Conversation.{
  Outside, SeatOption, UserSession, World, buttons, consecutive, passenger_count_input_success,
  request_passenger_count, request_seat_strategy, save_user_session, seat_strategy_input_success,
  special_input_success, step_passenger_count, step_seat_option, step_seat_strategy,
  train_type_input_success,
}
use korail_ktx_macro_telegra.Conversation.Answers.{moves_on}
use korail_ktx_macro_telegra.Conversation.Moves.{
  checked_with, either, listed, moved, quiet-At, same_question,
}
use korail_ktx_macro_telegra.Conversation.Preferences.{
  handle_passenger_count_input, handle_special_option_input, option_map, passengers_given,
  seat_chosen,
}
use korail_ktx_macro_telegra.Conversation.Ready.{
  Here, IsQuiet, IsReady, IsSound, answered, answered_at,
}
use korail_ktx_macro_telegra.Conversation.Trains.{show_train_selection}
use korail_ktx_macro_telegra.Text.{Text, one_of, strip, to_int}
use korail_ktx_macro_telegra.Validators.Bounds.{
  special_option_offered, validate_passenger_count_lem,
}
use korail_ktx_macro_telegra.Validators.Choices.{
  one_to_four, validate_passenger_count, validate_special_option_choice,
}

-- A seat option that was accepted is a key of `option_map`, when the answer has no space around it.
pub option_map_total :
    (o : Outside) (text : Text)
    → strip o.unicode text ≡ text
    → validate_special_option_choice o.unicode text ≡ none
    → is_some (option_map text) ≡ true
unfolding option_map
option_map_total o text e v =
    let c = special_option_offered o.unicode text v in
    let k : one_of text one_to_four ≡ true = rw e at c in ground (arith, k)

seat_chosen_sound :
    (seat : Option SeatOption) (s : UserSession) (w : World)
    → is_some seat ≡ true
    → IsReady train_type_input_success s.train_info
    → IsQuiet w
    → IsSound (seat_chosen seat s w)
unfolding seat_chosen answered answered_at
seat_chosen_sound none s w h r q = absurd (ground arith)
seat_chosen_sound (some seat) s w h r q =
    moved
      (record s {
        last_action = special_input_success;
        train_info = record s.train_info {
          special_info = some seat;
          special_info_show = some seat;
        };
      })
      request_passenger_count (buttons step_passenger_count) w (ground (arith, r))
      (quiet-At special_input_success w q) refl

passengers_sound :
    (o : Outside) (count : Option ℕ) (s : UserSession) (w : World)
    → is_some count ≡ true
    → IsReady special_input_success s.train_info
    → IsQuiet w
    → IsSound (passengers_given o count s w)
unfolding passengers_given moves_on answered answered_at
passengers_sound o none s w h r q = absurd (ground arith)
passengers_sound o (some count) s w h r q =
    let i = record s.train_info { passenger_count = some count } in
    let s' = record s { last_action = passenger_count_input_success; train_info = i } in
    let alone = record s' {
      last_action = seat_strategy_input_success;
      train_info = record i { seat_strategy = some consecutive };
    } in
    either (ltb 1 count) (moves_on s' request_seat_strategy (buttons step_seat_strategy) w)
      (show_train_selection o alone (save_user_session alone (save_user_session s' w)))
      (λ _.
        moved s' request_seat_strategy (buttons step_seat_strategy) w r
          (quiet-At passenger_count_input_success w q) refl)
      (λ _. listed o alone (save_user_session alone (save_user_session s' w)) r refl q)

pub special_option_sound :
    (o : Outside) (text : Text) (s : UserSession) (w : World)
    → strip o.unicode text ≡ text
    → Here train_type_input_success s w
    → IsSound (handle_special_option_input o text s w)
unfolding handle_special_option_input
special_option_sound o text s w e h =
    checked_with (validate_special_option_choice o.unicode text) _ _
      (λ r. same_question train_type_input_success s r (buttons step_seat_option) w h refl)
      (λ v. seat_chosen_sound (option_map text) s w (option_map_total o text e v) h.2 h.3)

count_is_read :
    (o : Outside) (text : Text)
    → validate_passenger_count o.unicode text ≡ none
    → is_some (to_int o.unicode (strip o.unicode text)) ≡ true
count_is_read o text v = let n = validate_passenger_count_lem o.unicode text v in rw n.1

pub passenger_count_sound :
    (o : Outside) (text : Text) (s : UserSession) (w : World)
    → Here special_input_success s w
    → IsSound (handle_passenger_count_input o text s w)
unfolding handle_passenger_count_input
passenger_count_sound o text s w h =
    let count = to_int o.unicode (strip o.unicode text) in
    checked_with (validate_passenger_count o.unicode text) _ _
      (λ r. same_question special_input_success s r (buttons step_passenger_count) w h refl)
      (λ v. passengers_sound o count s w (count_is_read o text v) h.2 h.3)
