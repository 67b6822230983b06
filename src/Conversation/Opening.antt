-- ===== src/Conversation/Opening.antt =====
-- The first questions: whether to begin, which railway, and whether to register again.
use korail_ktx_macro_telegra.Common.{Option, is_some, none, some, true, if◌then◌else◌}
use korail_ktx_macro_telegra.Conversation.{
  Outside, UserSession, World, at_progress, buttons, cancel_only, cancel_start_confirmation,
  delete_onboarded_account, get_onboarded_account, no_buttons, onboarding_already, onboarding_kept,
  onboarding_not_needed, onboarding_overwrite_pending, operator_chosen, operator_input_pending,
  request_operator, request_phone_number, save_user_session, send_message, session_operator,
  start_accepted, step_onboard_overwrite, step_operator, step_start_confirm, yes_no_retry,
}
use korail_ktx_macro_telegra.Conversation.Answers.{asks_the_same, moves_on}
use korail_ktx_macro_telegra.Conversation.Booking.{ends_with}
use korail_ktx_macro_telegra.Conversation.Login.{
  handle_preconfigured_login, resume_with_registered_account, uses_server_account,
}
use korail_ktx_macro_telegra.Payment.{Operator, korail}
use korail_ktx_macro_telegra.Text.{Text}
use korail_ktx_macro_telegra.Validators.Choices.{
  from_answer, no, unclear, validate_operator_choice, validate_yes_no, yes,
}

unfoldable pub handle_start_confirmation : Outside → Text → UserSession → World → World
unfolding validate_yes_no moves_on at_progress ends_with send_message
handle_start_confirmation o text s w = elim (validate_yes_no o.unicode text) [
  | yes ↦ moves_on (at_progress operator_input_pending s) request_operator (buttons step_operator) w
  | no ↦ ends_with cancel_start_confirmation no_buttons s w
  | unclear why ↦ send_message yes_no_retry (buttons step_start_confirm) w
]

-- /onboarding asked for the railway: an account on file is offered to be replaced.
unfoldable pub operator_to_register : Outside → Operator → UserSession → World → World
unfolding uses_server_account get_onboarded_account ends_with moves_on at_progress send_message
operator_to_register o op s w =
    if uses_server_account o op
    then ends_with onboarding_not_needed no_buttons s w
    else if is_some (get_onboarded_account op w)
    then moves_on (at_progress onboarding_overwrite_pending s) onboarding_already
        (buttons step_onboard_overwrite) w
    else send_message operator_chosen cancel_only w

-- /start asked for it: a login that is known is used.
unfoldable pub operator_to_book : Outside → Operator → UserSession → World → World
unfolding uses_server_account handle_preconfigured_login resume_with_registered_account send_message
operator_to_book o op s w =
    let logged = resume_with_registered_account o true s w in
    if uses_server_account o op
    then handle_preconfigured_login o s w
    else if logged.answered
    then logged.world
    else send_message operator_chosen cancel_only w

unfoldable pub operator_given : Outside → Operator → UserSession → World → World
unfolding save_user_session operator_to_register operator_to_book
operator_given o op s w =
    let s' = record s {
      last_action = start_accepted;
      train_info = record s.train_info { operator = some op };
    } in
    let w' = save_user_session s' w in
    if s.train_info.onboarding then operator_to_register o op s' w' else operator_to_book o op s' w'

unfoldable pub operator_or_korail : Option Operator → Operator
operator_or_korail none = korail
operator_or_korail (some op) = op

unfoldable pub handle_operator_input : Outside → Text → UserSession → World → World
unfolding validate_operator_choice from_answer asks_the_same operator_given operator_or_korail
handle_operator_input o text s w = elim (validate_operator_choice o.unicode text) [
  | some why ↦ asks_the_same why (buttons step_operator) w
  | none ↦ operator_given o (operator_or_korail (from_answer o.unicode text)) s w
]

unfoldable pub handle_onboarding_overwrite : Outside → Text → UserSession → World → World
unfolding validate_yes_no delete_onboarded_account session_operator moves_on ends_with send_message
handle_onboarding_overwrite o text s w = elim (validate_yes_no o.unicode text) [
  | yes ↦
      moves_on (record s { credentials = none; last_action = start_accepted }) request_phone_number
        cancel_only (delete_onboarded_account (session_operator s) w)
  | no ↦ ends_with onboarding_kept no_buttons s w
  | unclear why ↦ send_message yes_no_retry (buttons step_onboard_overwrite) w
]
