-- ===== src/Conversation/Entry.antt =====
-- The questions before the date keep the invariant: the start, the railway, the login.
use korail_ktx_macro_telegra.Common.{
  Option, arith, false, inl, inr, is_some, none, refl, some, true, ◌≡◌,
}
use korail_ktx_macro_telegra.Conversation.{
  Outside, Progress, UserCredentials, UserSession, World, ask_again_phone, at_progress, buttons,
  cancel_only, cancel_start_confirmation, delete_onboarded_account, get_onboarded_account,
  id_input_success, login_failure, login_success, mini_app_received, no_buttons, onboarding_already,
  onboarding_intro, onboarding_kept, onboarding_not_needed, onboarding_overwrite_pending,
  operator_chosen, operator_input_pending, preconfigured_login_failed, preconfigured_login_success,
  pw_input_success, request_operator, request_phone_number, reset, save_onboarded_account,
  save_user_session, seat_strategy_input_success, session_operator, start_accepted, started,
  step_date, step_onboard_overwrite, step_operator, step_password, step_start_confirm,
  welcome_message, yes_no_retry,
}
use korail_ktx_macro_telegra.Conversation.Answers.{
  finish_mini_app_submission, handle_password_input, logged_in, moves_on, try_password,
}
use korail_ktx_macro_telegra.Conversation.Login.{
  begin_flow, handle_preconfigured_login, login_with_environment, uses_any_server_account,
  uses_server_account,
}
use korail_ktx_macro_telegra.Conversation.Logins.{environment_lem, in_says, IsQuiet-delete, tried}
use korail_ktx_macro_telegra.Conversation.Moves.{
  answered_how, checked, either, ended, listed, moved, IsQuiet-send, quiet-At, same_question,
  stayed,
}
use korail_ktx_macro_telegra.Conversation.Opening.{
  handle_onboarding_overwrite, handle_operator_input, handle_start_confirmation, operator_given,
  operator_or_korail, operator_to_book, operator_to_register,
}
use korail_ktx_macro_telegra.Conversation.Ready.{
  Here, IsQuiet, IsReady, IsSound, answered, answered_at, but_date, complete,
}
use korail_ktx_macro_telegra.Payment.{Operator, korail, srt}
use korail_ktx_macro_telegra.Text.{Text}
use korail_ktx_macro_telegra.Validators.Choices.{
  from_answer, validate_operator_choice, validate_password, validate_yes_no,
}

pub begun : (o : Outside) (s : UserSession) (w : World) → IsQuiet w → IsSound (begin_flow o s w)
unfolding begin_flow save_user_session moves_on reset answered answered_at
begun o s w q =
    let s' = record (reset s) { in_progress = true; last_action = started } in
    let w' = save_user_session s' w in
    either (uses_any_server_account o) _ _
      (λ _.
        moved s' welcome_message (buttons step_start_confirm) w (refl, (λ e. e), (λ e. e))
          (quiet-At started w q) refl)
      (λ _.
        tried o true s' w' _ q ((λ e. e), (λ e. e))
          (moved s' onboarding_intro (buttons step_start_confirm) w (refl, (λ e. e), (λ e. e))
            (quiet-At started w q) refl))

pub start_sound :
    (o : Outside) (text : Text) (s : UserSession) (w : World)
    → Here started s w
    → IsSound (handle_start_confirmation o text s w)
unfolding handle_start_confirmation answered answered_at
start_sound o text s w h =
    answered_how (validate_yes_no o.unicode text) _ _ _
      (moved (at_progress operator_input_pending s) request_operator (buttons step_operator) w h.2
        (quiet-At operator_input_pending w h.3) refl)
      (ended cancel_start_confirmation no_buttons s w h.3 refl)
      (λ r. stayed started s yes_no_retry (buttons step_start_confirm) w h refl)

preconfigured_sound :
    (o : Outside) (s : UserSession) (w : World)
    → Here start_accepted s w
    → IsSound (handle_preconfigured_login o s w)
unfolding handle_preconfigured_login
preconfigured_sound o s w h = elim (environment_lem o s w h.3) [
  | inl u ↦
      rw (handle_preconfigured_login, u.0)
        (stayed start_accepted s preconfigured_login_failed cancel_only w h refl)
  | inr i ↦
      rw (handle_preconfigured_login, i.0)
        (in_says false s (login_with_environment o s w) preconfigured_login_success
          (buttons step_date) i (h.2.1, h.2.2) refl)
]

to_register_sound :
    (o : Outside) (op : Operator) (s : UserSession) (w : World)
    → Here start_accepted s w
    → IsSound (operator_to_register o op s w)
unfolding operator_to_register answered answered_at
to_register_sound o op s w h =
    either (uses_server_account o op) _ _ (λ _. ended onboarding_not_needed no_buttons s w h.3 refl)
      (λ _.
        either (is_some (get_onboarded_account op w)) _ _
          (λ _.
            moved (at_progress onboarding_overwrite_pending s) onboarding_already
              (buttons step_onboard_overwrite) w h.2 (quiet-At onboarding_overwrite_pending w h.3)
              refl)
          (λ _. stayed start_accepted s operator_chosen cancel_only w h refl))

to_book_sound :
    (o : Outside) (op : Operator) (s : UserSession) (w : World)
    → Here start_accepted s w
    → IsSound (operator_to_book o op s w)
unfolding operator_to_book
to_book_sound o op s w h =
    either (uses_server_account o op) _ _ (λ _. preconfigured_sound o s w h)
      (λ _.
        tried o true s w _ h.3 (h.2.1, h.2.2)
          (stayed start_accepted s operator_chosen cancel_only w h refl))

operator_sound :
    (o : Outside) (op : Operator) (s : UserSession) (w : World)
    → Here operator_input_pending s w
    → IsSound (operator_given o op s w)
unfolding operator_given save_user_session answered answered_at
operator_sound o op s w h =
    let s' = record s {
      last_action = start_accepted;
      train_info = record s.train_info { operator = some op };
    } in
    let w' = save_user_session s' w in
    let h' : Here start_accepted s' w' = (refl, refl, h.2, h.3) in
    either s.train_info.onboarding _ _ (λ _. to_register_sound o op s' w' h')
      (λ _. to_book_sound o op s' w' h')

pub operator_input_sound :
    (o : Outside) (text : Text) (s : UserSession) (w : World)
    → Here operator_input_pending s w
    → IsSound (handle_operator_input o text s w)
unfolding handle_operator_input
operator_input_sound o text s w h =
    checked (validate_operator_choice o.unicode text) _ _
      (λ r. same_question operator_input_pending s r (buttons step_operator) w h refl)
      (operator_sound o (operator_or_korail (from_answer o.unicode text)) s w h)

pub overwrite_sound :
    (o : Outside) (text : Text) (s : UserSession) (w : World)
    → Here onboarding_overwrite_pending s w
    → IsSound (handle_onboarding_overwrite o text s w)
unfolding handle_onboarding_overwrite answered answered_at
overwrite_sound o text s w h =
    let w' = delete_onboarded_account (session_operator s) w in
    answered_how (validate_yes_no o.unicode text) _ _ _
      (moved (record s { credentials = none; last_action = start_accepted }) request_phone_number
        cancel_only w' h.2 (quiet-At start_accepted w' (IsQuiet-delete (session_operator s) w h.3))
        refl)
      (ended onboarding_kept no_buttons s w h.3 refl)
      (λ r.
        stayed onboarding_overwrite_pending s yes_no_retry (buttons step_onboard_overwrite) w h
          refl)

-- The answers of the Mini App's form lead to the list of trains.
pub mini_app_finished :
    (o : Outside) (s : UserSession) (w : World)
    → complete s.train_info ≡ true
    → (s.train_info.from_favourite ≡ true → but_date s.train_info ≡ true)
    → IsQuiet w
    → IsSound (finish_mini_app_submission o s w)
unfolding finish_mini_app_submission save_user_session moves_on answered answered_at
mini_app_finished o s w c f q =
    let s' = record s {
      last_action = seat_strategy_input_success;
      train_info = record s.train_info { mini_app_pending = false };
    } in
    let w' = moves_on s' mini_app_received no_buttons w in
    let e : false ≡ true → complete s'.train_info ≡ true = λ x. absurd (ground arith) in
    listed o s' w' (c, f, e) refl
      (IsQuiet-send mini_app_received no_buttons (save_user_session s' w) q refl)

registered-Here :
    (op : Operator) (c : UserCredentials) (p : Progress) (s : UserSession) (w : World)
    → Here p s w
    → Here p s (save_onboarded_account op c w)
unfolding save_onboarded_account
registered-Here korail c p s w h = h
registered-Here srt c p s w h = h

logged_in_sound :
    (o : Outside) (c : UserCredentials) (s : UserSession) (w : World)
    → IsReady id_input_success s.train_info
    → IsQuiet w
    → IsSound (logged_in o c s w)
unfolding logged_in save_user_session answered answered_at
logged_in_sound o c s w r q =
    let s' = at_progress pw_input_success s in
    let w' = save_user_session s' w in
    let w'' = save_onboarded_account (session_operator s) c w' in
    let h : Here pw_input_success s' w'' =
      registered-Here (session_operator s) c pw_input_success s' w' (refl, refl, r, q) in
    either s.train_info.mini_app_pending _ _ (λ m. mini_app_finished o s' w'' (r.2 m) r.1 h.3)
      (λ _. stayed pw_input_success s' login_success (buttons step_date) w'' h refl)

password_tried :
    (o : Outside) (c : UserCredentials) (s : UserSession) (w : World)
    → Here id_input_success s w
    → IsSound (try_password o c s w)
unfolding try_password save_user_session
password_tried o c s w h =
    let s' = record s { credentials = some c } in
    let w' = save_user_session s' w in
    either (o.login (session_operator s) c.korail_id c.korail_pw) _ _
      (λ _. logged_in_sound o c s' w' h.2 h.3)
      (λ _.
        stayed id_input_success s' login_failure (buttons step_password) w' (refl, h.1, h.2, h.3)
          refl)

with_credentials :
    (o : Outside) (text : Text) (c : Option UserCredentials) (s : UserSession) (w : World)
    → Here id_input_success s w
    → IsSound (elim c [
      | none ↦ moves_on (at_progress start_accepted s) ask_again_phone cancel_only w
      | some c ↦ try_password o (record c { korail_pw = text }) s w
    ])
unfolding answered answered_at at_progress
with_credentials o text none s w h =
    moved (at_progress start_accepted s) ask_again_phone cancel_only w h.2
      (quiet-At start_accepted w h.3) refl
with_credentials o text (some c) s w h = password_tried o (record c { korail_pw = text }) s w h

pub password_sound :
    (o : Outside) (text : Text) (s : UserSession) (w : World)
    → Here id_input_success s w
    → IsSound (handle_password_input o text s w)
unfolding handle_password_input
password_sound o text s w h =
    checked (validate_password text) _ _
      (λ r. same_question id_input_success s r (buttons step_password) w h refl)
      (with_credentials o text s.credentials s w h)
