-- ===== src/Conversation/Resume.antt =====
-- A booking that was left half-finished: offering it, and taking it up again.
use korail_ktx_macro_telegra.Common.{
  ◌&&◌, Bool, Option, false, none, not, some, true, if◌then◌else◌,
}
use korail_ktx_macro_telegra.Conversation.{
  Outside, Progress, TrainInfo, UserCredentials, UserSession, World, at_progress, buttons,
  no_buttons, preconfigured_login_failed, pw_input_success, resume_draft, resume_draft_no_account,
  resume_draft_pending, save_user_session, schedule_input_pending, send_message, step_resume,
  yes_no_retry,
}
use korail_ktx_macro_telegra.Conversation.Answers.{moves_on}
use korail_ktx_macro_telegra.Conversation.Booking.{show_schedule_prompt}
use korail_ktx_macro_telegra.Conversation.Favourites.{text_of}
use korail_ktx_macro_telegra.Conversation.Login.{
  Logged, begin_flow, login_with_environment, resume_with_registered_account,
  uses_any_server_account,
}
use korail_ktx_macro_telegra.Conversation.Questions.{go_to}
use korail_ktx_macro_telegra.Conversation.Trains.{has_login}
use korail_ktx_macro_telegra.Text.{Text, is_empty}
use korail_ktx_macro_telegra.Validators.Choices.{no, unclear, validate_yes_no, yes}

-- DRAFT_STATES
unfoldable pub is_draft_state : Progress → Bool
is_draft_state Progress.date_input_success = true
is_draft_state Progress.src_locate_input_success = true
is_draft_state Progress.dst_locate_input_success = true
is_draft_state Progress.dep_time_input_success = true
is_draft_state Progress.max_dep_time_input_success = true
is_draft_state Progress.train_type_input_success = true
is_draft_state Progress.special_input_success = true
is_draft_state Progress.passenger_count_input_success = true
is_draft_state Progress.seat_strategy_input_success = true
is_draft_state Progress.train_select_input_success = true
is_draft_state Progress.schedule_input_pending = true
is_draft_state _ = false

-- A draft that may be offered again: one that is parked counts as the state it was parked at.
unfoldable pub draft_at : Progress → TrainInfo → Option Progress
draft_at Progress.resume_draft_pending i = i.draft_progress
draft_at p i = some p

unfoldable pub draft_of : UserSession → Option Progress
unfolding draft_at
draft_of s = draft_at s.last_action s.train_info

unfoldable pub park : Progress → UserSession → UserSession
park p s = record s {
  in_progress = true;
  last_action = resume_draft_pending;
  train_info = record s.train_info { draft_progress = some p };
}

unfoldable pub offer_at : Option Progress → UserSession → World → Bool × World
unfolding is_draft_state text_of park moves_on
offer_at none s w = (false, w)
offer_at (some p) s w =
    if is_draft_state p && not (is_empty (text_of s.train_info.dep_date))
    then (true, moves_on (park p s) resume_draft (buttons step_resume) w)
    else (false, w)

-- Whether the question was put, and what that leaves
unfoldable pub offer_draft : UserSession → World → Bool × World
unfolding draft_of offer_at
offer_draft s w = offer_at (draft_of s) s w

-- `session.last_action == UserProgress.PW_INPUT_SUCCESS`
unfoldable pub is_logged_in : UserSession → Bool
is_logged_in s = elim s.last_action [ pw_input_success ↦ true | _ ↦ false ]

unfoldable pub has_password : Option UserCredentials → Bool
unfolding has_login
has_password none = false
has_password (some c) = has_login c

-- `_draft_login`: whether the flow may carry on
unfoldable pub draft_login_anew : Outside → UserSession → World → Logged
unfolding uses_any_server_account login_with_environment resume_with_registered_account begin_flow
    send_message
draft_login_anew o s w =
    let fixed = login_with_environment o s w in
    let registered = resume_with_registered_account o false s w in
    if uses_any_server_account o
    then if fixed.answered
      then fixed
      else (record fixed { world = send_message preconfigured_login_failed no_buttons fixed.world })
    else if registered.answered
    then (record registered { answered = is_logged_in registered.session })
    else (record {
      answered = false;
      session = s;
      world = begin_flow o s (send_message resume_draft_no_account no_buttons w);
    })

unfoldable pub draft_login : Outside → UserSession → World → Logged
unfolding has_password draft_login_anew
draft_login o s w =
    if has_password s.credentials
    then (record { answered = true; session = s; world = w })
    else draft_login_anew o s w

unfoldable pub resume_at : Outside → Progress → UserSession → World → World
unfolding go_to show_schedule_prompt at_progress save_user_session
resume_at o Progress.schedule_input_pending s w =
    let s' = at_progress schedule_input_pending s in
    show_schedule_prompt s' (save_user_session s' w)
resume_at o p s w = go_to o p s w

unfoldable pub resume_with : Outside → Option Progress → UserSession → World → World
unfolding is_draft_state begin_flow draft_login resume_at
resume_with o none s w = begin_flow o s w
resume_with o (some p) s w =
    let logged = draft_login o s w in
    if is_draft_state p
    then if logged.answered then resume_at o p logged.session logged.world else logged.world
    else begin_flow o s w

unfoldable pub handle_resume_draft : Outside → Text → UserSession → World → World
unfolding validate_yes_no resume_with begin_flow send_message
handle_resume_draft o text s w = elim (validate_yes_no o.unicode text) [
  | yes ↦
      resume_with o s.train_info.draft_progress
        (record s { train_info = record s.train_info { draft_progress = none } }) w
  | no ↦ begin_flow o s w
  | unclear why ↦ send_message yes_no_retry (buttons step_resume) w
]
