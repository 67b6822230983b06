-- ===== src/Conversation/Login.antt =====
-- The logins of the dialogue: with the account of the settings, and with the account that the chat
-- registered earlier.
use korail_ktx_macro_telegra.Common.{
  ◌&&◌, Bool, false, is_some, none, some, true, ◌||◌, if◌then◌else◌,
}
use korail_ktx_macro_telegra.Conversation.{
  Outside, UserCredentials, UserSession, World, buttons, cancel_only, delete_onboarded_account,
  get_onboarded_account, onboarding_intro, onboarding_stale, preconfigured_login_failed,
  preconfigured_login_success, pw_input_success, reset, save_user_session, send_message,
  session_operator, started, step_date, step_start_confirm, welcome_message, welcome_returning,
}
use korail_ktx_macro_telegra.Payment.{Operator, korail, srt}
use korail_ktx_macro_telegra.Text.{Text}
use korail_ktx_macro_telegra.Validators.Phone.{normalize_phone_number}

-- What a login leaves: whether it dealt with the question, and the session with the world.
pub record Logged : Type 0 where
  pub answered : Bool
  pub session : UserSession
  pub world : World

unfoldable pub uses_server_account : Outside → Operator → Bool
uses_server_account o op = is_some (o.preconfigured op) && o.is_developer

unfoldable pub uses_any_server_account : Outside → Bool
uses_any_server_account o =
    o.is_developer && (is_some (o.preconfigured korail) || is_some (o.preconfigured srt))

-- A number of the settings in the form that the railway expects; other logins stay as they are.
unfoldable pub login_name : Outside → Text → Text
unfolding normalize_phone_number
login_name o name = elim (normalize_phone_number o.unicode name) [ none ↦ name | some n ↦ n ]

unfoldable pub login_as : Outside → UserCredentials → UserSession → World → Logged
unfolding session_operator save_user_session
login_as o c s w =
    let s' = record s { credentials = some c; last_action = pw_input_success } in
    if o.login (session_operator s) c.korail_id c.korail_pw
    then (record { answered = true; session = s'; world = save_user_session s' w })
    else (record { answered = false; session = s; world = w })

-- `_login_with_environment_credentials`
unfoldable pub login_with_environment : Outside → UserSession → World → Logged
unfolding login_as login_name session_operator
login_with_environment o s w = elim (o.preconfigured (session_operator s)) [
  | none ↦ record { answered = false; session = s; world = w }
  | some c ↦ login_as o (record c { korail_id = login_name o c.korail_id }) s w
]

unfoldable pub handle_preconfigured_login : Outside → UserSession → World → World
unfolding login_with_environment send_message
handle_preconfigured_login o s w =
    let logged = login_with_environment o s w in
    if logged.answered
    then send_message preconfigured_login_success (buttons step_date) logged.world
    else send_message preconfigured_login_failed cancel_only w

-- The registration no longer logs in: it goes, and the chat is sent to register again.
unfoldable pub drop_registration : UserSession → World → Logged
unfolding session_operator reset save_user_session delete_onboarded_account send_message
drop_registration s w =
    let s' = record (reset s) { in_progress = true; last_action = started } in
    record {
      answered = true;
      session = s';
      world =
          send_message onboarding_stale (buttons step_start_confirm)
            (save_user_session s' (delete_onboarded_account (session_operator s) w));
    }

-- The account logs in: its question is answered, and announced when that is wanted.
unfoldable pub use_registration : Bool → UserCredentials → UserSession → World → Logged
unfolding save_user_session send_message
use_registration announce c s w =
    let s' = record s { credentials = some c; last_action = pw_input_success } in
    let w' = save_user_session s' w in
    record {
      answered = true;
      session = s';
      world = if announce then send_message welcome_returning (buttons step_date) w' else w';
    }

unfoldable pub resume_with_registered_account : Outside → Bool → UserSession → World → Logged
unfolding session_operator get_onboarded_account drop_registration use_registration
resume_with_registered_account o announce s w =
    elim (get_onboarded_account (session_operator s) w) [
      | none ↦ record { answered = false; session = s; world = w }
      | some c ↦
          if o.login (session_operator s) c.korail_id c.korail_pw
          then use_registration announce c s w
          else drop_registration s w
    ]

-- The first question of a fresh booking
unfoldable pub begin_flow : Outside → UserSession → World → World
unfolding reset save_user_session uses_any_server_account resume_with_registered_account
    send_message
begin_flow o s w =
    let s' = record (reset s) { in_progress = true; last_action = started } in
    let w' = save_user_session s' w in
    if uses_any_server_account o
    then send_message welcome_message (buttons step_start_confirm) w'
    else let logged = resume_with_registered_account o true s' w' in
      if logged.answered
      then logged.world
      else send_message onboarding_intro (buttons step_start_confirm) w'
