-- ===== src/Conversation/Answers.antt =====
-- The handlers of the questions from the phone number to the stations: each checks the answer, keeps it
-- in `train_info`, and puts up the next question.
use korail_ktx_macro_telegra.Common.{Option, false, none, some, if◌then◌else◌, []}
use korail_ktx_macro_telegra.Conversation.{
  Markup, Notice, Outside, UserCredentials, UserSession, World, ask_again_phone, at_progress,
  buttons, cancel_only, date_input_success, dst_locate_input_success, id_input_success,
  login_failure, login_success, mini_app_received, no_buttons, pw_input_success, refused,
  request_arrival_station, request_departure_station, request_dst_station, request_password,
  save_onboarded_account, save_user_session, seat_strategy_input_success, send_message,
  session_operator, src_locate_input_success, start_accepted, step_date, step_dep_time,
  step_dst_station, step_password, step_src_station,
}
use korail_ktx_macro_telegra.Conversation.Trains.{show_train_selection}
use korail_ktx_macro_telegra.Text.{Text}
use korail_ktx_macro_telegra.Validators.{Reason}
use korail_ktx_macro_telegra.Validators.Choices.{validate_password}
use korail_ktx_macro_telegra.Validators.Date.{validate_date}
use korail_ktx_macro_telegra.Validators.Phone.{normalize_phone_number, validate_phone_number}
use korail_ktx_macro_telegra.Validators.Station.{validate_station_name}

-- The session moves on and the next question is put up.
unfoldable pub moves_on : UserSession → Notice → Markup → World → World
unfolding save_user_session send_message
moves_on s n m w = send_message n m (save_user_session s w)

-- An answer that is refused leaves the session where it is; the question stays up.
unfoldable pub asks_the_same : Reason → Markup → World → World
unfolding send_message
asks_the_same why m w = send_message (refused why) m w

unfoldable pub with_phone : Text → Option UserCredentials → UserCredentials
with_phone phone none = record { korail_id = phone; korail_pw = [] }
with_phone phone (some c) = record c { korail_id = phone }

unfoldable pub normalized_or : Option Text → Text → Text
normalized_or none text = text
normalized_or (some phone) text = phone

unfoldable pub handle_phone_input : Outside → Text → UserSession → World → World
unfolding with_phone normalized_or moves_on asks_the_same normalize_phone_number
    validate_phone_number
handle_phone_input o text s w = elim (validate_phone_number o.unicode text) [
  | some why ↦ asks_the_same why no_buttons w
  | none ↦
      let phone = normalized_or (normalize_phone_number o.unicode text) text in
      moves_on
        (record s {
          credentials = some (with_phone phone s.credentials);
          last_action = id_input_success;
        })
        request_password (buttons step_password) w
]

-- `_finish_mini_app_submission`
unfoldable pub finish_mini_app_submission : Outside → UserSession → World → World
unfolding moves_on show_train_selection
finish_mini_app_submission o s w =
    let s' = record s {
      last_action = seat_strategy_input_success;
      train_info = record s.train_info { mini_app_pending = false };
    } in
    show_train_selection o s' (moves_on s' mini_app_received no_buttons w)

-- A login that works is registered, and the dialogue goes on.
unfoldable pub logged_in : Outside → UserCredentials → UserSession → World → World
unfolding at_progress save_user_session save_onboarded_account session_operator send_message
    finish_mini_app_submission
logged_in o c s w =
    let s' = at_progress pw_input_success s in
    let w' = save_onboarded_account (session_operator s) c (save_user_session s' w) in
    if s.train_info.mini_app_pending
    then finish_mini_app_submission o s' w'
    else send_message login_success (buttons step_date) w'

unfoldable pub try_password : Outside → UserCredentials → UserSession → World → World
unfolding save_user_session session_operator logged_in send_message
try_password o c s w =
    let s' = record s { credentials = some c } in
    let w' = save_user_session s' w in
    if o.login (session_operator s) c.korail_id c.korail_pw
    then logged_in o c s' w'
    else send_message login_failure (buttons step_password) w'

unfoldable pub handle_password_input : Outside → Text → UserSession → World → World
unfolding validate_password asks_the_same moves_on at_progress try_password
handle_password_input o text s w = elim (validate_password text) [
  | some why ↦ asks_the_same why (buttons step_password) w
  | none ↦ elim s.credentials [
    | none ↦ moves_on (at_progress start_accepted s) ask_again_phone cancel_only w
    | some c ↦ try_password o (record c { korail_pw = text }) s w
  ]
]

-- The date was the last question for a search that was loaded from a favourite.
unfoldable pub dated : Outside → UserSession → World → World
unfolding save_user_session at_progress show_train_selection send_message
dated o s w =
    let w' = save_user_session s w in
    let s' = at_progress seat_strategy_input_success s in
    if s.train_info.from_favourite
    then show_train_selection o s' (save_user_session s' w')
    else send_message request_departure_station (buttons step_src_station) w'

unfoldable pub handle_date_input : Outside → Text → UserSession → World → World
unfolding validate_date asks_the_same dated
handle_date_input o text s w = elim (validate_date o.unicode o.now.date text) [
  | some why ↦ asks_the_same why (buttons step_date) w
  | none ↦
      dated o
        (record s {
          last_action = date_input_success;
          train_info = record s.train_info { dep_date = some text };
        })
        w
]

unfoldable pub handle_src_station_input : Outside → Text → UserSession → World → World
unfolding validate_station_name session_operator asks_the_same moves_on
handle_src_station_input o text s w =
    elim (validate_station_name o.unicode o.stations (session_operator s) text) [
      | some why ↦ asks_the_same why (buttons step_src_station) w
      | none ↦
          moves_on
            (record s {
              last_action = src_locate_input_success;
              train_info = record s.train_info { src_locate = some text };
            })
            request_arrival_station (buttons step_dst_station) w
    ]

unfoldable pub handle_dst_station_input : Outside → Text → UserSession → World → World
unfolding validate_station_name session_operator asks_the_same moves_on
handle_dst_station_input o text s w =
    elim (validate_station_name o.unicode o.stations (session_operator s) text) [
      | some why ↦ asks_the_same why (buttons step_dst_station) w
      | none ↦
          moves_on
            (record s {
              last_action = dst_locate_input_success;
              train_info = record s.train_info { dst_locate = some text };
            })
            request_dst_station (buttons step_dep_time) w
    ]
