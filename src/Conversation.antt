-- ===== src/Conversation.antt =====
-- ConversationHandler of src/korail_bot/handlers/conversation_handler.py, the dialogue that asks for a
-- booking, on the sessions of models/user.py and the steps of telegramBot/keyboards.py. One chat is
-- modelled. `train_info` is a record with an Option for each key that may be missing; a KeyError
-- that leaves a handler sets `raised`. A message is its kind and its buttons. The other services, the
-- railways and the settings are the parameter `Outside`; edits of old messages are left out.
pub mod Login
pub mod Trains
pub mod Booking
pub mod Moment
pub mod Favourites
pub mod Questions
pub mod Answers
pub mod Preferences
pub mod Opening
pub mod Resume
pub mod Dialogue
pub mod Entrances
pub mod Ready
pub mod Moves
pub mod Steps
pub mod SeatSteps
pub mod Logins
pub mod Entry
pub mod Bookings
pub mod Summaries
pub mod Drafts
pub mod Parked
pub mod Ways
pub mod Forms
pub mod Histories
pub mod Backwards
pub mod Samples
mod Tests
use korail_ktx_macro_telegra.Common.{◌++◌, Bool, List, Option, false, none, some, true, ℕ, ◌∷◌, []}
use korail_ktx_macro_telegra.Payment.{Operator, korail, srt}
use korail_ktx_macro_telegra.Text.{Text, Unicode}
use korail_ktx_macro_telegra.Validators.{Reason}
use korail_ktx_macro_telegra.Validators.Choices.{no}
use korail_ktx_macro_telegra.Validators.Date.{Day}
use korail_ktx_macro_telegra.Validators.Station.{Stations}

-- UserProgress
pub data Progress : Type 0 where
  init started start_accepted id_input_success pw_input_success date_input_success : Progress
  src_locate_input_success dst_locate_input_success dep_time_input_success : Progress
  max_dep_time_input_success train_type_input_success special_input_success : Progress
  passenger_count_input_success seat_strategy_input_success finding_ticket : Progress
  train_select_input_success schedule_input_pending onboarding_overwrite_pending : Progress
  operator_input_pending resume_draft_pending : Progress

-- The number under which Redis keeps a state
abbrev pub number_of : Progress → ℕ
number_of init = 0
number_of started = 1
number_of start_accepted = 2
number_of id_input_success = 3
number_of pw_input_success = 4
number_of date_input_success = 5
number_of src_locate_input_success = 6
number_of dst_locate_input_success = 7
number_of dep_time_input_success = 8
number_of max_dep_time_input_success = 9
number_of train_type_input_success = 10
number_of special_input_success = 11
number_of passenger_count_input_success = 12
number_of seat_strategy_input_success = 13
number_of finding_ticket = 14
number_of train_select_input_success = 15
number_of schedule_input_pending = 16
number_of onboarding_overwrite_pending = 17
number_of operator_input_pending = 18
number_of resume_draft_pending = 19

-- The steps whose buttons answer a question of the dialogue
pub data Step : Type 0 where
  step_start_confirm step_operator step_password step_date step_src_station : Step
  step_dst_station step_dep_time step_max_dep_time step_train_type step_seat_option : Step
  step_passenger_count step_seat_strategy step_train_select step_confirm step_schedule : Step
  step_onboard_overwrite step_resume : Step

-- STEP_PROGRESS
abbrev pub step_progress : Step → Progress
step_progress step_start_confirm = started
step_progress step_operator = operator_input_pending
step_progress step_password = id_input_success
step_progress step_date = pw_input_success
step_progress step_src_station = date_input_success
step_progress step_dst_station = src_locate_input_success
step_progress step_dep_time = dst_locate_input_success
step_progress step_max_dep_time = dep_time_input_success
step_progress step_train_type = max_dep_time_input_success
step_progress step_seat_option = train_type_input_success
step_progress step_passenger_count = special_input_success
step_progress step_seat_strategy = passenger_count_input_success
step_progress step_train_select = seat_strategy_input_success
step_progress step_confirm = train_select_input_success
step_progress step_schedule = schedule_input_pending
step_progress step_onboard_overwrite = onboarding_overwrite_pending
step_progress step_resume = resume_draft_pending

-- The buttons of a message: those of a step, the cancel button alone, or none that answer a step
pub data Markup : Type 0 where
  buttons : Step → Markup
  cancel_only access_request no_buttons : Markup

-- "TrainType.KTX", "TrainType.ALL", "SRT" and the empty text
pub data TrainType : Type 0 where
  ktx all_trains srt_only no_type : TrainType

-- The four ReserveOption values, and the empty text
pub data SeatOption : Type 0 where
  general_first general_only special_first special_only no_option : SeatOption

-- "consecutive" and "random", also their labels; the label "1명", and the empty text
pub data Strategy : Type 0 where
  consecutive random one_person no_strategy : Strategy

pub record TrainOption : Type 0 where
  pub no : Text
  pub soldout : Bool

pub record UserCredentials : Type 0 where
  pub korail_id : Text
  pub korail_pw : Text

pub record TrainInfo : Type 0 where
  pub operator : Option Operator
  pub dep_date : Option Text
  pub src_locate : Option Text
  pub dst_locate : Option Text
  pub dep_time : Option Text
  pub max_dep_time : Option Text
  pub train_type : Option TrainType
  pub train_type_show : Option TrainType
  pub special_info : Option SeatOption
  pub special_info_show : Option SeatOption
  pub passenger_count : Option ℕ
  pub seat_strategy : Option Strategy
  pub seat_strategy_show : Option Strategy
  pub selected_trains : List Text
  pub train_options : List TrainOption
  pub train_list_message_id : Option ℕ
  pub onboarding : Bool
  pub from_favourite : Bool
  pub mini_app_pending : Bool
  pub draft_progress : Option Progress

abbrev pub no_answers : TrainInfo
no_answers = record {
  operator = none;
  dep_date = none;
  src_locate = none;
  dst_locate = none;
  dep_time = none;
  max_dep_time = none;
  train_type = none;
  train_type_show = none;
  special_info = none;
  special_info_show = none;
  passenger_count = none;
  seat_strategy = none;
  seat_strategy_show = none;
  selected_trains = [];
  train_options = [];
  train_list_message_id = none;
  onboarding = false;
  from_favourite = false;
  mini_app_pending = false;
  draft_progress = none;
}

pub record UserSession : Type 0 where
  pub in_progress : Bool
  pub last_action : Progress
  pub credentials : Option UserCredentials
  pub train_info : TrainInfo

abbrev pub new_session : UserSession
new_session = record {
  in_progress = false;
  last_action = init;
  credentials = none;
  train_info = no_answers;
}

unfoldable pub without_password : Option UserCredentials → Option UserCredentials
without_password none = none
without_password (some c) = some (record c { korail_pw = [] })

-- `session.reset()`
unfoldable pub reset : UserSession → UserSession
unfolding without_password
reset s = record {
  in_progress = false;
  last_action = init;
  credentials = without_password s.credentials;
  train_info = no_answers;
}

-- What a search is driven by
pub record SearchParams : Type 0 where
  pub dep_date : Text
  pub src_locate : Text
  pub dst_locate : Text
  pub dep_time : Text
  pub max_dep_time : Text
  pub train_type : TrainType
  pub train_type_display : TrainType
  pub special_option : SeatOption
  pub special_option_display : SeatOption
  pub passenger_count : ℕ
  pub seat_strategy : Strategy
  pub train_numbers : List Text
  pub operator : Operator

-- What `search_trains` is asked for
pub record Query : Type 0 where
  pub dep_date : Text
  pub src_locate : Text
  pub dst_locate : Text
  pub dep_time : Text
  pub max_dep_time : Text
  pub train_type : TrainType
  pub passenger_count : ℕ

-- A saved search. Its id, its name and when it was made are left out.
pub record FavouriteSearch : Type 0 where
  pub src_locate : Text
  pub dst_locate : Text
  pub dep_time : Text
  pub max_dep_time : Text
  pub train_type : TrainType
  pub train_type_display : TrainType
  pub special_option : SeatOption
  pub special_option_display : SeatOption
  pub passenger_count : ℕ
  pub seat_strategy : Strategy
  pub seat_strategy_display : Strategy
  pub operator : Operator

-- What is said to the chat
pub data Notice : Type 0 where
  no_session already_running unknown_state cancel_start_confirmation yes_no_retry : Notice
  request_operator onboarding_not_needed onboarding_already operator_chosen : Notice
  preconfigured_login_success preconfigured_login_failed onboarding_kept : Notice
  request_phone_number onboarding_stale welcome_returning resume_draft onboarding_intro : Notice
  welcome_message mini_app_offer mini_app_search_running mini_app_login_expired
        mini_app_account_required :
      Notice
  mini_app_received resume_draft_no_account fav_needs_account fav_started request_password : Notice
  ask_again_phone login_success login_failure request_departure_station : Notice
  request_arrival_station request_dst_station request_dep_time request_train_type : Notice
  request_seat_type request_seat_type_after_time request_passenger_count : Notice
  request_seat_strategy train_list_failed train_list_empty select_trains : Notice
  train_select_unknown back_at_the_start request_schedule schedule_unparseable : Notice
  schedule_no_credentials schedule_refused schedule_confirmed cancelled_by_user : Notice
  error_confirm_invalid error_reservation_start_failed no_credentials trial_exhausted : Notice
  trial_remaining fav_incomplete fav_full fav_saved : Notice
  refused : Reason → Notice
  ask_again : Progress → Notice
  confirm_reservation : TrainInfo → Notice

pub record Sent : Type 0 where
  pub notice : Notice
  pub markup : Markup

-- How the scheduler answers to a search that is to start later
pub data Scheduling : Type 0 where
  time_refused storing_failed stored : Scheduling

pub record Time : Type 0 where
  pub date : Day
  pub hour : ℕ
  pub minute : ℕ

pub record Outside : Type 0 where
  pub unicode : Unicode
  pub now : Time
  pub stations : Stations
  pub login : Operator → Text → Text → Bool
  pub search_trains : Operator → Query → Option (List TrainOption)
  pub is_developer : Bool
  pub preconfigured : Operator → Option UserCredentials
  pub message_id : Option ℕ
  pub edits : Bool
  pub is_allowed : UserCredentials → Bool
  pub starts : UserCredentials → SearchParams → Bool
  pub is_charged : UserCredentials → Bool
  pub schedule : UserCredentials → SearchParams → Time → Scheduling
  pub max_favourites : ℕ
  pub mini_app_enabled : Bool

-- What is stored for the chat, what was sent to it, and what was started or scheduled for it
pub record World : Type 0 where
  pub session : Option UserSession
  pub korail_account : Option UserCredentials
  pub srt_account : Option UserCredentials
  pub favourites : List FavouriteSearch
  pub sent : List Sent
  pub started : List SearchParams
  pub scheduled : Option (SearchParams × Time)
  pub raised : Bool

unfoldable pub send_message : Notice → Markup → World → World
send_message n m w = record w { sent = w.sent ++ (record { notice = n; markup = m }) ∷ [] }

unfoldable pub save_user_session : UserSession → World → World
save_user_session s w = record w { session = some s }

-- A KeyError that no handler catches
unfoldable pub raise_key_error : World → World
raise_key_error w = record w { raised = true }

unfoldable pub get_onboarded_account : Operator → World → Option UserCredentials
get_onboarded_account korail w = w.korail_account
get_onboarded_account srt w = w.srt_account

unfoldable pub save_onboarded_account : Operator → UserCredentials → World → World
save_onboarded_account korail c w = record w { korail_account = some c }
save_onboarded_account srt c w = record w { srt_account = some c }

unfoldable pub delete_onboarded_account : Operator → World → World
delete_onboarded_account korail w = record w { korail_account = none }
delete_onboarded_account srt w = record w { srt_account = none }

unfoldable pub at_progress : Progress → UserSession → UserSession
at_progress p s = record s { last_action = p }

unfoldable pub session_operator : UserSession → Operator
session_operator s = elim s.train_info.operator [ none ↦ korail | some op ↦ op ]

unfoldable pub offers_train_types : Operator → Bool
offers_train_types korail = true
offers_train_types srt = false
