-- ===== src/Router.antt =====
-- TelegramUpdateProcessor of src/korail_bot/handlers/update_processor.py: which handler an update
-- reaches. The dialogue is the one of Conversation; a call of any other handler is recorded with what it
-- is given. The settling of keyboards is recorded as a call too; an exception is not modelled.
pub mod Buttons
pub mod Arrivals
mod Tests
use korail_ktx_macro_telegra.Common.{
  ◌==◌, Bool, List, Option, false, none, not, some, true, ℕ, ◌∷◌, if◌then◌else◌, [],
}
use korail_ktx_macro_telegra.Conversation.{
  Outside, Step, UserSession, World, delete_onboarded_account, number_of, step_confirm, step_date,
  step_dep_time, step_dst_station, step_max_dep_time, step_onboard_overwrite, step_operator,
  step_passenger_count, step_password, step_progress, step_resume, step_schedule, step_seat_option,
  step_seat_strategy, step_src_station, step_start_confirm, step_train_select, step_train_type,
}
use korail_ktx_macro_telegra.Conversation.Booking.{favourite_word}
use korail_ktx_macro_telegra.Conversation.Dialogue.{handle_message}
use korail_ktx_macro_telegra.Payment.{korail, srt}
use korail_ktx_macro_telegra.Text.{Text, same, strip}

-- The steps of callback data (telegramBot/keyboards.py)
pub data Button : Type 0 where
  answers : Step → Button
  cancels dead_search pending_payment access_asked notify favourite approvals users : Button

-- The code of a step in callback data
abbrev pub step_code : Step → Text
step_code step_start_confirm = 115 ∷ 116 ∷ []
step_code step_operator = 111 ∷ 112 ∷ []
step_code step_password = 112 ∷ 119 ∷ []
step_code step_date = 100 ∷ 116 ∷ []
step_code step_src_station = 115 ∷ 114 ∷ 99 ∷ []
step_code step_dst_station = 100 ∷ 115 ∷ 116 ∷ []
step_code step_dep_time = 116 ∷ 49 ∷ []
step_code step_max_dep_time = 116 ∷ 50 ∷ []
step_code step_train_type = 116 ∷ 116 ∷ []
step_code step_seat_option = 115 ∷ 111 ∷ []
step_code step_passenger_count = 112 ∷ 99 ∷ []
step_code step_seat_strategy = 115 ∷ 115 ∷ []
step_code step_train_select = 116 ∷ 114 ∷ 115 ∷ []
step_code step_confirm = 99 ∷ 102 ∷ []
step_code step_schedule = 115 ∷ 99 ∷ 104 ∷ []
step_code step_onboard_overwrite = 111 ∷ 98 ∷ 119 ∷ []
step_code step_resume = 114 ∷ 115 ∷ []

abbrev pub step_table : List (Text × Button)
step_table =
    (120 ∷ [], cancels)
    ∷ (100 ∷ 100 ∷ [], dead_search)
    ∷ (112 ∷ 121 ∷ [], pending_payment)
    ∷ (97 ∷ 99 ∷ [], access_asked)
    ∷ (110 ∷ 102 ∷ [], notify)
    ∷ (102 ∷ 118 ∷ [], favourite)
    ∷ (97 ∷ 112 ∷ [], approvals)
    ∷ (117 ∷ 115 ∷ [], users)
    ∷ (step_code step_start_confirm, answers step_start_confirm)
    ∷ (step_code step_operator, answers step_operator)
    ∷ (step_code step_password, answers step_password)
    ∷ (step_code step_date, answers step_date)
    ∷ (step_code step_src_station, answers step_src_station)
    ∷ (step_code step_dst_station, answers step_dst_station)
    ∷ (step_code step_dep_time, answers step_dep_time)
    ∷ (step_code step_max_dep_time, answers step_max_dep_time)
    ∷ (step_code step_train_type, answers step_train_type)
    ∷ (step_code step_seat_option, answers step_seat_option)
    ∷ (step_code step_passenger_count, answers step_passenger_count)
    ∷ (step_code step_seat_strategy, answers step_seat_strategy)
    ∷ (step_code step_train_select, answers step_train_select)
    ∷ (step_code step_confirm, answers step_confirm)
    ∷ (step_code step_schedule, answers step_schedule)
    ∷ (step_code step_onboard_overwrite, answers step_onboard_overwrite)
    ∷ (step_code step_resume, answers step_resume)
    ∷ []

unfoldable pub named_in : Text → List (Text × Button) → Option Button
named_in code [] = none
named_in code ((c, b) ∷ table) = if same code c then some b else named_in code table

-- `data.partition(":")`, less the colon
unfoldable pub partition : Text → Text × Text
partition [] = ([], [])
partition (c ∷ s) = let rest = partition s in if c == 58 then ([], s) else (c ∷ rest.0, rest.1)

-- What is done about an update before or beside the dialogue
pub data Call : Type 0 where
  acknowledged too_old unknown_button stale_button type_it : Call
  keyboard_settled keyboard_removed : Call
  handed_to : Button → Text → Call
  developer_claimed chat_started : Call
  command : Text → Call
  next_seat : ℕ → Call
  admin_password renamed interval_typed : Text → Call
  nothing_running : Call
  form_received : Call

-- A callback_query; a field is `none` where it is missing or of another type.
pub record CallbackQuery : Type 0 where
  pub has_id : Bool
  pub data_given : Option Text
  pub has_chat : Bool

-- "manual"
abbrev pub manual : Text
manual = 109 ∷ 97 ∷ 110 ∷ 117 ∷ 97 ∷ 108 ∷ []

-- `data in KEEPS_QUESTION_OPEN`, or a step of REPEATABLE_STEPS
unfoldable pub keeps_open : Step → Text → Bool
keeps_open step_train_select value = true
keeps_open step_confirm value = same value favourite_word
keeps_open _ value = false

-- The session stands at the question that a step answers.
unfoldable pub stands_at_step : Step → Option UserSession → Bool
stands_at_step st none = false
stands_at_step st (some s) = number_of s.last_action == number_of (step_progress st)

-- The answer of a button is the text that a user would have typed.
unfoldable pub press_answer : Outside → Step → Text → World → List Call × World
unfolding stands_at_step keeps_open handle_message
press_answer o st value w =
    let settled : List Call = if keeps_open st value then [] else keyboard_settled ∷ [] in
    if not (stands_at_step st w.session)
    then (stale_button ∷ keyboard_removed ∷ [], w)
    else if same value manual
    then (type_it ∷ keyboard_removed ∷ [], w)
    else (acknowledged ∷ settled, handle_message o value w)

-- The lists of the operator are for administrators alone.
unfoldable pub press_list : Bool → Button → Text → World → List Call × World
press_list administers b value w =
    if administers
    then (acknowledged ∷ handed_to b value ∷ [], w)
    else (acknowledged ∷ keyboard_removed ∷ [], w)

-- "ask"
abbrev pub ask : Text
ask = 97 ∷ 115 ∷ 107 ∷ []

-- Access is asked for with ACCESS_ASK; the other value dismisses the question.
unfoldable pub press_access : Text → World → List Call × World
press_access value w =
    if same value ask
    then (acknowledged ∷ keyboard_settled ∷ handed_to access_asked value ∷ [], w)
    else (acknowledged ∷ keyboard_settled ∷ [], w)

unfoldable pub press_button : Outside → Bool → Option Button → Text → World → List Call × World
unfolding press_answer press_list press_access
press_button o administers none value w = (unknown_button ∷ [], w)
press_button o administers (some (answers st)) value w = press_answer o st value w
press_button o administers (some favourite) value w =
    (acknowledged ∷ handed_to favourite value ∷ [], w)
press_button o administers (some approvals) value w = press_list administers approvals value w
press_button o administers (some users) value w = press_list administers users value w
press_button o administers (some access_asked) value w = press_access value w
press_button o administers (some cancels) value w =
    (acknowledged ∷ keyboard_settled ∷ handed_to cancels value ∷ [], w)
press_button o administers (some dead_search) value w =
    (acknowledged ∷ keyboard_settled ∷ handed_to dead_search value ∷ [], w)
press_button o administers (some pending_payment) value w =
    (acknowledged ∷ keyboard_settled ∷ handed_to pending_payment value ∷ [], w)
press_button o administers (some notify) value w =
    (acknowledged ∷ keyboard_settled ∷ handed_to notify value ∷ [], w)

unfoldable pub press_data : Outside → Bool → Bool → Option Text → World → List Call × World
unfolding partition named_in press_button
press_data o administers has_chat none w = (acknowledged ∷ [], w)
press_data o administers has_chat (some text) w =
    let parts = partition text in
    if has_chat
    then press_button o administers (named_in parts.0 step_table) parts.1 w
    else (too_old ∷ [], w)

unfoldable pub process_callback_query : Outside → Bool → CallbackQuery → World → List Call × World
unfolding press_data
process_callback_query o administers q w =
    if q.has_id then press_data o administers q.has_chat q.data_given w else ([], w)

-- What the chat is asked for outside the dialogue, and the test of `claim_developer_mode`
pub record Waiting : Type 0 where
  pub claims : Text → Bool
  pub current_seat : Option ℕ
  pub for_admin_password : Bool
  pub for_rename : Bool
  pub for_interval : Bool

-- "/cancel"
abbrev pub cancel_command : Text
cancel_command = 47 ∷ 99 ∷ 97 ∷ 110 ∷ 99 ∷ 101 ∷ 108 ∷ []

-- MINI_APP_CHAT_FALLBACK
abbrev pub chat_fallback : Text
chat_fallback = 128172 ∷ 32 ∷ 52292 ∷ 54021 ∷ 51004 ∷ 47196 ∷ 32 ∷ 50696 ∷ 50557 ∷ []

abbrev pub is_command : Text → Bool
is_command [] = false
is_command (c ∷ s) = c == 47

unfoldable pub is_in_progress : Option UserSession → Bool
is_in_progress none = false
is_in_progress (some s) = s.in_progress

-- A text that is no command
unfoldable pub answer_text : Outside → Waiting → Text → World → List Call × World
unfolding is_in_progress handle_message
answer_text o a text w = elim a.current_seat [
  | some seat ↦ (next_seat seat ∷ [], w)
  | none ↦
      if a.for_admin_password
      then (admin_password text ∷ [], w)
      else if a.for_rename
      then (renamed text ∷ [], w)
      else if a.for_interval
      then (interval_typed text ∷ [], w)
      else if is_in_progress w.session
      then ([], handle_message o text w)
      else (nothing_running ∷ [], w)
]

unfoldable pub route_text : Outside → Waiting → Text → World → List Call × World
unfolding answer_text
route_text o a text w =
    if a.claims text
    then (developer_claimed ∷ [], w)
    else if same text chat_fallback
    then (chat_started ∷ [], w)
    else if same text cancel_command
    then (handed_to cancels [] ∷ [], w)
    else if is_command text
    then (command text ∷ [], w)
    else answer_text o a text w

-- A chat that blocked the bot leaves neither a login nor a favourite behind.
unfoldable pub process_membership_change : Bool → World → World
unfolding delete_onboarded_account
process_membership_change gone w =
    if gone
    then record (delete_onboarded_account korail (delete_onboarded_account srt w)) {
      favourites = [];
    }
    else w

-- The updates of Telegram, by the key that says what they are; a text is that of a message.
pub data Update : Type 0 where
  edited_message : Update
  my_chat_member : Bool → Update
  callback_query : CallbackQuery → Update
  web_app_data : Update
  message : Option Text → Update

unfoldable pub process : Outside → Bool → Waiting → Update → World → List Call × World
unfolding process_membership_change process_callback_query strip route_text
process o administers a edited_message w = ([], w)
process o administers a (my_chat_member gone) w = ([], process_membership_change gone w)
process o administers a (callback_query q) w = process_callback_query o administers q w
process o administers a web_app_data w = (form_received ∷ [], w)
process o administers a (message none) w = ([], w)
process o administers a (message (some text)) w = route_text o a (strip o.unicode text) w
