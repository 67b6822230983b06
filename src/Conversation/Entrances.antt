-- ===== src/Conversation/Entrances.antt =====
-- The ways into a dialogue: /start, the Mini App's form, and a favourite.
use korail_ktx_macro_telegra.Common.{
  ◌++◌, ◌==◌, Bool, Option, is_some, none, not, some, true, ℕ, ◌∷◌, if◌then◌else◌, [],
}
use korail_ktx_macro_telegra.Conversation.{
  FavouriteSearch, Outside, SeatOption, Strategy, TrainInfo, TrainType, UserCredentials,
  UserSession, World, all_trains, at_progress, buttons, cancel_only, consecutive,
  delete_onboarded_account, fav_needs_account, fav_started, get_onboarded_account, ktx,
  mini_app_account_required, mini_app_login_expired, mini_app_offer, mini_app_search_running,
  new_session, no_answers, no_buttons, one_person, preconfigured_login_failed, random, reset,
  save_user_session, send_message, srt_only, start_accepted, started, step_date,
}
use korail_ktx_macro_telegra.Conversation.Answers.{finish_mini_app_submission, moves_on}
use korail_ktx_macro_telegra.Conversation.Booking.{ends_with}
use korail_ktx_macro_telegra.Conversation.Dialogue.{is_searching}
use korail_ktx_macro_telegra.Conversation.Favourites.{as_train_info}
use korail_ktx_macro_telegra.Conversation.Login.{
  Logged, begin_flow, login_with_environment, resume_with_registered_account, uses_server_account,
}
use korail_ktx_macro_telegra.Conversation.Resume.{is_logged_in, offer_draft}
use korail_ktx_macro_telegra.Payment.{Operator, korail, srt}
use korail_ktx_macro_telegra.Text.{Text}

-- The session of the chat, or a fresh one
unfoldable pub given_or_new : Option UserSession → UserSession
given_or_new none = new_session
given_or_new (some s) = s

unfoldable pub session_or_new : World → UserSession
unfolding given_or_new
session_or_new w = given_or_new w.session

-- What the Mini App's form holds once it is parsed (services/mini_app_service.py)
pub record MiniAppSubmission : Type 0 where
  pub operator : Operator
  pub dep_date : Text
  pub src_station : Text
  pub dst_station : Text
  pub dep_time : Text
  pub max_dep_time : Text
  pub only_ktx : Bool
  pub seat_option : SeatOption
  pub passenger_count : ℕ
  pub side_by_side : Bool

unfoldable pub submitted_type : MiniAppSubmission → TrainType
submitted_type m = elim m.operator [
  | srt ↦ srt_only
  | korail ↦ if m.only_ktx then ktx else all_trains
]

-- MiniAppSubmission.as_train_info
unfoldable pub submitted_info : MiniAppSubmission → TrainInfo
unfolding submitted_type
submitted_info m =
    let strategy : Strategy = if m.side_by_side then consecutive else random in
    record no_answers {
      operator = some m.operator;
      dep_date = some m.dep_date;
      src_locate = some m.src_station;
      dst_locate = some m.dst_station;
      dep_time = some (m.dep_time ++ 48 ∷ 48 ∷ []);
      max_dep_time = some m.max_dep_time;
      train_type = some (submitted_type m);
      train_type_show = some (submitted_type m);
      special_info = some m.seat_option;
      special_info_show = some m.seat_option;
      passenger_count = some m.passenger_count;
      seat_strategy = some strategy;
      seat_strategy_show = some (if m.passenger_count == 1 then one_person else strategy);
    }

unfoldable pub ask_for_mini_app_account : UserSession → World → World
unfolding moves_on at_progress
ask_for_mini_app_account s w =
    moves_on (at_progress start_accepted s) mini_app_account_required cancel_only w

unfoldable pub mini_app_with_account :
    Outside → Operator → Option UserCredentials → UserSession → World → World
unfolding ask_for_mini_app_account delete_onboarded_account send_message finish_mini_app_submission
mini_app_with_account o op none s w = ask_for_mini_app_account s w
mini_app_with_account o op (some c) s w =
    if o.login op c.korail_id c.korail_pw
    then finish_mini_app_submission o (record s { credentials = some c }) w
    else ask_for_mini_app_account s
        (send_message mini_app_login_expired cancel_only (delete_onboarded_account op w))

unfoldable pub mini_app_login : Outside → Operator → UserSession → World → World
unfolding uses_server_account login_with_environment finish_mini_app_submission send_message
    ask_for_mini_app_account mini_app_with_account get_onboarded_account
mini_app_login o op s w =
    let fixed = login_with_environment o s w in
    if uses_server_account o op
    then if fixed.answered
      then finish_mini_app_submission o fixed.session fixed.world
      else ask_for_mini_app_account fixed.session
          (send_message preconfigured_login_failed cancel_only fixed.world)
    else mini_app_with_account o op (get_onboarded_account op w) s w

unfoldable pub apply_submission : Outside → MiniAppSubmission → UserSession → World → World
unfolding reset submitted_info save_user_session mini_app_login send_message
apply_submission o m s w =
    let s' = record (reset s) {
      in_progress = true;
      train_info = record (submitted_info m) { mini_app_pending = true };
    } in
    if is_searching s.last_action
    then send_message mini_app_search_running no_buttons w
    else mini_app_login o m.operator s' (save_user_session s' w)

-- `_apply_mini_app_submission`
unfoldable pub apply_mini_app_submission : Outside → MiniAppSubmission → World → World
unfolding session_or_new apply_submission
apply_mini_app_submission o m w = apply_submission o m (session_or_new w) w

-- A favourite that is logged in asks for the date alone.
unfoldable pub favourite_loaded : FavouriteSearch → Logged → World
unfolding as_train_info moves_on
favourite_loaded f logged =
    if is_logged_in logged.session
    then moves_on
        (record logged.session { train_info = record (as_train_info f) { from_favourite = true } })
        fav_started (buttons step_date) logged.world
    else logged.world

unfoldable pub favourite_login : Outside → FavouriteSearch → UserSession → World → World
unfolding uses_server_account login_with_environment ends_with get_onboarded_account
    resume_with_registered_account favourite_loaded send_message
favourite_login o f s w =
    let fixed = login_with_environment o s w in
    let registered = resume_with_registered_account o true s w in
    if uses_server_account o f.operator
    then if fixed.answered
      then favourite_loaded f fixed
      else send_message preconfigured_login_failed no_buttons fixed.world
    else if not (is_some (get_onboarded_account f.operator w))
    then ends_with fav_needs_account no_buttons s w
    else if registered.answered
    then favourite_loaded f registered
    else send_message fav_needs_account no_buttons registered.world

unfoldable pub start_from_favourite : Outside → FavouriteSearch → World → World
unfolding session_or_new reset save_user_session favourite_login
start_from_favourite o f w =
    let s = record (reset (session_or_new w)) {
      in_progress = true;
      last_action = started;
      train_info = record no_answers { operator = some f.operator };
    } in
    favourite_login o f s (save_user_session s w)

-- `offer_mini_app`, where the form is switched on
unfoldable pub offer_mini_app : UserSession → World → World
unfolding reset moves_on
offer_mini_app s w = moves_on (reset s) mini_app_offer no_buttons w

unfoldable pub start_afresh : Outside → UserSession → World → World
unfolding offer_mini_app begin_flow
start_afresh o s w = if o.mini_app_enabled then offer_mini_app s w else begin_flow o s w

-- A draft is offered before anything is written over it.
unfoldable pub start_with : Outside → UserSession → World → World
unfolding save_user_session offer_draft start_afresh
start_with o s w =
    let w' = save_user_session s w in
    if (offer_draft s w').0 then (offer_draft s w').1 else start_afresh o s w'

-- CommandHandler.handle_start without a start parameter; a session that was not stored is.
unfoldable pub handle_start : Outside → World → World
unfolding session_or_new start_with
handle_start o w = start_with o (session_or_new w) w
