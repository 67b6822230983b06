-- ===== src/Conversation/Booking.antt =====
-- From the summary to a search: the confirmation, the start, the start at a chosen time, and the
-- saving of a favourite. The access gate with the reservation service, and the scheduler, are
-- `Outside.start` and `Outside.schedule`.
use korail_ktx_macro_telegra.Common.{
  ◌++◌, Bool, Option, false, is_some, none, some, true, ◌||◌, ◌∷◌, if◌then◌else◌, ◌>>=◌, [],
}
use korail_ktx_macro_telegra.Conversation.{
  Markup, Notice, Outside, SearchParams, Time, UserCredentials, UserSession, World, access_request,
  at_progress, buttons, cancelled_by_user, error_confirm_invalid, error_reservation_start_failed,
  finding_ticket, no_buttons, no_credentials, raise_key_error, request_schedule, reset,
  save_user_session, schedule_confirmed, schedule_input_pending, schedule_no_credentials,
  schedule_refused, schedule_unparseable, send_message, session_operator, step_confirm,
  step_schedule, stored, storing_failed, time_refused, trial_exhausted, trial_remaining,
  without_password,
}
use korail_ktx_macro_telegra.Conversation.Favourites.{save_favourite}
use korail_ktx_macro_telegra.Conversation.Login.{Logged, resume_with_registered_account}
use korail_ktx_macro_telegra.Conversation.Moment.{parse_start_time}
use korail_ktx_macro_telegra.Conversation.Trains.{has_login, passengers_of, strategy_of}
use korail_ktx_macro_telegra.Text.{Text, same, strip}
use korail_ktx_macro_telegra.Validators.Choices.{no, unclear, validate_yes_no, yes}

-- `_build_search_params`; none where a key is missing, which raises KeyError.
unfoldable pub build_search_params : UserSession → Option SearchParams
unfolding session_operator passengers_of strategy_of
build_search_params s = do
  date ← s.train_info.dep_date
  src ← s.train_info.src_locate
  dst ← s.train_info.dst_locate
  dep ← s.train_info.dep_time
  last ← s.train_info.max_dep_time
  kind ← s.train_info.train_type
  kind_show ← s.train_info.train_type_show
  seat ← s.train_info.special_info
  seat_show ← s.train_info.special_info_show
  some (record {
    dep_date = date;
    src_locate = src;
    dst_locate = dst;
    dep_time = dep;
    max_dep_time = last;
    train_type = kind;
    train_type_display = kind_show;
    special_option = seat;
    special_option_display = seat_show;
    passenger_count = passengers_of s.train_info;
    seat_strategy = strategy_of s.train_info;
    train_numbers = s.train_info.selected_trains;
    operator = session_operator s;
  })

-- The registration in place of credentials that were lost; without one, the dialogue ends.
unfoldable pub restored : Logged → Logged
unfolding reset save_user_session send_message
restored logged =
    if is_some logged.session.credentials || logged.answered then logged else (record {
      answered = false;
      session = reset logged.session;
      world =
          send_message no_credentials no_buttons
            (save_user_session (reset logged.session) logged.world);
    })

-- `_booking_credentials`: those of the session, or of the registration.
unfoldable pub booking_credentials : Outside → UserSession → World → Logged
unfolding resume_with_registered_account restored
booking_credentials o s w =
    let logged = restored (resume_with_registered_account o false s w) in
    if is_some s.credentials then (record { answered = true; session = s; world = w }) else logged

-- The end of a dialogue: the session is reset, and the chat is told why.
unfoldable pub ends_with : Notice → Markup → UserSession → World → World
unfolding reset save_user_session send_message
ends_with n m s w = send_message n m (save_user_session (reset s) w)

-- A search that runs: the password leaves the session.
unfoldable pub search_started : Bool → SearchParams → UserSession → World → World
unfolding without_password save_user_session send_message
search_started charged p s w =
    let w' = save_user_session (record s { credentials = without_password s.credentials }) w in
    let w'' = record w' { started = w'.started ++ p ∷ [] } in
    if charged then send_message trial_remaining no_buttons w'' else w''

unfoldable pub start_search :
    Outside → UserCredentials → Option SearchParams → UserSession → World → World
unfolding ends_with search_started at_progress save_user_session raise_key_error
start_search o c none s w = raise_key_error w
start_search o c (some p) s w =
    let s' = at_progress finding_ticket s in
    let w' = save_user_session s' w in
    if o.starts c p
    then search_started (o.is_charged c) p s' w'
    else ends_with error_reservation_start_failed no_buttons s' w'

-- The gate stands before the search.
unfoldable pub gated_search : Outside → UserSession → World → Option UserCredentials → World
unfolding ends_with start_search build_search_params
gated_search o s w none = w
gated_search o s w (some c) =
    if o.is_allowed c
    then start_search o c (build_search_params s) s w
    else ends_with trial_exhausted access_request s w

-- `_start_reservation`, with `start_booking`
unfoldable pub start_reservation : Outside → UserSession → World → World
unfolding booking_credentials gated_search
start_reservation o s w =
    let logged = booking_credentials o s w in
    gated_search o logged.session logged.world logged.session.credentials

unfoldable pub show_schedule_prompt : UserSession → World → World
unfolding at_progress save_user_session send_message
show_schedule_prompt s w =
    send_message request_schedule (buttons step_schedule)
      (save_user_session (at_progress schedule_input_pending s) w)

-- What the scheduler makes of a search
unfoldable pub hand_over :
    Outside → UserCredentials → Time → Option SearchParams → UserSession → World → World
unfolding reset save_user_session send_message raise_key_error
hand_over o c start_at none s w = raise_key_error w
hand_over o c start_at (some p) s w = elim (o.schedule c p start_at) [
  | time_refused ↦ send_message schedule_refused (buttons step_schedule) w
  | storing_failed ↦ send_message error_reservation_start_failed no_buttons w
  | stored ↦
      save_user_session (reset s)
        (send_message schedule_confirmed no_buttons (record w { scheduled = some (p, start_at) }))
]

unfoldable pub schedule_with : Outside → Time → Option UserCredentials → UserSession → World → World
unfolding has_login hand_over build_search_params send_message
schedule_with o start_at none s w = send_message schedule_no_credentials no_buttons w
schedule_with o start_at (some c) s w =
    if has_login c
    then hand_over o c start_at (build_search_params s) s w
    else send_message schedule_no_credentials no_buttons w

-- `_schedule_reservation`
unfoldable pub schedule_reservation : Outside → Time → UserSession → World → World
unfolding schedule_with
schedule_reservation o start_at s w = schedule_with o start_at s.credentials s w

unfoldable pub handle_schedule_input : Outside → Text → UserSession → World → World
unfolding parse_start_time strip schedule_reservation send_message
handle_schedule_input o text s w = elim (parse_start_time o.unicode o.now (strip o.unicode text)) [
  | none ↦ send_message schedule_unparseable (buttons step_schedule) w
  | some start_at ↦ schedule_reservation o start_at s w
]

-- "*schedule" and "*fav"
abbrev pub schedule_word : Text
schedule_word = 42 ∷ 115 ∷ 99 ∷ 104 ∷ 101 ∷ 100 ∷ 117 ∷ 108 ∷ 101 ∷ []

abbrev pub favourite_word : Text
favourite_word = 42 ∷ 102 ∷ 97 ∷ 118 ∷ []

unfoldable pub handle_final_confirmation : Outside → Text → UserSession → World → World
unfolding show_schedule_prompt save_favourite start_reservation ends_with send_message strip
    validate_yes_no
handle_final_confirmation o text s w =
    if same (strip o.unicode text) schedule_word
    then show_schedule_prompt s w
    else if same (strip o.unicode text) favourite_word
    then save_favourite o w
    else elim (validate_yes_no o.unicode text) [
      | yes ↦ start_reservation o s w
      | no ↦ ends_with cancelled_by_user no_buttons s w
      | unclear why ↦ send_message error_confirm_invalid (buttons step_confirm) w
    ]
