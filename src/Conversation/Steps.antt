-- ===== src/Conversation/Steps.antt =====
-- The handlers of the questions keep the invariant.
use korail_ktx_macro_telegra.Common.{◌++◌, arith, none, refl, some, ◌∷◌, ◌≡◌, if◌then◌else◌, []}
use korail_ktx_macro_telegra.Conversation.{
  Outside, UserSession, World, buttons, date_input_success, dep_time_input_success,
  dst_locate_input_success, id_input_success, max_dep_time_input_success, no_buttons,
  offers_train_types, passenger_count_input_success, pw_input_success, request_arrival_station,
  request_dep_time, request_departure_station, request_dst_station, request_password,
  request_seat_type, request_seat_type_after_time, request_train_type, save_user_session,
  seat_strategy_input_success, session_operator, src_locate_input_success, srt_only, start_accepted,
  step_date, step_dep_time, step_dst_station, step_max_dep_time, step_password, step_seat_option,
  step_seat_strategy, step_src_station, step_train_type, train_type_input_success,
}
use korail_ktx_macro_telegra.Conversation.Answers.{
  dated, handle_date_input, handle_dst_station_input, handle_phone_input, handle_src_station_input,
  moves_on, normalized_or, with_phone,
}
use korail_ktx_macro_telegra.Conversation.Moves.{
  checked, either, listed, moved, quiet-At, same_question,
}
use korail_ktx_macro_telegra.Conversation.Preferences.{
  chosen_strategy, chosen_train_type, handle_dep_time_input, handle_max_dep_time_input,
  handle_seat_strategy_input, handle_train_type_input, max_time_given, no_end,
}
use korail_ktx_macro_telegra.Conversation.Ready.{
  Here, IsQuiet, IsReady, IsSound, answered, answered_at,
}
use korail_ktx_macro_telegra.Text.{Text, same}
use korail_ktx_macro_telegra.Validators.Choices.{
  validate_seat_strategy_choice, validate_train_type_choice,
}
use korail_ktx_macro_telegra.Validators.Date.{validate_date, validate_time}
use korail_ktx_macro_telegra.Validators.Phone.{normalize_phone_number, validate_phone_number}
use korail_ktx_macro_telegra.Validators.Station.{validate_station_name}

pub phone_sound :
    (o : Outside) (text : Text) (s : UserSession) (w : World)
    → Here start_accepted s w
    → IsSound (handle_phone_input o text s w)
unfolding handle_phone_input answered answered_at
phone_sound o text s w h =
    let c = with_phone (normalized_or (normalize_phone_number o.unicode text) text) s.credentials in
    checked (validate_phone_number o.unicode text) _ _
      (λ r. same_question start_accepted s r no_buttons w h refl)
      (moved (record s { credentials = some c; last_action = id_input_success }) request_password
        (buttons step_password) w h.2 (quiet-At id_input_success w h.3) refl)

pub src_station_sound :
    (o : Outside) (text : Text) (s : UserSession) (w : World)
    → Here date_input_success s w
    → IsSound (handle_src_station_input o text s w)
unfolding handle_src_station_input answered answered_at
src_station_sound o text s w h =
    checked (validate_station_name o.unicode o.stations (session_operator s) text) _ _
      (λ r. same_question date_input_success s r (buttons step_src_station) w h refl)
      (moved
        (record s {
          last_action = src_locate_input_success;
          train_info = record s.train_info { src_locate = some text };
        })
        request_arrival_station (buttons step_dst_station) w (ground (arith, h.2))
        (quiet-At src_locate_input_success w h.3) refl)

pub dst_station_sound :
    (o : Outside) (text : Text) (s : UserSession) (w : World)
    → Here src_locate_input_success s w
    → IsSound (handle_dst_station_input o text s w)
unfolding handle_dst_station_input answered answered_at
dst_station_sound o text s w h =
    checked (validate_station_name o.unicode o.stations (session_operator s) text) _ _
      (λ r. same_question src_locate_input_success s r (buttons step_dst_station) w h refl)
      (moved
        (record s {
          last_action = dst_locate_input_success;
          train_info = record s.train_info { dst_locate = some text };
        })
        request_dst_station (buttons step_dep_time) w (ground (arith, h.2))
        (quiet-At dst_locate_input_success w h.3) refl)

pub dep_time_sound :
    (o : Outside) (text : Text) (s : UserSession) (w : World)
    → Here dst_locate_input_success s w
    → IsSound (handle_dep_time_input o text s w)
unfolding handle_dep_time_input answered answered_at
dep_time_sound o text s w h =
    checked (validate_time o.unicode text) _ _
      (λ r. same_question dst_locate_input_success s r (buttons step_dep_time) w h refl)
      (moved
        (record s {
          last_action = dep_time_input_success;
          train_info = record s.train_info { dep_time = some (text ++ 48 ∷ 48 ∷ []) };
        })
        request_dep_time (buttons step_max_dep_time) w (ground (arith, h.2))
        (quiet-At dep_time_input_success w h.3) refl)

pub train_type_sound :
    (o : Outside) (text : Text) (s : UserSession) (w : World)
    → Here max_dep_time_input_success s w
    → IsSound (handle_train_type_input o text s w)
unfolding handle_train_type_input answered answered_at
train_type_sound o text s w h =
    checked (validate_train_type_choice o.unicode text) _ _
      (λ r. same_question max_dep_time_input_success s r (buttons step_train_type) w h refl)
      (moved
        (record s {
          last_action = train_type_input_success;
          train_info = record s.train_info {
            train_type = some (chosen_train_type text);
            train_type_show = some (chosen_train_type text);
          };
        })
        request_seat_type (buttons step_seat_option) w (ground (arith, h.2))
        (quiet-At train_type_input_success w h.3) refl)

pub max_time_sound :
    (s : UserSession) (w : World)
    → IsReady max_dep_time_input_success s.train_info
    → s.last_action ≡ max_dep_time_input_success
    → IsQuiet w
    → IsSound (max_time_given s w)
unfolding max_time_given answered answered_at
max_time_sound s w r e q =
    let i = record s.train_info { train_type = some srt_only; train_type_show = some srt_only } in
    let ready : IsReady train_type_input_success i = ground (arith, r) in
    either (offers_train_types (session_operator s)) _ _
      (λ _.
        moved s request_train_type (buttons step_train_type) w (rw e r)
          (rw e (quiet-At max_dep_time_input_success w q)) (rw e refl))
      (λ _.
        moved (record s { last_action = train_type_input_success; train_info = i })
          request_seat_type_after_time (buttons step_seat_option) (save_user_session s w) ready
          (quiet-At train_type_input_success (save_user_session s w) q) refl)

pub max_dep_time_sound :
    (o : Outside) (text : Text) (s : UserSession) (w : World)
    → Here dep_time_input_success s w
    → IsSound (handle_max_dep_time_input o text s w)
unfolding handle_max_dep_time_input answered answered_at
max_dep_time_sound o text s w h =
    checked (if same text no_end then none else validate_time o.unicode text) _ _
      (λ r. same_question dep_time_input_success s r (buttons step_max_dep_time) w h refl)
      (max_time_sound
        (record s {
          last_action = max_dep_time_input_success;
          train_info = record s.train_info { max_dep_time = some text };
        })
        w (ground (arith, h.2)) refl h.3)

pub dated_sound :
    (o : Outside) (text : Text) (s : UserSession) (w : World)
    → IsReady pw_input_success s.train_info
    → IsQuiet w
    → IsSound (
        dated o
          (record s {
            last_action = date_input_success;
            train_info = record s.train_info { dep_date = some text };
          })
          w)
unfolding dated answered answered_at moves_on
dated_sound o text s w r q =
    let i = record s.train_info { dep_date = some text } in
    either s.train_info.from_favourite _ _
      (λ f.
        listed o (record s { last_action = seat_strategy_input_success; train_info = i }) _
          (r.1 f, r.1, λ m. ground (arith, r.2 m)) refl q)
      (λ f.
        moved (record s { last_action = date_input_success; train_info = i })
          request_departure_station (buttons step_src_station) w
          (refl, r.1, λ m. ground (arith, r.2 m)) (quiet-At date_input_success w q) refl)

pub date_sound :
    (o : Outside) (text : Text) (s : UserSession) (w : World)
    → Here pw_input_success s w
    → IsSound (handle_date_input o text s w)
unfolding handle_date_input
date_sound o text s w h =
    checked (validate_date o.unicode o.now.date text) _ _
      (λ r. same_question pw_input_success s r (buttons step_date) w h refl)
      (dated_sound o text s w h.2 h.3)

pub seat_strategy_sound :
    (o : Outside) (text : Text) (s : UserSession) (w : World)
    → Here passenger_count_input_success s w
    → IsSound (handle_seat_strategy_input o text s w)
unfolding handle_seat_strategy_input answered answered_at
seat_strategy_sound o text s w h =
    checked (validate_seat_strategy_choice o.unicode text) _ _
      (λ r. same_question passenger_count_input_success s r (buttons step_seat_strategy) w h refl)
      (listed o
        (record s {
          last_action = seat_strategy_input_success;
          train_info = record s.train_info {
            seat_strategy = some (chosen_strategy text);
            seat_strategy_show = some (chosen_strategy text);
          };
        })
        _ h.2 refl h.3)
