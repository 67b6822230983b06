-- ===== src/Conversation/Backwards.antt =====
-- Going back keeps the invariant, and always finds a question to ask.
use korail_ktx_macro_telegra.Common.{Bool, arith, false, none, refl, some, true, ◌≡◌, if◌then◌else◌}
use korail_ktx_macro_telegra.Conversation.{
  Outside, Progress, UserSession, World, ask_again, at_progress, back_at_the_start, buttons,
  cancel_only, confirm_reservation, date_input_success, dep_time_input_success,
  dst_locate_input_success, finding_ticket, init, max_dep_time_input_success, no_buttons,
  offers_train_types, onboarding_overwrite_pending, operator_input_pending,
  passenger_count_input_success, pw_input_success, resume_draft_pending, save_user_session,
  seat_strategy_input_success, send_message, session_operator, special_input_success,
  src_locate_input_success, start_accepted, started, step_confirm, step_date, step_dep_time,
  step_dst_station, step_max_dep_time, step_operator, step_passenger_count, step_seat_option,
  step_seat_strategy, step_src_station, step_train_type, train_select_input_success,
  train_type_input_success,
}
use korail_ktx_macro_telegra.Conversation.Answers.{moves_on}
use korail_ktx_macro_telegra.Conversation.Moves.{listed, moved, quiet-At, stayed}
use korail_ktx_macro_telegra.Conversation.Questions.{
  asks_again_with, back_targets, go_to, handle_back, prompts, reask, skip_unasked, travels_alone,
}
use korail_ktx_macro_telegra.Conversation.Ready.{
  Here, IsQuiet, IsReady, IsSound, answered, answered_at,
}

-- A state whose question can be put up again
abbrev pub can_ask : Progress → Bool
can_ask Progress.start_accepted = true
can_ask Progress.pw_input_success = true
can_ask Progress.date_input_success = true
can_ask Progress.src_locate_input_success = true
can_ask Progress.dst_locate_input_success = true
can_ask Progress.dep_time_input_success = true
can_ask Progress.max_dep_time_input_success = true
can_ask Progress.train_type_input_success = true
can_ask Progress.special_input_success = true
can_ask Progress.passenger_count_input_success = true
can_ask Progress.seat_strategy_input_success = true
can_ask Progress.train_select_input_success = true
can_ask Progress.operator_input_pending = true
can_ask _ = false

-- Putting up the question of a state that the answers are ready for
pub go_sound :
    (o : Outside) (p : Progress) (s : UserSession) (w : World)
    → can_ask p ≡ true
    → IsReady p s.train_info
    → IsQuiet w
    → IsSound (go_to o p s w)
unfolding go_to reask answered answered_at moves_on asks_again_with prompts at_progress
go_sound o Progress.init s w c r q = absurd (ground arith)
go_sound o Progress.started s w c r q = absurd (ground arith)
go_sound o Progress.start_accepted s w c r q =
    moved (at_progress start_accepted s) (ask_again start_accepted) cancel_only w r
      (quiet-At start_accepted w q) refl
go_sound o Progress.id_input_success s w c r q = absurd (ground arith)
go_sound o Progress.pw_input_success s w c r q =
    moved (at_progress pw_input_success s) (ask_again pw_input_success) (buttons step_date) w r
      (quiet-At pw_input_success w q) refl
go_sound o Progress.date_input_success s w c r q =
    moved (at_progress date_input_success s) (ask_again date_input_success)
      (buttons step_src_station) w r (quiet-At date_input_success w q) refl
go_sound o Progress.src_locate_input_success s w c r q =
    moved (at_progress src_locate_input_success s) (ask_again src_locate_input_success)
      (buttons step_dst_station) w r (quiet-At src_locate_input_success w q) refl
go_sound o Progress.dst_locate_input_success s w c r q =
    moved (at_progress dst_locate_input_success s) (ask_again dst_locate_input_success)
      (buttons step_dep_time) w r (quiet-At dst_locate_input_success w q) refl
go_sound o Progress.dep_time_input_success s w c r q =
    moved (at_progress dep_time_input_success s) (ask_again dep_time_input_success)
      (buttons step_max_dep_time) w r (quiet-At dep_time_input_success w q) refl
go_sound o Progress.max_dep_time_input_success s w c r q =
    moved (at_progress max_dep_time_input_success s) (ask_again max_dep_time_input_success)
      (buttons step_train_type) w r (quiet-At max_dep_time_input_success w q) refl
go_sound o Progress.train_type_input_success s w c r q =
    moved (at_progress train_type_input_success s) (ask_again train_type_input_success)
      (buttons step_seat_option) w r (quiet-At train_type_input_success w q) refl
go_sound o Progress.special_input_success s w c r q =
    moved (at_progress special_input_success s) (ask_again special_input_success)
      (buttons step_passenger_count) w r (quiet-At special_input_success w q) refl
go_sound o Progress.passenger_count_input_success s w c r q =
    moved (at_progress passenger_count_input_success s) (ask_again passenger_count_input_success)
      (buttons step_seat_strategy) w r (quiet-At passenger_count_input_success w q) refl
go_sound o Progress.seat_strategy_input_success s w c r q =
    listed o (at_progress seat_strategy_input_success s)
      (save_user_session (at_progress seat_strategy_input_success s) w) r refl q
go_sound o Progress.finding_ticket s w c r q = absurd (ground arith)
go_sound o Progress.train_select_input_success s w c r q =
    moved (at_progress train_select_input_success s) (confirm_reservation s.train_info)
      (buttons step_confirm) w r (quiet-At train_select_input_success w q) refl
go_sound o Progress.schedule_input_pending s w c r q = absurd (ground arith)
go_sound o Progress.onboarding_overwrite_pending s w c r q = absurd (ground arith)
go_sound o Progress.operator_input_pending s w c r q =
    moved (at_progress operator_input_pending s) (ask_again operator_input_pending)
      (buttons step_operator) w r (quiet-At operator_input_pending w q) refl
go_sound o Progress.resume_draft_pending s w c r q = absurd (ground arith)

either_way :
    (o : Outside) (b : Bool) (p q : Progress) (s : UserSession) (w : World)
    → IsSound (go_to o p s w)
    → IsSound (go_to o q s w)
    → IsSound (go_to o (if b then p else q) s w)
either_way o true p q s w h k = h
either_way o false p q s w h k = k

back_from :
    (o : Outside) (p : Progress) (s : UserSession) (w : World)
    → Here p s w
    → IsSound (elim (back_targets p) [
      | none ↦ send_message back_at_the_start no_buttons w
      | some target ↦ go_to o (skip_unasked s target) s w
    ])
unfolding back_targets skip_unasked answered answered_at
back_from o Progress.init s w h = stayed init s back_at_the_start no_buttons w h refl
back_from o Progress.started s w h = stayed started s back_at_the_start no_buttons w h refl
back_from o Progress.start_accepted s w h =
    go_sound o operator_input_pending s w refl (refl, h.2.1, h.2.2) h.3
back_from o Progress.id_input_success s w h =
    go_sound o start_accepted s w refl (refl, h.2.1, h.2.2) h.3
back_from o Progress.pw_input_success s w h =
    stayed pw_input_success s back_at_the_start no_buttons w h refl
back_from o Progress.date_input_success s w h =
    go_sound o pw_input_success s w refl (refl, h.2.1, h.2.2) h.3
back_from o Progress.src_locate_input_success s w h =
    go_sound o date_input_success s w refl (ground (arith, h.2), h.2.1, h.2.2) h.3
back_from o Progress.dst_locate_input_success s w h =
    go_sound o src_locate_input_success s w refl (ground (arith, h.2), h.2.1, h.2.2) h.3
back_from o Progress.dep_time_input_success s w h =
    go_sound o dst_locate_input_success s w refl (ground (arith, h.2), h.2.1, h.2.2) h.3
back_from o Progress.max_dep_time_input_success s w h =
    go_sound o dep_time_input_success s w refl (ground (arith, h.2), h.2.1, h.2.2) h.3
back_from o Progress.train_type_input_success s w h =
    either_way o (offers_train_types (session_operator s)) max_dep_time_input_success
      dep_time_input_success s w
      (go_sound o max_dep_time_input_success s w refl (ground (arith, h.2), h.2.1, h.2.2) h.3)
      (go_sound o dep_time_input_success s w refl (ground (arith, h.2), h.2.1, h.2.2) h.3)
back_from o Progress.special_input_success s w h =
    go_sound o train_type_input_success s w refl (ground (arith, h.2), h.2.1, h.2.2) h.3
back_from o Progress.passenger_count_input_success s w h =
    go_sound o special_input_success s w refl (ground (arith, h.2), h.2.1, h.2.2) h.3
back_from o Progress.seat_strategy_input_success s w h =
    either_way o (travels_alone s.train_info) special_input_success passenger_count_input_success s
      w (go_sound o special_input_success s w refl (ground (arith, h.2), h.2.1, h.2.2) h.3)
      (go_sound o passenger_count_input_success s w refl (ground (arith, h.2), h.2.1, h.2.2) h.3)
back_from o Progress.finding_ticket s w h =
    stayed finding_ticket s back_at_the_start no_buttons w h refl
back_from o Progress.train_select_input_success s w h =
    go_sound o seat_strategy_input_success s w refl (ground (arith, h.2), h.2.1, h.2.2) h.3
back_from o Progress.schedule_input_pending s w h =
    go_sound o train_select_input_success s w refl (ground (arith, h.2), h.2.1, h.2.2) h.3
back_from o Progress.onboarding_overwrite_pending s w h =
    stayed onboarding_overwrite_pending s back_at_the_start no_buttons w h refl
back_from o Progress.operator_input_pending s w h =
    stayed operator_input_pending s back_at_the_start no_buttons w h refl
back_from o Progress.resume_draft_pending s w h =
    stayed resume_draft_pending s back_at_the_start no_buttons w h refl

pub back_sound :
    (o : Outside) (s : UserSession) (w : World)
    → Here s.last_action s w
    → IsSound (handle_back o s w)
unfolding handle_back
back_sound o s w h = back_from o s.last_action s w h
