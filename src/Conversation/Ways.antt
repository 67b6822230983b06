-- ===== src/Conversation/Ways.antt =====
-- The train list, the logins, the way back, and the end of the dialogue keep the invariant.
use korail_ktx_macro_telegra.Common.{◌&&◌, List, any, is_some, not, refl, ◌||◌, []}
use korail_ktx_macro_telegra.Conversation.{
  Outside, UserSession, World, buttons, no_buttons, save_user_session, seat_strategy_input_success,
  select_trains, send_message, step_train_select, train_select_unknown,
}
use korail_ktx_macro_telegra.Conversation.Moves.{
  At-send, either, finished, listed, quiet-At, stayed, unchanged,
}
use korail_ktx_macro_telegra.Conversation.Ready.{Here, IsSound, answered, answered_at}
use korail_ktx_macro_telegra.Conversation.Trains.{
  all_words, done_word, handle_train_selection_input, is_nil, redraw_train_selection, refresh_word,
  runs, tick_trains, ticked, words,
}
use korail_ktx_macro_telegra.Text.{Text, one_of, same, strip}

redrawn_sound :
    (o : Outside) (s : UserSession) (w : World)
    → Here seat_strategy_input_success s w
    → IsSound (redraw_train_selection o s w)
unfolding redraw_train_selection answered answered_at save_user_session send_message
redrawn_sound o s w h =
    let a =
      At-send seat_strategy_input_success select_trains (buttons step_train_select) w
        (quiet-At seat_strategy_input_success w h.3) refl in
    either (is_some s.train_info.train_list_message_id && o.edits) w _
      (λ _. unchanged seat_strategy_input_success s w h) (λ _. rw h.1 (a.0, (h.2, a.1)))

ticking_sound :
    (o : Outside) (requested : List Text) (s : UserSession) (w : World)
    → Here seat_strategy_input_success s w
    → IsSound (tick_trains o requested s w)
unfolding tick_trains answered answered_at save_user_session
ticking_sound o requested s w h =
    let i = record s.train_info {
      selected_trains = ticked requested s.train_info.selected_trains;
    } in
    let s' = record s { train_info = i } in
    either (is_nil requested || any (λ n. not (runs s.train_info.train_options n)) requested) _ _
      (λ _. stayed seat_strategy_input_success s train_select_unknown no_buttons w h refl)
      (λ _. redrawn_sound o s' (save_user_session s' w) (refl, h.1, h.2, h.3))

pub train_selection_sound :
    (o : Outside) (text : Text) (s : UserSession) (w : World)
    → Here seat_strategy_input_success s w
    → IsSound (handle_train_selection_input o text s w)
unfolding handle_train_selection_input
train_selection_sound o text s w h =
    let t = strip o.unicode text in
    either (one_of t all_words) _ _ (λ _. finished [] s w h.2 h.3)
      (λ _.
        either (same t done_word) _ _ (λ _. finished s.train_info.selected_trains s w h.2 h.3)
          (λ _.
            either (same t refresh_word) _ _ (λ _. listed o s w h.2 h.1 h.3)
              (λ _. ticking_sound o (words o.unicode t) s w h)))
