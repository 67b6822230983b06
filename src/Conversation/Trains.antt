-- ===== src/Conversation/Trains.antt =====
-- Choosing which trains to watch.
use korail_ktx_macro_telegra.Common.{
  ◌&&◌, ◌++◌, ◌==◌, Bool, List, Option, any, false, is_some, keep, none, not, some, suc, true, zero,
  ◌||◌, ℕ, ◌∷◌, if◌then◌else◌, ◌>>=◌, [],
}
use korail_ktx_macro_telegra.Conversation.{
  Outside, Query, Strategy, TrainInfo, TrainOption, TrainType, UserCredentials, UserSession, World,
  all_trains, buttons, confirm_reservation, consecutive, ktx, no_buttons, save_user_session,
  select_trains, send_message, session_operator, srt_only, step_confirm, step_train_select,
  train_list_empty, train_list_failed, train_select_input_success, train_select_unknown,
}
use korail_ktx_macro_telegra.Payment.{Operator, korail, srt}
use korail_ktx_macro_telegra.Text.{Text, Unicode, is_empty, one_of, same, strip}

unfoldable pub parse_train_type : Operator → Option TrainType → TrainType
parse_train_type srt t = srt_only
parse_train_type korail (some TrainType.ktx) = ktx
parse_train_type korail _ = all_trains

unfoldable pub strategy_of : TrainInfo → Strategy
strategy_of info = elim info.seat_strategy [ none ↦ consecutive | some t ↦ t ]

unfoldable pub passengers_of : TrainInfo → ℕ
passengers_of info = elim info.passenger_count [ none ↦ 1 | some n ↦ n ]

-- The arguments of `search_trains`; none where an answer is missing, which is caught as an error.
unfoldable pub query_of : Operator → TrainInfo → Option Query
unfolding passengers_of parse_train_type
query_of op info = do
  date ← info.dep_date
  src ← info.src_locate
  dst ← info.dst_locate
  dep ← info.dep_time
  last ← info.max_dep_time
  some (record {
    dep_date = date;
    src_locate = src;
    dst_locate = dst;
    dep_time = dep;
    max_dep_time = last;
    train_type = parse_train_type op info.train_type;
    passenger_count = passengers_of info;
  })

unfoldable pub has_login : UserCredentials → Bool
has_login c = not (is_empty c.korail_id) && not (is_empty c.korail_pw)

unfoldable pub list_trains : Outside → Operator → Option Query → Option (List TrainOption)
list_trains o op none = none
list_trains o op (some q) = o.search_trains op q

unfoldable pub fetch_train_options : Outside → UserSession → Option (List TrainOption)
unfolding has_login query_of list_trains session_operator
fetch_train_options o s = elim s.credentials [
  | none ↦ none
  | some c ↦
      if has_login c && o.login (session_operator s) c.korail_id c.korail_pw
      then list_trains o (session_operator s) (query_of (session_operator s) s.train_info)
      else none
]

unfoldable pub show_final_confirmation : UserSession → World → World
unfolding send_message
show_final_confirmation s w =
    send_message (confirm_reservation s.train_info) (buttons step_confirm) w

-- The session once the trains to watch are recorded
unfoldable pub after_selection : List Text → UserSession → UserSession
after_selection selected s = record s {
  last_action = train_select_input_success;
  train_info = record s.train_info {
    selected_trains = selected;
    train_options = [];
    train_list_message_id = none;
  };
}

unfoldable pub finish_train_selection : List Text → UserSession → World → World
unfolding after_selection save_user_session show_final_confirmation
finish_train_selection selected s w =
    let s' = after_selection selected s in show_final_confirmation s' (save_user_session s' w)

abbrev pub take {ℓ} : {A : Type ℓ} → ℕ → List A → List A
take zero xs = []
take (suc n) [] = []
take (suc n) (x ∷ xs) = x ∷ take n xs

-- MAX_TRAIN_OPTIONS
abbrev pub max_train_options : ℕ
max_train_options = 30

unfoldable pub runs : List TrainOption → Text → Bool
runs options number = any (λ t. same t.no number) options

-- The session with a list of trains on screen; ticks on trains of the list are kept.
unfoldable pub with_options : Outside → List TrainOption → UserSession → UserSession
unfolding runs
with_options o options s =
    let shown = take max_train_options options in
    record s {
      train_info = record s.train_info {
        train_options = shown;
        selected_trains = keep (runs shown) s.train_info.selected_trains;
        train_list_message_id = o.message_id;
      };
    }

unfoldable pub offer_trains : Outside → Option (List TrainOption) → UserSession → World → World
unfolding finish_train_selection with_options send_message save_user_session
offer_trains o none s w = finish_train_selection [] s (send_message train_list_failed no_buttons w)
offer_trains o (some []) s w =
    finish_train_selection [] s (send_message train_list_empty no_buttons w)
offer_trains o (some (t ∷ options)) s w =
    save_user_session (with_options o (t ∷ options) s)
      (send_message select_trains (buttons step_train_select) w)

unfoldable pub show_train_selection : Outside → UserSession → World → World
unfolding offer_trains fetch_train_options
show_train_selection o s w = offer_trains o (fetch_train_options o s) s w

-- str.split after the commas became spaces: the words of a text
unfoldable pub words_from : Unicode → Text → Text → List Text
words_from u word [] = if is_empty word then [] else word ∷ []
words_from u word (c ∷ s) =
    let inside = words_from u (word ++ c ∷ []) s in
    let after = words_from u [] s in
    if (c == 44) || u.is_space c then (if is_empty word then after else word ∷ after) else inside

unfoldable pub words : Unicode → Text → List Text
unfolding words_from
words u s = words_from u [] s

-- `selected.remove(number)`
unfoldable pub removed : Text → List Text → List Text
removed number [] = []
removed number (t ∷ ts) = if same t number then ts else t ∷ removed number ts

-- A press on a train that is ticked unticks it.
unfoldable pub toggled : Text → List Text → List Text
unfolding removed
toggled number selected =
    if one_of number selected then removed number selected else selected ++ number ∷ []

-- What one number, or a list of them, makes of the ticks
unfoldable pub ticked : List Text → List Text → List Text
unfolding toggled
ticked [] selected = selected
ticked (number ∷ []) selected = toggled number selected
ticked (number ∷ more ∷ rest) selected = number ∷ more ∷ rest

-- Redrawing edits the list on screen, or sends it again where that fails.
unfoldable pub redraw_train_selection : Outside → UserSession → World → World
unfolding send_message save_user_session
redraw_train_selection o s w =
    if is_some s.train_info.train_list_message_id && o.edits
    then w
    else save_user_session
        (record s { train_info = record s.train_info { train_list_message_id = o.message_id } })
        (send_message select_trains (buttons step_train_select) w)

abbrev pub is_nil {ℓ} : {A : Type ℓ} → List A → Bool
is_nil [] = true
is_nil (_ ∷ _) = false

unfoldable pub tick_trains : Outside → List Text → UserSession → World → World
unfolding ticked runs save_user_session redraw_train_selection send_message
tick_trains o requested s w =
    if is_nil requested || any (λ n. not (runs s.train_info.train_options n)) requested
    then send_message train_select_unknown no_buttons w
    else let s' = record s {
      train_info = record s.train_info {
        selected_trains = ticked requested s.train_info.selected_trains;
      };
    } in
      redraw_train_selection o s' (save_user_session s' w)

-- "*all", "전체", "0"
abbrev pub all_words : List Text
all_words = (42 ∷ 97 ∷ 108 ∷ 108 ∷ []) ∷ (51204 ∷ 52404 ∷ []) ∷ (48 ∷ []) ∷ []

-- "*done" and "*refresh"
abbrev pub done_word : Text
done_word = 42 ∷ 100 ∷ 111 ∷ 110 ∷ 101 ∷ []

abbrev pub refresh_word : Text
refresh_word = 42 ∷ 114 ∷ 101 ∷ 102 ∷ 114 ∷ 101 ∷ 115 ∷ 104 ∷ []

unfoldable pub select_trains_by : Outside → Text → UserSession → World → World
unfolding finish_train_selection show_train_selection tick_trains words
select_trains_by o text s w =
    if one_of text all_words
    then finish_train_selection [] s w
    else if same text done_word
    then finish_train_selection s.train_info.selected_trains s w
    else if same text refresh_word
    then show_train_selection o s w
    else tick_trains o (words o.unicode text) s w

unfoldable pub handle_train_selection_input : Outside → Text → UserSession → World → World
unfolding select_trains_by strip
handle_train_selection_input o text s w = select_trains_by o (strip o.unicode text) s w
