-- ===== src/Router/Buttons.antt =====
-- The buttons of the dialogue, pressed.
use mathlib.Core.Bool.{false≢true}
use korail_ktx_macro_telegra.Common.{
  ◌++◌, All, Bool, Bool-cases, List, Option, any, arith, false, inl, inr, none, refl, some, true,
  ◌∷◌, ◌≡◌, [],
}
use korail_ktx_macro_telegra.Conversation.{
  Markup, Outside, Sent, Step, UserSession, World, access_request, buttons, cancel_only, no_buttons,
  step_confirm, step_date, step_dep_time, step_dst_station, step_max_dep_time,
  step_onboard_overwrite, step_operator, step_passenger_count, step_password, step_resume,
  step_schedule, step_seat_option, step_seat_strategy, step_src_station, step_start_confirm,
  step_train_select, step_train_type,
}
use korail_ktx_macro_telegra.Conversation.Dialogue.{handle_message}
use korail_ktx_macro_telegra.Conversation.Histories.{new_world}
use korail_ktx_macro_telegra.Conversation.Ready.{Stands, fits, is_plain_markup}
use korail_ktx_macro_telegra.Router.{
  Call, CallbackQuery, answers, keeps_open, manual, named_in, partition, press_answer, press_button,
  press_data, process_callback_query, stale_button, stands_at_step, step_code, step_table, too_old,
  unknown_button,
}
use korail_ktx_macro_telegra.Router.Arrivals.{Arrival, IsTidy, arrivals-IsSound, run_arrivals}
use korail_ktx_macro_telegra.Text.{Text, same}

-- The callback data of a button of a step
unfoldable pub callback_data : Step → Text → Text
callback_data st value = step_code st ++ 58 ∷ value

abbrev pub press : Step → Text → CallbackQuery
press st value = record {
  has_id = true;
  data_given = some (callback_data st value);
  has_chat = true;
}

partition-callback_data :
    (st : Step) (value : Text) → partition (callback_data st value) ≡ (step_code st, value)
unfolding partition callback_data
partition-callback_data step_start_confirm value = refl
partition-callback_data step_operator value = refl
partition-callback_data step_password value = refl
partition-callback_data step_date value = refl
partition-callback_data step_src_station value = refl
partition-callback_data step_dst_station value = refl
partition-callback_data step_dep_time value = refl
partition-callback_data step_max_dep_time value = refl
partition-callback_data step_train_type value = refl
partition-callback_data step_seat_option value = refl
partition-callback_data step_passenger_count value = refl
partition-callback_data step_seat_strategy value = refl
partition-callback_data step_train_select value = refl
partition-callback_data step_confirm value = refl
partition-callback_data step_schedule value = refl
partition-callback_data step_onboard_overwrite value = refl
partition-callback_data step_resume value = refl

named_in-step_code : (st : Step) → named_in (step_code st) step_table ≡ some (answers st)
unfolding named_in
named_in-step_code step_start_confirm = refl
named_in-step_code step_operator = refl
named_in-step_code step_password = refl
named_in-step_code step_date = refl
named_in-step_code step_src_station = refl
named_in-step_code step_dst_station = refl
named_in-step_code step_dep_time = refl
named_in-step_code step_max_dep_time = refl
named_in-step_code step_train_type = refl
named_in-step_code step_seat_option = refl
named_in-step_code step_passenger_count = refl
named_in-step_code step_seat_strategy = refl
named_in-step_code step_train_select = refl
named_in-step_code step_confirm = refl
named_in-step_code step_schedule = refl
named_in-step_code step_onboard_overwrite = refl
named_in-step_code step_resume = refl

-- A press is read as the step and the answer that its button was made of.
press_lem :
    (o : Outside) (a : Bool) (st : Step) (value : Text) (w : World)
    → process_callback_query o a (press st value) w ≡ press_answer o st value w
unfolding process_callback_query press_data press_button
press_lem o a st value w = rw (partition-callback_data st value, named_in-step_code st) refl

unfoldable pub is_refusal : Call → Bool
is_refusal too_old = true
is_refusal unknown_button = true
is_refusal stale_button = true
is_refusal _ = false

-- A button of a message is not refused, and does what typing its answer does.
abbrev pub IsTaken : Outside → Bool → Text → World → Markup → Type 0
IsTaken o a value w (buttons st) =
    (any is_refusal (process_callback_query o a (press st value) w).0 ≡ false)
    × ((process_callback_query o a (press st value) w).1 ≡ handle_message o value w)
IsTaken o a value w _ = Unit

answered_press :
    (o : Outside) (a : Bool) (st : Step) (value : Text) (w : World)
    → stands_at_step st w.session ≡ true
    → same value manual ≡ false
    → IsTaken o a value w (buttons st)
unfolding press_answer is_refusal
answered_press o a st value w e m =
    rw (press_lem o a st value w, e, m)
      (elim (Bool-cases (keeps_open st value)) [
        | inl k ↦ rw k (refl, refl)
        | inr k ↦ rw k (refl, refl)
      ])

stands_where_it_fits :
    (r : Option UserSession) (s : UserSession) (st : Step)
    → r ≡ some s
    → fits s.last_action (buttons st) ≡ true
    → stands_at_step st r ≡ true
unfolding stands_at_step
stands_where_it_fits r s st e h = rw e (ground arith)

fresh_markup :
    (o : Outside) (a : Bool) (value : Text) (w : World) (s : UserSession) (m : Markup)
    → w.session ≡ some s
    → same value manual ≡ false
    → fits s.last_action m ≡ true
    → IsTaken o a value w m
fresh_markup o a value w s (buttons st) e v h =
    answered_press o a st value w (stands_where_it_fits w.session s st e h) v
fresh_markup o a value w s cancel_only e v h = tt
fresh_markup o a value w s access_request e v h = tt
fresh_markup o a value w s no_buttons e v h = tt

plain_markup :
    (o : Outside) (a : Bool) (value : Text) (w : World) (m : Markup)
    → is_plain_markup m ≡ true
    → IsTaken o a value w m
plain_markup o a value w (buttons st) h = absurd (false≢true h)
plain_markup o a value w cancel_only h = tt
plain_markup o a value w access_request h = tt
plain_markup o a value w no_buttons h = tt

every_button_fresh :
    (o : Outside) (a : Bool) (value : Text) (w : World) (r : Option UserSession)
    → w.session ≡ r
    → same value manual ≡ false
    → (sent : List Sent) → Stands r sent
    → All (λ m. IsTaken o a value w m.markup) sent
every_button_fresh o a value w none e v [] h = tt
every_button_fresh o a value w none e v (m ∷ ms) h =
    (plain_markup o a value w m.markup h.0, every_button_fresh o a value w none e v ms h.1)
every_button_fresh o a value w (some s) e v [] h = tt
every_button_fresh o a value w (some s) e v (m ∷ ms) h = (
  fresh_markup o a value w s m.markup e v h.1.0,
  every_button_fresh o a value w (some s) e v ms (h.0, h.1.1),
)

-- Whatever updates reached a chat, between the commands, forms and favourites that start a booking, and
-- where the answers of buttons have no white space around them: a press of a button that came with the
-- last answer of the bot, other than the one that asks for typing, is not refused as stale or unknown,
-- and does exactly what the dialogue does when its answer is typed.
pub fresh_button_accepted :
    (arrivals : List (Outside × Arrival)) (o : Outside) (administers : Bool) (value : Text)
    → All (λ a. IsTidy a.0 a.1) arrivals
    → same value manual ≡ false
    → All
        (λ m. IsTaken o administers value (run_arrivals arrivals new_world) m.markup)
        (run_arrivals arrivals new_world).sent
fresh_button_accepted arrivals o administers value t v =
    let w = run_arrivals arrivals new_world in
    every_button_fresh o administers value w w.session refl v w.sent (arrivals-IsSound arrivals t).1
