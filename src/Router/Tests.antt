-- ===== src/Router/Tests.antt =====
-- Runs of the update processor, and instances of its theorems.
use korail_ktx_macro_telegra.Common.{◌++◌, All, List, false, none, refl, some, true, ◌∷◌, ◌≡◌, []}
use korail_ktx_macro_telegra.Conversation.{Outside, step_confirm, step_date}
use korail_ktx_macro_telegra.Conversation.Histories.{new_world, submits}
use korail_ktx_macro_telegra.Conversation.Questions.{back_button}
use korail_ktx_macro_telegra.Conversation.Ready.{IsSound}
use korail_ktx_macro_telegra.Conversation.Samples.{form, outside, password, phone}
use korail_ktx_macro_telegra.Router.{
  Waiting, callback_query, keyboard_removed, message, partition, process_callback_query,
  stale_button, stands_at_step,
}
use korail_ktx_macro_telegra.Router.Arrivals.{
  Arrival, arrivals-IsSound, arrives, does, run_arrivals,
}
use korail_ktx_macro_telegra.Router.Buttons.{IsTaken, callback_data, fresh_button_accepted, press}
use korail_ktx_macro_telegra.Text.{Text, strip}

-- Nothing is waited for.
abbrev nothing_waits : Waiting
nothing_waits = record {
  claims = λ text. false;
  current_seat = none;
  for_admin_password = false;
  for_rename = false;
  for_interval = false;
}

abbrev typed : Text → Arrival
typed text = arrives false nothing_waits (message (some text))

-- The form arrives, and the login is typed, with white space behind the phone number.
abbrev login_typed : List (Outside × Arrival)
login_typed =
    (outside, does (submits form))
    ∷ (outside, typed (phone ++ 32 ∷ []))
    ∷ (outside, typed password)
    ∷ []

-- Then the button that goes back is pressed at the summary; no train list can be had, so the summary is shown
-- again.
abbrev went_back : List (Outside × Arrival)
went_back =
    login_typed
    ++ (outside, arrives false nothing_waits (callback_query (press step_confirm back_button))) ∷ []

back_at_the_summary : stands_at_step step_confirm (run_arrivals went_back new_world).session ≡ true
unfolding run_arrivals stands_at_step callback_data
back_at_the_summary = refl

-- A button of an older question is stale.
stale_button_refused :
    (process_callback_query outside false
      (press step_date back_button)
      (run_arrivals went_back new_world)).0
    ≡ stale_button ∷ keyboard_removed ∷ []
unfolding run_arrivals process_callback_query callback_data
stale_button_refused = refl

arrivals-IsSound_example : IsSound (run_arrivals went_back new_world)
unfolding partition callback_data strip
arrivals-IsSound_example = arrivals-IsSound went_back (tt, (tt, (tt, (refl, tt))))

fresh_button_accepted_example :
    All
      (λ m. IsTaken outside false back_button (run_arrivals login_typed new_world) m.markup)
      (run_arrivals login_typed new_world).sent
fresh_button_accepted_example =
    fresh_button_accepted login_typed outside false back_button (tt, (tt, (tt, tt))) refl
