-- ===== src/Conversation/Tests.antt =====
-- Runs of the dialogue, and instances of its theorems.
use korail_ktx_macro_telegra.Common.{List, inl, is_some, refl, some, true, ◌∷◌, ◌≡◌, []}
use korail_ktx_macro_telegra.Conversation.{Outside, UserSession, train_select_input_success}
use korail_ktx_macro_telegra.Conversation.Booking.{build_search_params}
use korail_ktx_macro_telegra.Conversation.Entrances.{submitted_info}
use korail_ktx_macro_telegra.Conversation.Histories.{
  Event, new_world, run, says, submits, summary_buildable,
}
use korail_ktx_macro_telegra.Conversation.Samples.{form, outside, password, phone}
use korail_ktx_macro_telegra.Text.{strip}

-- The form arrives, the missing login is asked for, and the summary is reached.
abbrev form_to_summary : List (Outside × Event)
form_to_summary = (outside, submits form) ∷ (outside, says phone) ∷ (outside, says password) ∷ []

abbrev summary_session : UserSession
summary_session = record {
  in_progress = true;
  last_action = train_select_input_success;
  credentials = some (record {
    korail_id = 48 ∷ 49 ∷ 48 ∷ 45 ∷ 49 ∷ 50 ∷ 51 ∷ 52 ∷ 45 ∷ 53 ∷ 54 ∷ 55 ∷ 56 ∷ [];
    korail_pw = password;
  });
  train_info = submitted_info form;
}

summary_reached : (run form_to_summary new_world).session ≡ some summary_session
unfolding run
summary_reached = refl

summary_buildable_example : is_some (build_search_params summary_session) ≡ true
unfolding strip
summary_buildable_example =
    summary_buildable form_to_summary summary_session (tt, (refl, (refl, tt))) summary_reached
      (inl refl)
