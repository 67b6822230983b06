-- ===== src/Conversation/Samples.antt =====
-- A chat in which the form of the Mini App was filled in, for tests.
use korail_ktx_macro_telegra.Common.{false, none, some, true, ◌∷◌, []}
use korail_ktx_macro_telegra.Conversation.{Outside, general_first, stored}
use korail_ktx_macro_telegra.Conversation.Entrances.{MiniAppSubmission}
use korail_ktx_macro_telegra.Payment.{srt}
use korail_ktx_macro_telegra.Text.{Text}
use korail_ktx_macro_telegra.Text.Samples.{ascii}

-- Every login works, no train list can be had, and a search that is started comes up.
abbrev pub outside : Outside
outside = record {
  unicode = ascii;
  now = record { date = record { year = 2026; month = 11; day = 26 }; hour = 9; minute = 30 };
  stations = record { srt_stations = []; is_valid_station = λ s. true };
  login = λ op name pw. true;
  search_trains = λ op q. none;
  is_developer = false;
  preconfigured = λ op. none;
  message_id = some 7;
  edits = true;
  is_allowed = λ c. true;
  starts = λ c p. true;
  is_charged = λ c. false;
  schedule = λ c p t. stored;
  max_favourites = 5;
  mini_app_enabled = false;
}

-- "20261201", "0900"
abbrev pub first_of_december : Text
first_of_december = 50 ∷ 48 ∷ 50 ∷ 54 ∷ 49 ∷ 50 ∷ 48 ∷ 49 ∷ []

abbrev pub nine : Text
nine = 48 ∷ 57 ∷ 48 ∷ 48 ∷ []

abbrev pub form : MiniAppSubmission
form = record {
  operator = srt;
  dep_date = first_of_december;
  src_station = 49688 ∷ 49436 ∷ [];
  dst_station = 48512 ∷ 49328 ∷ [];
  dep_time = nine;
  max_dep_time = 50 ∷ 52 ∷ 48 ∷ 48 ∷ [];
  only_ktx = false;
  seat_option = general_first;
  passenger_count = 2;
  side_by_side = false;
}

-- "01012345678"
abbrev pub phone : Text
phone = 48 ∷ 49 ∷ 48 ∷ 49 ∷ 50 ∷ 51 ∷ 52 ∷ 53 ∷ 54 ∷ 55 ∷ 56 ∷ []

abbrev pub password : Text
password = 112 ∷ 97 ∷ 115 ∷ 115 ∷ []
