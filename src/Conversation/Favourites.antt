-- ===== src/Conversation/Favourites.antt =====
-- Saving the answers of the summary as a favourite, with models/favourite.py.
use korail_ktx_macro_telegra.Common.{
  ◌++◌, ◌==◌, Option, leb, length, none, some, ◌||◌, ◌∷◌, if◌then◌else◌, [],
}
use korail_ktx_macro_telegra.Conversation.{
  FavouriteSearch, Outside, TrainInfo, World, fav_full, fav_incomplete, fav_saved, no_answers,
  no_buttons, no_option, no_strategy, no_type, send_message,
}
use korail_ktx_macro_telegra.Conversation.Trains.{strategy_of}
use korail_ktx_macro_telegra.Payment.{korail}
use korail_ktx_macro_telegra.Text.{Text, is_empty}

unfoldable pub text_of : Option Text → Text
text_of none = []
text_of (some t) = t

-- FavouriteSearch.from_train_info: a missing answer is the empty text.
unfoldable pub from_train_info : TrainInfo → FavouriteSearch
unfolding text_of strategy_of
from_train_info info = record {
  src_locate = text_of info.src_locate;
  dst_locate = text_of info.dst_locate;
  dep_time = text_of info.dep_time;
  max_dep_time = text_of info.max_dep_time;
  train_type = elim info.train_type [ none ↦ no_type | some t ↦ t ];
  train_type_display = elim info.train_type_show [ none ↦ no_type | some t ↦ t ];
  special_option = elim info.special_info [ none ↦ no_option | some t ↦ t ];
  special_option_display = elim info.special_info_show [ none ↦ no_option | some t ↦ t ];
  passenger_count = elim info.passenger_count [ none ↦ 1 | some n ↦ if n == 0 then 1 else n ];
  seat_strategy = strategy_of info;
  seat_strategy_display = elim info.seat_strategy_show [ none ↦ no_strategy | some t ↦ t ];
  operator = elim info.operator [ none ↦ korail | some op ↦ op ];
}

-- FavouriteSearch.as_train_info
unfoldable pub as_train_info : FavouriteSearch → TrainInfo
as_train_info f = record no_answers {
  src_locate = some f.src_locate;
  dst_locate = some f.dst_locate;
  dep_time = some f.dep_time;
  max_dep_time = some f.max_dep_time;
  train_type = some f.train_type;
  train_type_show = some f.train_type_display;
  special_info = some f.special_option;
  special_info_show = some f.special_option_display;
  passenger_count = some f.passenger_count;
  seat_strategy = some f.seat_strategy;
  seat_strategy_show = some f.seat_strategy_display;
  operator = some f.operator;
}

unfoldable pub keep_favourite : Outside → TrainInfo → World → World
unfolding text_of from_train_info send_message
keep_favourite o info w =
    if is_empty (text_of info.src_locate) || is_empty (text_of info.dst_locate)
    then send_message fav_incomplete no_buttons w
    else if leb o.max_favourites (length w.favourites)
    then send_message fav_full no_buttons w
    else send_message fav_saved no_buttons
        (record w { favourites = w.favourites ++ from_train_info info ∷ [] })

-- `_save_favourite`, which reads the stored session
unfoldable pub save_favourite : Outside → World → World
unfolding keep_favourite
save_favourite o w = elim w.session [
  | none ↦ keep_favourite o no_answers w
  | some s ↦ keep_favourite o s.train_info w
]
