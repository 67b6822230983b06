-- ===== src/Conversation/Ready.antt =====
-- The invariant of a session: its state says which answers it holds.
use korail_ktx_macro_telegra.Common.{
  ◌&&◌, ◌==◌, All, Bool, List, Option, false, is_some, none, some, true, ◌≡◌,
}
use korail_ktx_macro_telegra.Conversation.{
  Markup, Progress, Sent, TrainInfo, UserSession, World, buttons, number_of, step_progress,
}

-- The answers that a search needs but the date
abbrev pub but_date : TrainInfo → Bool
but_date i =
    is_some i.src_locate
    && is_some i.dst_locate
    && is_some i.dep_time
    && is_some i.max_dep_time
    && is_some i.train_type
    && is_some i.train_type_show
    && is_some i.special_info
    && is_some i.special_info_show

-- The answers that a search needs
abbrev pub complete : TrainInfo → Bool
complete i = is_some i.dep_date && but_date i

-- The answers that a session holds at a state
unfoldable pub answered_at : Progress → TrainInfo → Bool
answered_at Progress.date_input_success i = is_some i.dep_date
answered_at Progress.src_locate_input_success i = is_some i.dep_date && is_some i.src_locate
answered_at Progress.dst_locate_input_success i =
    is_some i.dep_date && is_some i.src_locate && is_some i.dst_locate
answered_at Progress.dep_time_input_success i =
    is_some i.dep_date && is_some i.src_locate && is_some i.dst_locate && is_some i.dep_time
answered_at Progress.max_dep_time_input_success i =
    is_some i.dep_date
    && is_some i.src_locate
    && is_some i.dst_locate
    && is_some i.dep_time
    && is_some i.max_dep_time
answered_at Progress.train_type_input_success i =
    is_some i.dep_date
    && is_some i.src_locate
    && is_some i.dst_locate
    && is_some i.dep_time
    && is_some i.max_dep_time
    && is_some i.train_type
    && is_some i.train_type_show
answered_at Progress.special_input_success i = complete i
answered_at Progress.passenger_count_input_success i = complete i
answered_at Progress.seat_strategy_input_success i = complete i
answered_at Progress.train_select_input_success i = complete i
answered_at Progress.schedule_input_pending i = complete i
answered_at _ i = true

-- A draft that is parked holds the answers of the state it was parked at.
unfoldable pub answered : Progress → TrainInfo → Bool
answered Progress.resume_draft_pending i = elim i.draft_progress [
  | none ↦ true
  | some p ↦ answered_at p i
]
answered p i = answered_at p i

-- What a state says of the answers; a favourite lacks the date alone, and a form nothing.
abbrev pub IsReady : Progress → TrainInfo → Type 0
IsReady p i =
    (answered p i ≡ true)
    × (i.from_favourite ≡ true → but_date i ≡ true)
    × (i.mini_app_pending ≡ true → complete i ≡ true)

-- The buttons of a message answer the question of the state.
abbrev pub fits : Progress → Markup → Bool
fits p (buttons st) = number_of (step_progress st) == number_of p
fits p _ = true

abbrev pub AllFit : Progress → List Sent → Type 0
AllFit p = All (λ m. fits p m.markup ≡ true)

abbrev pub is_plain_markup : Markup → Bool
is_plain_markup (buttons st) = false
is_plain_markup _ = true

-- No message has buttons that answer a question.
abbrev pub ArePlain : List Sent → Type 0
ArePlain = All (λ m. is_plain_markup m.markup ≡ true)

abbrev pub Stands : Option UserSession → List Sent → Type 0
Stands none sent = ArePlain sent
Stands (some s) sent = IsReady s.last_action s.train_info × AllFit s.last_action sent

-- No handler has raised KeyError, the stored session holds the answers that its state says, and the
-- buttons of every message answer the question of that state.
abbrev pub IsSound : World → Type 0
IsSound w = (w.raised ≡ false) × Stands w.session w.sent

-- No handler has raised, and the messages fit a state.
abbrev pub At : Progress → World → Type 0
At p w = (w.raised ≡ false) × AllFit p w.sent

abbrev pub IsQuiet : World → Type 0
IsQuiet w = (w.raised ≡ false) × ArePlain w.sent

-- A handler is called with the stored session, at its state, and nothing said yet.
abbrev pub Here : Progress → UserSession → World → Type 0
Here p s w = (w.session ≡ some s) × (s.last_action ≡ p) × IsReady p s.train_info × IsQuiet w
