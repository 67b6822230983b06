-- ===== src/Conversation/Moves.antt =====
-- Saving a session that is ready, and saying what fits its state, keep the invariant.
use korail_ktx_macro_telegra.Common.{
  All-append, All-map, Bool, List, Option, arith, false, none, refl, some, true, ◌∷◌, ◌≡◌,
  if◌then◌else◌, [],
}
use korail_ktx_macro_telegra.Conversation.{
  Markup, Notice, Outside, Progress, Sent, TrainOption, UserSession, World, access_request, buttons,
  cancel_only, confirm_reservation, init, no_buttons, refused, reset, save_user_session,
  seat_strategy_input_success, select_trains, send_message, step_confirm, step_train_select,
  train_list_empty, train_list_failed, train_select_input_success,
}
use korail_ktx_macro_telegra.Conversation.Answers.{asks_the_same, moves_on}
use korail_ktx_macro_telegra.Conversation.Booking.{ends_with}
use korail_ktx_macro_telegra.Conversation.Ready.{
  AllFit, At, Here, IsQuiet, IsReady, IsSound, answered, answered_at, fits, is_plain_markup,
}
use korail_ktx_macro_telegra.Conversation.Trains.{
  after_selection, fetch_train_options, finish_train_selection, offer_trains,
  show_final_confirmation, show_train_selection,
}
use korail_ktx_macro_telegra.Text.{Text}
use korail_ktx_macro_telegra.Validators.{Reason}
use korail_ktx_macro_telegra.Validators.Choices.{Answer, no, unclear, yes}

plain_fits : (p : Progress) (m : Sent) → is_plain_markup m.markup ≡ true → fits p m.markup ≡ true
plain_fits p m h =
    elim m.markup as (λ k. is_plain_markup k ≡ true → fits p k ≡ true) [
      | buttons st ↦ λ e. absurd (ground arith)
      | cancel_only ↦ λ e. refl
      | access_request ↦ λ e. refl
      | no_buttons ↦ λ e. refl
    ]
      h

pub quiet-At : (p : Progress) (w : World) → IsQuiet w → At p w
quiet-At p w q = (
  q.0,
  All-map (λ m. is_plain_markup m.markup ≡ true) (λ m. fits p m.markup ≡ true) w.sent (plain_fits p)
      q.1,
)

pub At-send :
    (p : Progress) (n : Notice) (m : Markup) (w : World)
    → At p w
    → fits p m ≡ true
    → At p (send_message n m w)
unfolding send_message
At-send p n m w a f = (
  a.0,
  All-append (λ k. fits p k.markup ≡ true) w.sent (record { notice = n; markup = m } ∷ []) a.1
      (f, tt),
)

pub IsQuiet-send :
    (n : Notice) (m : Markup) (w : World)
    → IsQuiet w
    → is_plain_markup m ≡ true
    → IsQuiet (send_message n m w)
unfolding send_message
IsQuiet-send n m w a f = (
  a.0,
  All-append (λ k. is_plain_markup k.markup ≡ true) w.sent (record { notice = n; markup = m } ∷ [])
      a.1 (f, tt),
)

-- A session that is saved
pub saved :
    (s : UserSession) (w : World)
    → IsReady s.last_action s.train_info
    → At s.last_action w
    → IsSound (save_user_session s w)
unfolding save_user_session
saved s w r a = (a.0, (r, a.1))

-- A session that is saved before the next question
pub moved :
    (s : UserSession) (n : Notice) (m : Markup) (w : World)
    → IsReady s.last_action s.train_info
    → At s.last_action w
    → fits s.last_action m ≡ true
    → IsSound (moves_on s n m w)
unfolding moves_on save_user_session send_message
moved s n m w r a f = (
  a.0,
  (
    r,
    All-append (λ k. fits s.last_action k.markup ≡ true) w.sent
        (record { notice = n; markup = m } ∷ []) a.1 (f, tt),
  ),
)

pub reset-IsReady : (s : UserSession) → IsReady (reset s).last_action (reset s).train_info
unfolding reset answered answered_at
reset-IsReady s = (refl, (λ e. absurd (ground arith)), (λ e. absurd (ground arith)))

-- A message that fits the state leaves the session as it is.
pub stayed :
    (p : Progress) (s : UserSession) (n : Notice) (m : Markup) (w : World)
    → Here p s w
    → fits p m ≡ true
    → IsSound (send_message n m w)
unfolding send_message
stayed p s n m w h f =
    let a = At-send p n m w (quiet-At p w h.3) f in
    let r : IsReady s.last_action s.train_info = rw h.1 h.2 in
    let k : AllFit s.last_action (send_message n m w).sent = rw h.1 a.1 in (a.0, rw h.0 (r, k))

pub unchanged : (p : Progress) (s : UserSession) (w : World) → Here p s w → IsSound w
unchanged p s w h =
    let r : IsReady s.last_action s.train_info = rw h.1 h.2 in
    let k : AllFit s.last_action w.sent = rw h.1 (quiet-At p w h.3).1 in (h.3.0, rw h.0 (r, k))

pub ended :
    (n : Notice) (m : Markup) (s : UserSession) (w : World)
    → IsQuiet w
    → is_plain_markup m ≡ true
    → IsSound (ends_with n m s w)
unfolding ends_with
ended n m s w q f =
    let a =
      At-send init n m w (quiet-At init w q)
        (plain_fits init (record { notice = n; markup = m }) f) in
    (a.0, (reset-IsReady s, a.1))

-- An answer that is checked first
pub checked :
    (why : Option Reason) (f : Reason → World) (w : World)
    → ((r : Reason) → IsSound (f r))
    → IsSound w
    → IsSound (elim why [ some r ↦ f r | none ↦ w ])
checked none f w a b = b
checked (some r) f w a b = a r

pub checked_with :
    (why : Option Reason) (f : Reason → World) (w : World)
    → ((r : Reason) → IsSound (f r))
    → (why ≡ none → IsSound w)
    → IsSound (elim why [ some r ↦ f r | none ↦ w ])
checked_with none f w a b = b refl
checked_with (some r) f w a b = a r

pub either :
    (b : Bool) (v w : World)
    → (b ≡ true → IsSound v)
    → (b ≡ false → IsSound w)
    → IsSound (if b then v else w)
either true v w a b = a refl
either false v w a b = b refl

pub answered_how :
    (a : Answer) (v w : World) (f : Reason → World)
    → IsSound v
    → IsSound w
    → ((r : Reason) → IsSound (f r))
    → IsSound (elim a [ yes ↦ v | no ↦ w | unclear r ↦ f r ])
answered_how yes v w f a b c = a
answered_how no v w f a b c = b
answered_how (unclear r) v w f a b c = c r

pub same_question :
    (p : Progress) (s : UserSession) (why : Reason) (m : Markup) (w : World)
    → Here p s w
    → fits p m ≡ true
    → IsSound (asks_the_same why m w)
unfolding asks_the_same
same_question p s why m w h f = stayed p s (refused why) m w h f

pub finished :
    (selected : List Text) (s : UserSession) (w : World)
    → IsReady seat_strategy_input_success s.train_info
    → IsQuiet w
    → IsSound (finish_train_selection selected s w)
unfolding finish_train_selection show_final_confirmation after_selection save_user_session
    send_message answered answered_at
finished selected s w r q =
    let a =
      At-send train_select_input_success
        (confirm_reservation (after_selection selected s).train_info) (buttons step_confirm) w
        (quiet-At train_select_input_success w q) (refl) in
    (a.0, (r, a.1))

offered :
    (o : Outside) (options : Option (List TrainOption)) (s : UserSession) (w : World)
    → IsReady seat_strategy_input_success s.train_info
    → s.last_action ≡ seat_strategy_input_success
    → IsQuiet w
    → IsSound (offer_trains o options s w)
unfolding offer_trains answered answered_at send_message
offered o none s w r e q =
    finished [] s (send_message train_list_failed no_buttons w) r
      (IsQuiet-send train_list_failed no_buttons w q refl)
offered o (some []) s w r e q =
    finished [] s (send_message train_list_empty no_buttons w) r
      (IsQuiet-send train_list_empty no_buttons w q refl)
offered o (some (t ∷ options)) s w r e q =
    let a =
      At-send seat_strategy_input_success select_trains (buttons step_train_select) w
        (quiet-At seat_strategy_input_success w q) refl in
    rw e (a.0, (r, a.1))

-- The list of trains, or the summary where there is none
pub listed :
    (o : Outside) (s : UserSession) (w : World)
    → IsReady seat_strategy_input_success s.train_info
    → s.last_action ≡ seat_strategy_input_success
    → IsQuiet w
    → IsSound (show_train_selection o s w)
unfolding show_train_selection
listed o s w r e q = offered o (fetch_train_options o s) s w r e q
