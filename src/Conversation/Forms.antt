-- ===== src/Conversation/Forms.antt =====
-- The Mini App's form and a favourite lead to a sound session.
use mathlib.Core.Bool.{false≢true}
use korail_ktx_macro_telegra.Common.{
  Bool, Option, false, inl, inr, is_some, none, not, refl, some, sym, true, ◌∙◌, ◌≡◌, ◌⊎◌,
  if◌then◌else◌,
}
use korail_ktx_macro_telegra.Conversation.{
  FavouriteSearch, Outside, UserCredentials, UserSession, World, at_progress, buttons, cancel_only,
  delete_onboarded_account, fav_needs_account, fav_started, get_onboarded_account,
  mini_app_account_required, mini_app_login_expired, mini_app_search_running, no_buttons,
  preconfigured_login_failed, reset, save_user_session, send_message, start_accepted, started,
  step_date,
}
use korail_ktx_macro_telegra.Conversation.Answers.{finish_mini_app_submission}
use korail_ktx_macro_telegra.Conversation.Dialogue.{is_searching}
use korail_ktx_macro_telegra.Conversation.Drafts.{not_logged_in, yes_logged_in}
use korail_ktx_macro_telegra.Conversation.Entrances.{
  MiniAppSubmission, apply_submission, ask_for_mini_app_account, favourite_loaded, favourite_login,
  mini_app_login, mini_app_with_account, submitted_info,
}
use korail_ktx_macro_telegra.Conversation.Entry.{mini_app_finished}
use korail_ktx_macro_telegra.Conversation.Favourites.{as_train_info}
use korail_ktx_macro_telegra.Conversation.Login.{
  Logged, login_with_environment, resume_with_registered_account, uses_server_account,
}
use korail_ktx_macro_telegra.Conversation.Logins.{
  AreFlagged, IsIn, IsOut, IsUntouched, environment_lem, IsQuiet-delete, registered_lem, Said-At,
}
use korail_ktx_macro_telegra.Conversation.Moves.{
  either, ended, moved, IsQuiet-send, quiet-At, stayed,
}
use korail_ktx_macro_telegra.Conversation.Ready.{
  At, Here, IsQuiet, IsReady, IsSound, answered, answered_at, complete, fits,
}
use korail_ktx_macro_telegra.Conversation.Resume.{is_logged_in}
use korail_ktx_macro_telegra.Payment.{Operator}

asked_account :
    (s : UserSession) (w : World)
    → AreFlagged s.train_info
    → IsQuiet w
    → IsSound (ask_for_mini_app_account s w)
unfolding ask_for_mini_app_account at_progress answered answered_at
asked_account s w f q =
    moved (at_progress start_accepted s) mini_app_account_required cancel_only w (refl, f.0, f.1)
      (quiet-At start_accepted w q) refl

with_account_sound :
    (o : Outside) (op : Operator) (c : Option UserCredentials) (s : UserSession) (w : World)
    → complete s.train_info ≡ true
    → AreFlagged s.train_info
    → IsQuiet w
    → IsSound (mini_app_with_account o op c s w)
unfolding mini_app_with_account
with_account_sound o op none s w k f q = asked_account s w f q
with_account_sound o op (some c) s w k f q =
    let w' = delete_onboarded_account op w in
    either (o.login op c.korail_id c.korail_pw) _ _
      (λ _. mini_app_finished o (record s { credentials = some c }) w k f.0 q)
      (λ _.
        asked_account s (send_message mini_app_login_expired cancel_only w') f
          (IsQuiet-send mini_app_login_expired cancel_only w' (IsQuiet-delete op w q) refl))

fixed_sound :
    (o : Outside) (s : UserSession) (w : World) (l : Logged)
    → complete s.train_info ≡ true
    → AreFlagged s.train_info
    → IsQuiet w
    → (IsUntouched s w l ⊎ IsIn false s l)
    → IsSound (
        if l.answered
        then finish_mini_app_submission o l.session l.world
        else ask_for_mini_app_account l.session
            (send_message preconfigured_login_failed cancel_only l.world))
fixed_sound o s w l k f q (inl u) =
    let g : AreFlagged l.session.train_info = rw u.1 f in
    let r : IsQuiet l.world = rw u.2 q in
    either l.answered _ _ (λ b. absurd (false≢true (sym u.0 ∙ b)))
      (λ b.
        asked_account l.session (send_message preconfigured_login_failed cancel_only l.world) g
          (IsQuiet-send preconfigured_login_failed cancel_only l.world r refl))
fixed_sound o s w l k f q (inr i) =
    let g : AreFlagged l.session.train_info = rw i.3 f in
    let c : complete l.session.train_info ≡ true = rw i.3 k in
    either l.answered _ _ (λ b. mini_app_finished o l.session l.world c g.0 i.4)
      (λ b. absurd (false≢true (sym b ∙ i.0)))

mini_login_sound :
    (o : Outside) (op : Operator) (s : UserSession) (w : World)
    → complete s.train_info ≡ true
    → AreFlagged s.train_info
    → IsQuiet w
    → IsSound (mini_app_login o op s w)
unfolding mini_app_login
mini_login_sound o op s w k f q =
    either (uses_server_account o op) _ _
      (λ _. fixed_sound o s w (login_with_environment o s w) k f q (environment_lem o s w q))
      (λ _. with_account_sound o op (get_onboarded_account op w) s w k f q)

-- A form that arrives
pub submission_sound :
    (o : Outside) (m : MiniAppSubmission) (s : UserSession) (w : World)
    → (is_searching s.last_action ≡ true
        → IsSound (send_message mini_app_search_running no_buttons w))
    → IsQuiet w
    → IsSound (apply_submission o m s w)
unfolding apply_submission submitted_info save_user_session
submission_sound o m s w run q =
    let s' = record (reset s) {
      in_progress = true;
      train_info = record (submitted_info m) { mini_app_pending = true };
    } in
    either (is_searching s.last_action) _ _ run (λ _.
      mini_login_sound o m.operator s' (save_user_session s' w) refl ((λ _. refl), (λ _. refl)) q)

loaded_sound :
    (f : FavouriteSearch) (announce : Bool) (s : UserSession) (l : Logged)
    → IsIn announce s l
    → IsSound (favourite_loaded f l)
unfolding favourite_loaded as_train_info answered answered_at
loaded_sound f announce s l i =
    let info = record (as_train_info f) { from_favourite = true } in
    let s' = record l.session { train_info = info } in
    let ready : IsReady l.session.last_action info =
      rw i.2 (refl, (λ _. refl), (λ e. absurd (false≢true e))) in
    let at : At l.session.last_action l.world = rw i.2 (Said-At announce l.world i.4) in
    let fit : fits l.session.last_action (buttons step_date) ≡ true = rw i.2 refl in
    either (is_logged_in l.session) _ _
      (λ b. moved s' fav_started (buttons step_date) l.world ready at fit)
      (λ b. absurd (false≢true (sym b ∙ yes_logged_in l.session i.2)))

out_loaded :
    (f : FavouriteSearch) (s : UserSession) (l : Logged)
    → IsOut s l
    → IsSound (favourite_loaded f l)
unfolding favourite_loaded
out_loaded f s l d =
    either (is_logged_in l.session) _ _
      (λ b. absurd (false≢true (sym (not_logged_in l.session d.1) ∙ b))) (λ b. d.2)

fixed_loaded :
    (f : FavouriteSearch) (s : UserSession) (w : World) (l : Logged)
    → (IsUntouched s w l ⊎ IsIn false s l)
    → IsSound (send_message preconfigured_login_failed no_buttons w)
    → IsSound (
        if l.answered
        then favourite_loaded f l
        else send_message preconfigured_login_failed no_buttons l.world)
fixed_loaded f s w l (inl u) k =
    either l.answered _ _ (λ b. absurd (false≢true (sym u.0 ∙ b))) (λ b. rw u.2 k)
fixed_loaded f s w l (inr i) k =
    either l.answered _ _ (λ b. loaded_sound f false s l i) (λ b. absurd (false≢true (sym b ∙ i.0)))

registered_loaded :
    (f : FavouriteSearch) (s : UserSession) (w : World) (l : Logged)
    → (IsUntouched s w l ⊎ (IsIn true s l ⊎ IsOut s l))
    → IsSound (send_message fav_needs_account no_buttons w)
    → IsSound (
        if l.answered
        then favourite_loaded f l
        else send_message fav_needs_account no_buttons l.world)
registered_loaded f s w l (inl u) k =
    either l.answered _ _ (λ b. absurd (false≢true (sym u.0 ∙ b))) (λ b. rw u.2 k)
registered_loaded f s w l (inr (inl i)) k =
    either l.answered _ _ (λ b. loaded_sound f true s l i) (λ b. absurd (false≢true (sym b ∙ i.0)))
registered_loaded f s w l (inr (inr d)) k =
    either l.answered _ _ (λ b. out_loaded f s l d) (λ b. absurd (false≢true (sym b ∙ d.0)))

-- A favourite that is picked
pub favourite_login_sound :
    (o : Outside) (f : FavouriteSearch) (s : UserSession) (w : World)
    → Here started s w
    → IsSound (favourite_login o f s w)
unfolding favourite_login
favourite_login_sound o f s w h =
    either (uses_server_account o f.operator) _ _
      (λ _.
        fixed_loaded f s w (login_with_environment o s w) (environment_lem o s w h.3)
          (stayed started s preconfigured_login_failed no_buttons w h refl))
      (λ _.
        either (not (is_some (get_onboarded_account f.operator w))) _ _
          (λ _. ended fav_needs_account no_buttons s w h.3 refl)
          (λ _.
            registered_loaded f s w (resume_with_registered_account o true s w)
              (registered_lem o true s w h.3)
              (stayed started s fav_needs_account no_buttons w h refl)))
