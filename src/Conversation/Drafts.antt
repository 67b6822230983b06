-- ===== src/Conversation/Drafts.antt =====
-- A draft that is offered and resumed, the Mini App's form and a favourite keep the invariant.
use mathlib.Core.Bool.{false≢true}
use korail_ktx_macro_telegra.Common.{
  Option, arith, false, inl, inr, none, refl, some, sym, true, ◌∙◌, ◌≡◌, ◌⊎◌, if◌then◌else◌,
}
use korail_ktx_macro_telegra.Conversation.{
  Outside, Progress, TrainInfo, UserSession, World, at_progress, date_input_success,
  dep_time_input_success, dst_locate_input_success, max_dep_time_input_success, no_buttons,
  passenger_count_input_success, preconfigured_login_failed, pw_input_success,
  resume_draft_no_account, save_user_session, schedule_input_pending, seat_strategy_input_success,
  send_message, special_input_success, src_locate_input_success, started,
  train_select_input_success, train_type_input_success,
}
use korail_ktx_macro_telegra.Conversation.Backwards.{go_sound}
use korail_ktx_macro_telegra.Conversation.Entry.{begun}
use korail_ktx_macro_telegra.Conversation.Login.{
  Logged, begin_flow, login_with_environment, resume_with_registered_account,
  uses_any_server_account,
}
use korail_ktx_macro_telegra.Conversation.Logins.{
  AreFlagged, IsIn, IsOut, IsUntouched, environment_lem, pick, registered_lem,
}
use korail_ktx_macro_telegra.Conversation.Moves.{either, IsQuiet-send}
use korail_ktx_macro_telegra.Conversation.Ready.{IsQuiet, IsReady, IsSound, answered, answered_at}
use korail_ktx_macro_telegra.Conversation.Resume.{
  draft_login, draft_login_anew, has_password, is_draft_state, is_logged_in, resume_at, resume_with,
}
use korail_ktx_macro_telegra.Conversation.Summaries.{schedule_prompt_sound}

draft_ready :
    (p : Progress) (i : TrainInfo)
    → is_draft_state p ≡ true
    → answered_at p i ≡ true
    → answered p i ≡ true
unfolding is_draft_state answered
draft_ready Progress.init i d a = absurd (ground arith)
draft_ready Progress.started i d a = absurd (ground arith)
draft_ready Progress.start_accepted i d a = absurd (ground arith)
draft_ready Progress.id_input_success i d a = absurd (ground arith)
draft_ready Progress.pw_input_success i d a = absurd (ground arith)
draft_ready Progress.date_input_success i d a = a
draft_ready Progress.src_locate_input_success i d a = a
draft_ready Progress.dst_locate_input_success i d a = a
draft_ready Progress.dep_time_input_success i d a = a
draft_ready Progress.max_dep_time_input_success i d a = a
draft_ready Progress.train_type_input_success i d a = a
draft_ready Progress.special_input_success i d a = a
draft_ready Progress.passenger_count_input_success i d a = a
draft_ready Progress.seat_strategy_input_success i d a = a
draft_ready Progress.finding_ticket i d a = absurd (ground arith)
draft_ready Progress.train_select_input_success i d a = a
draft_ready Progress.schedule_input_pending i d a = a
draft_ready Progress.onboarding_overwrite_pending i d a = absurd (ground arith)
draft_ready Progress.operator_input_pending i d a = absurd (ground arith)
draft_ready Progress.resume_draft_pending i d a = absurd (ground arith)

resumed_at :
    (o : Outside) (p : Progress) (s : UserSession) (w : World)
    → is_draft_state p ≡ true
    → IsReady p s.train_info
    → IsQuiet w
    → IsSound (resume_at o p s w)
unfolding resume_at is_draft_state
resumed_at o Progress.init s w d r q = absurd (ground arith)
resumed_at o Progress.started s w d r q = absurd (ground arith)
resumed_at o Progress.start_accepted s w d r q = absurd (ground arith)
resumed_at o Progress.id_input_success s w d r q = absurd (ground arith)
resumed_at o Progress.pw_input_success s w d r q = absurd (ground arith)
resumed_at o Progress.date_input_success s w d r q = go_sound o date_input_success s w refl r q
resumed_at o Progress.src_locate_input_success s w d r q =
    go_sound o src_locate_input_success s w refl r q
resumed_at o Progress.dst_locate_input_success s w d r q =
    go_sound o dst_locate_input_success s w refl r q
resumed_at o Progress.dep_time_input_success s w d r q =
    go_sound o dep_time_input_success s w refl r q
resumed_at o Progress.max_dep_time_input_success s w d r q =
    go_sound o max_dep_time_input_success s w refl r q
resumed_at o Progress.train_type_input_success s w d r q =
    go_sound o train_type_input_success s w refl r q
resumed_at o Progress.special_input_success s w d r q =
    go_sound o special_input_success s w refl r q
resumed_at o Progress.passenger_count_input_success s w d r q =
    go_sound o passenger_count_input_success s w refl r q
resumed_at o Progress.seat_strategy_input_success s w d r q =
    go_sound o seat_strategy_input_success s w refl r q
resumed_at o Progress.finding_ticket s w d r q = absurd (ground arith)
resumed_at o Progress.train_select_input_success s w d r q =
    go_sound o train_select_input_success s w refl r q
resumed_at o Progress.schedule_input_pending s w d r q =
    schedule_prompt_sound (at_progress schedule_input_pending s)
      (save_user_session (at_progress schedule_input_pending s) w) r q
resumed_at o Progress.onboarding_overwrite_pending s w d r q = absurd (ground arith)
resumed_at o Progress.operator_input_pending s w d r q = absurd (ground arith)
resumed_at o Progress.resume_draft_pending s w d r q = absurd (ground arith)

-- A draft is resumed once there is a login.
resumed_with :
    (o : Outside) (p : Progress) (s : UserSession) (w : World) (l : Logged)
    → is_draft_state p ≡ true
    → IsReady p s.train_info
    → ((l.answered ≡ true → IsQuiet l.world × (l.session.train_info ≡ s.train_info))
        × (l.answered ≡ false → IsSound l.world))
    → IsSound (if l.answered then resume_at o p l.session l.world else l.world)
resumed_with o p s w l d r k =
    either l.answered _ _ (λ b. resumed_at o p l.session l.world d (rw (k.0 b).1 r) (k.0 b).0)
      (λ b. k.1 b)

-- What the login of a draft leaves
abbrev IsDraftLogin : UserSession → Logged → Type 0
IsDraftLogin s l =
    (l.answered ≡ true → IsQuiet l.world × (l.session.train_info ≡ s.train_info))
    × (l.answered ≡ false → IsSound l.world)

environment_draft :
    (s : UserSession) (w : World) (l : Logged)
    → (IsUntouched s w l ⊎ IsIn false s l)
    → IsSound (send_message preconfigured_login_failed no_buttons w)
    → IsDraftLogin s (
        if l.answered
        then l
        else (record l { world = send_message preconfigured_login_failed no_buttons l.world }))
environment_draft s w l (inl u) k =
    pick (IsDraftLogin s) l.answered _ _ (λ b. absurd (false≢true (sym u.0 ∙ b)))
      (λ b. ((λ t. absurd (false≢true (sym u.0 ∙ t))), (λ t. rw u.2 k)))
environment_draft s w l (inr i) k =
    pick (IsDraftLogin s) l.answered _ _
      (λ b. ((λ t. (i.4, i.3)), (λ t. absurd (false≢true (sym t ∙ b)))))
      (λ b. absurd (false≢true (sym b ∙ i.0)))

pub not_logged_in : (s : UserSession) → s.last_action ≡ started → is_logged_in s ≡ false
unfolding is_logged_in
not_logged_in s e = rw e

pub yes_logged_in : (s : UserSession) → s.last_action ≡ pw_input_success → is_logged_in s ≡ true
unfolding is_logged_in
yes_logged_in s e = rw e

registered_draft :
    (o : Outside) (s : UserSession) (w : World) (l : Logged)
    → (IsUntouched s w l ⊎ (IsIn false s l ⊎ IsOut s l))
    → IsSound (begin_flow o s (send_message resume_draft_no_account no_buttons w))
    → IsDraftLogin s (
        if l.answered then (record l { answered = is_logged_in l.session }) else (record {
          answered = false;
          session = s;
          world = begin_flow o s (send_message resume_draft_no_account no_buttons w);
        }))
registered_draft o s w l (inl u) k =
    pick (IsDraftLogin s) l.answered _ _ (λ b. absurd (false≢true (sym u.0 ∙ b)))
      (λ b. ((λ t. absurd (false≢true t)), (λ t. k)))
registered_draft o s w l (inr (inl i)) k =
    pick (IsDraftLogin s) l.answered _ _
      (λ b. ((λ t. (i.4, i.3)), (λ t. absurd (false≢true (sym t ∙ yes_logged_in l.session i.2)))))
      (λ b. absurd (false≢true (sym b ∙ i.0)))
registered_draft o s w l (inr (inr d)) k =
    pick (IsDraftLogin s) l.answered _ _
      (λ b. ((λ t. absurd (false≢true (sym (not_logged_in l.session d.1) ∙ t))), (λ t. d.2)))
      (λ b. absurd (false≢true (sym b ∙ d.0)))

draft_login_lem :
    (o : Outside) (s : UserSession) (w : World)
    → IsQuiet w
    → IsSound (send_message preconfigured_login_failed no_buttons w)
    → IsDraftLogin s (draft_login o s w)
unfolding draft_login draft_login_anew
draft_login_lem o s w q k =
    pick (IsDraftLogin s) (has_password s.credentials) _ _
      (λ b. ((λ t. (q, refl)), (λ t. absurd (false≢true (sym t)))))
      (λ b.
        pick (IsDraftLogin s) (uses_any_server_account o) _ _
          (λ c. environment_draft s w (login_with_environment o s w) (environment_lem o s w q) k)
          (λ c.
            registered_draft o s w (resume_with_registered_account o false s w)
              (registered_lem o false s w q)
              (begun o s (send_message resume_draft_no_account no_buttons w)
                (IsQuiet-send resume_draft_no_account no_buttons w q refl))))

pub resumed :
    (o : Outside) (draft : Option Progress) (s : UserSession) (w : World)
    → ((p : Progress) → draft ≡ some p → answered_at p s.train_info ≡ true)
    → AreFlagged s.train_info
    → IsQuiet w
    → IsSound (send_message preconfigured_login_failed no_buttons w)
    → IsSound (resume_with o draft s w)
unfolding resume_with
resumed o none s w a f q k = begun o s w q
resumed o (some p) s w a f q k =
    either (is_draft_state p) _ _
      (λ d.
        resumed_with o p s w (draft_login o s w) d
          (draft_ready p s.train_info d (a p refl), f.0, f.1) (draft_login_lem o s w q k))
      (λ d. begun o s w q)
