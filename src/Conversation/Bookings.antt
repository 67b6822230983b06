-- ===== src/Conversation/Bookings.antt =====
-- From the summary to a search: no key is missing, and the invariant is kept.
use mathlib.Core.Bool.{false≢true}
use korail_ktx_macro_telegra.Common.{
  ◌>>=◌, Bool, Option, ap, arith, false, inl, inr, is_some, none, refl, some, sym, true, ◌||◌, ◌∙◌,
  ◌≡◌, ◌⊎◌,
}
use korail_ktx_macro_telegra.Conversation.{
  Outside, SearchParams, UserCredentials, UserSession, World, access_request, at_progress,
  error_reservation_start_failed, finding_ticket, no_buttons, no_credentials, reset,
  save_user_session, send_message, train_select_input_success, trial_exhausted, trial_remaining,
  without_password,
}
use korail_ktx_macro_telegra.Conversation.Booking.{
  booking_credentials, build_search_params, ends_with, gated_search, restored, search_started,
  start_reservation, start_search,
}
use korail_ktx_macro_telegra.Conversation.Login.{Logged, resume_with_registered_account}
use korail_ktx_macro_telegra.Conversation.Logins.{
  AreFlagged, IsIn, IsOut, IsUntouched, in_sound, pick, registered_lem,
}
use korail_ktx_macro_telegra.Conversation.Moves.{either, ended, IsQuiet-send, quiet-At, unchanged}
use korail_ktx_macro_telegra.Conversation.Ready.{
  Here, IsQuiet, IsSound, answered, answered_at, complete,
}

chained {ℓ κ} :
    {A : Type ℓ} {B : Type κ} (a : Option A) (f : A → Option B)
    → is_some a ≡ true
    → ((x : A) → is_some (f x) ≡ true)
    → is_some (a >>= f) ≡ true
chained none f h k = absurd (ground arith)
chained (some x) f h k = k x

-- Where every answer is there, the search can be put together.
pub params_complete :
    (s : UserSession) → complete s.train_info ≡ true → is_some (build_search_params s) ≡ true
unfolding build_search_params
params_complete s h = chained s.train_info.dep_date _ (ground (arith, h)) (λ _.
    chained s.train_info.src_locate _ (ground (arith, h)) (λ _.
      chained s.train_info.dst_locate _ (ground (arith, h)) (λ _.
        chained s.train_info.dep_time _ (ground (arith, h)) (λ _.
          chained s.train_info.max_dep_time _ (ground (arith, h)) (λ _.
            chained s.train_info.train_type _ (ground (arith, h)) (λ _.
              chained s.train_info.train_type_show _ (ground (arith, h)) (λ _.
                chained s.train_info.special_info _ (ground (arith, h)) (λ _.
                  chained s.train_info.special_info_show _ (ground (arith, h)) (λ _. refl)))))))))

started_sound :
    (charged : Bool) (p : SearchParams) (s : UserSession) (w : World)
    → AreFlagged s.train_info
    → s.last_action ≡ finding_ticket
    → IsQuiet w
    → IsSound (search_started charged p s w)
unfolding search_started save_user_session send_message answered answered_at
started_sound true p s w f e q = rw e (
  (IsQuiet-send trial_remaining no_buttons w q refl).0,
  (
    (refl, f.0, f.1),
    (quiet-At finding_ticket (send_message trial_remaining no_buttons w)
        (IsQuiet-send trial_remaining no_buttons w q refl)).1,
  ),
)
started_sound false p s w f e q = rw e (q.0, ((refl, f.0, f.1), (quiet-At finding_ticket w q).1))

search_sound :
    (o : Outside) (c : UserCredentials) (p : Option SearchParams) (s : UserSession) (w : World)
    → is_some p ≡ true
    → AreFlagged s.train_info
    → IsQuiet w
    → IsSound (start_search o c p s w)
unfolding start_search save_user_session
search_sound o c none s w k f q = absurd (ground arith)
search_sound o c (some p) s w k f q =
    let s' = at_progress finding_ticket s in
    let w' = save_user_session s' w in
    either (o.starts c p) _ _ (λ _. started_sound (o.is_charged c) p s' w' f refl q)
      (λ _. ended error_reservation_start_failed no_buttons s' w' q refl)

gated_sound :
    (o : Outside) (c : Option UserCredentials) (s : UserSession) (w : World)
    → complete s.train_info ≡ true
    → AreFlagged s.train_info
    → IsSound w
    → IsQuiet w
    → IsSound (gated_search o s w c)
unfolding gated_search
gated_sound o none s w k f i q = i
gated_sound o (some c) s w k f i q =
    either (o.is_allowed c) _ _
      (λ _. search_sound o c (build_search_params s) s w (params_complete s k) f q)
      (λ _. ended trial_exhausted access_request s w q refl)

or_true : (b c : Bool) → c ≡ true → (b || c) ≡ true
or_true true c e = refl
or_true false c e = e

not_some {ℓ} : {A : Type ℓ} (a : Option A) → is_some a ≡ false → a ≡ none
not_some none h = refl
not_some (some x) h = absurd (ground arith)

gated_none :
    (o : Outside) (s : UserSession) (w : World) (c : Option UserCredentials)
    → c ≡ none
    → IsSound w
    → IsSound (gated_search o s w c)
unfolding gated_search
gated_none o s w none e i = i
gated_none o s w (some c) e i = absurd (ground arith)

-- What the search makes of a login
abbrev IsGated : Outside → Logged → Type 0
IsGated o l = IsSound (gated_search o l.session l.world l.session.credentials)

restored_sound :
    (o : Outside) (s : UserSession) (w : World) (l : Logged)
    → s.credentials ≡ none
    → Here train_select_input_success s w
    → complete s.train_info ≡ true
    → (IsUntouched s w l ⊎ (IsIn false s l ⊎ IsOut s l))
    → IsGated o (restored l)
unfolding restored ends_with
restored_sound o s w l e h k (inl u) =
    let c : l.session.credentials ≡ none = rw u.1 e in
    let q : IsQuiet l.world = rw u.2 h.3 in
    pick (IsGated o) (is_some l.session.credentials || l.answered) _ _
      (λ b. absurd (ground (arith, c, u.0)))
      (λ b.
        gated_none o (reset l.session) _ (without_password l.session.credentials) (rw c refl)
          (ended no_credentials no_buttons l.session l.world q refl))
restored_sound o s w l e h k (inr (inl i)) =
    let ready : complete l.session.train_info ≡ true = rw i.3 k in
    let flags : AreFlagged l.session.train_info = rw i.3 (h.2.1, h.2.2) in
    pick (IsGated o) (is_some l.session.credentials || l.answered) _ _
      (λ b.
        gated_sound o l.session.credentials l.session l.world ready flags
          (in_sound false s l i (h.2.1, h.2.2)) i.4)
      (λ b. absurd (false≢true (sym b ∙ or_true (is_some l.session.credentials) l.answered i.0)))
restored_sound o s w l e h k (inr (inr d)) =
    let n : l.session.credentials ≡ none = d.3 ∙ ap without_password e in
    pick (IsGated o) (is_some l.session.credentials || l.answered) _ _
      (λ b. gated_none o l.session l.world l.session.credentials n d.2)
      (λ b. absurd (false≢true (sym b ∙ or_true (is_some l.session.credentials) l.answered d.0)))

pub reservation_sound :
    (o : Outside) (s : UserSession) (w : World)
    → Here train_select_input_success s w
    → IsSound (start_reservation o s w)
unfolding start_reservation booking_credentials answered answered_at
reservation_sound o s w h =
    pick (IsGated o) (is_some s.credentials) _ _
      (λ b.
        gated_sound o s.credentials s w h.2.0 (h.2.1, h.2.2)
          (unchanged train_select_input_success s w h) h.3)
      (λ b.
        restored_sound o s w (resume_with_registered_account o false s w) (not_some s.credentials b)
          h h.2.0 (registered_lem o false s w h.3))
