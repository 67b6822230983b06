-- ===== src/Conversation/Parked.antt =====
-- The draft that is parked while its question is on screen.
use korail_ktx_macro_telegra.Common.{
  ◌&&◌, Bool-cases, Option, arith, inl, inr, none, not, refl, some, some_inj, sym, true, ◌≡◌,
}
use korail_ktx_macro_telegra.Conversation.{
  Outside, Progress, TrainInfo, UserSession, World, buttons, no_buttons, preconfigured_login_failed,
  resume_draft, resume_draft_pending, step_resume, yes_no_retry,
}
use korail_ktx_macro_telegra.Conversation.Answers.{moves_on}
use korail_ktx_macro_telegra.Conversation.Drafts.{resumed}
use korail_ktx_macro_telegra.Conversation.Entry.{begun}
use korail_ktx_macro_telegra.Conversation.Favourites.{text_of}
use korail_ktx_macro_telegra.Conversation.Logins.{AreFlagged}
use korail_ktx_macro_telegra.Conversation.Moves.{answered_how, moved, quiet-At, stayed, unchanged}
use korail_ktx_macro_telegra.Conversation.Ready.{Here, IsQuiet, IsSound, answered, answered_at}
use korail_ktx_macro_telegra.Conversation.Resume.{
  draft_at, draft_of, handle_resume_draft, is_draft_state, offer_at, offer_draft, park,
}
use korail_ktx_macro_telegra.Text.{Text, is_empty}
use korail_ktx_macro_telegra.Validators.Choices.{validate_yes_no}

parked_at :
    (d : Option Progress) (i : TrainInfo) (p : Progress)
    → elim d [ none ↦ true | some q ↦ answered_at q i ] ≡ true
    → d ≡ some p
    → answered_at p i ≡ true
parked_at none i p h e = absurd (ground arith)
parked_at (some q) i p h e = let k = some_inj e in rw (sym k) h

parked_answers :
    (i : TrainInfo)
    → answered resume_draft_pending i ≡ true
    → (p : Progress) → i.draft_progress ≡ some p
    → answered_at p i ≡ true
unfolding answered
parked_answers i h p e = parked_at i.draft_progress i p h e

-- Taking the parked state out of the answers keeps the answers.
unparked :
    (p : Progress) (i : TrainInfo) (d : Option Progress)
    → answered_at p i ≡ true
    → answered_at p (record i { draft_progress = d }) ≡ true
unfolding answered_at
unparked Progress.init i d h = h
unparked Progress.started i d h = h
unparked Progress.start_accepted i d h = h
unparked Progress.id_input_success i d h = h
unparked Progress.pw_input_success i d h = h
unparked Progress.date_input_success i d h = h
unparked Progress.src_locate_input_success i d h = h
unparked Progress.dst_locate_input_success i d h = h
unparked Progress.dep_time_input_success i d h = h
unparked Progress.max_dep_time_input_success i d h = h
unparked Progress.train_type_input_success i d h = h
unparked Progress.special_input_success i d h = h
unparked Progress.passenger_count_input_success i d h = h
unparked Progress.seat_strategy_input_success i d h = h
unparked Progress.finding_ticket i d h = h
unparked Progress.train_select_input_success i d h = h
unparked Progress.schedule_input_pending i d h = h
unparked Progress.onboarding_overwrite_pending i d h = h
unparked Progress.operator_input_pending i d h = h
unparked Progress.resume_draft_pending i d h = h

pub resume_sound :
    (o : Outside) (text : Text) (s : UserSession) (w : World)
    → Here resume_draft_pending s w
    → IsSound (handle_resume_draft o text s w)
unfolding handle_resume_draft
resume_sound o text s w h =
    answered_how (validate_yes_no o.unicode text) _ _ _
      (resumed o s.train_info.draft_progress
        (record s { train_info = record s.train_info { draft_progress = none } }) w
        (λ p e. unparked p s.train_info none (parked_answers s.train_info h.2.0 p e)) (h.2.1, h.2.2)
        h.3 (stayed resume_draft_pending s preconfigured_login_failed no_buttons w h refl))
      (begun o s w h.3)
      (λ r. stayed resume_draft_pending s yes_no_retry (buttons step_resume) w h refl)

park_sound :
    (p : Progress) (s : UserSession) (w : World)
    → answered_at p s.train_info ≡ true
    → AreFlagged s.train_info
    → IsQuiet w
    → IsSound (moves_on (park p s) resume_draft (buttons step_resume) w)
unfolding park answered
park_sound p s w a f q =
    moved (park p s) resume_draft (buttons step_resume) w
      (unparked p s.train_info (some p) a, f.0, f.1) (quiet-At resume_draft_pending w q) refl

offered_at :
    (d : Option Progress) (s : UserSession) (w : World)
    → ((p : Progress) → d ≡ some p → is_draft_state p ≡ true → answered_at p s.train_info ≡ true)
    → AreFlagged s.train_info
    → IsQuiet w
    → IsSound w
    → IsSound (offer_at d s w).1
unfolding offer_at
offered_at none s w a f q i = i
offered_at (some p) s w a f q i =
    elim (Bool-cases (is_draft_state p && not (is_empty (text_of s.train_info.dep_date)))) [
      | inl e ↦ rw e (park_sound p s w (a p refl (ground (arith, e))) f q)
      | inr e ↦ rw e i
    ]

-- The draft of a session holds the answers of its state.
draft_answers :
    (p : Progress) (i : TrainInfo)
    → answered p i ≡ true
    → (q : Progress) → draft_at p i ≡ some q
    → answered_at q i ≡ true
unfolding answered draft_at
draft_answers Progress.init i h q e = let k = some_inj e in rw (sym k) h
draft_answers Progress.started i h q e = let k = some_inj e in rw (sym k) h
draft_answers Progress.start_accepted i h q e = let k = some_inj e in rw (sym k) h
draft_answers Progress.id_input_success i h q e = let k = some_inj e in rw (sym k) h
draft_answers Progress.pw_input_success i h q e = let k = some_inj e in rw (sym k) h
draft_answers Progress.date_input_success i h q e = let k = some_inj e in rw (sym k) h
draft_answers Progress.src_locate_input_success i h q e = let k = some_inj e in rw (sym k) h
draft_answers Progress.dst_locate_input_success i h q e = let k = some_inj e in rw (sym k) h
draft_answers Progress.dep_time_input_success i h q e = let k = some_inj e in rw (sym k) h
draft_answers Progress.max_dep_time_input_success i h q e = let k = some_inj e in rw (sym k) h
draft_answers Progress.train_type_input_success i h q e = let k = some_inj e in rw (sym k) h
draft_answers Progress.special_input_success i h q e = let k = some_inj e in rw (sym k) h
draft_answers Progress.passenger_count_input_success i h q e = let k = some_inj e in rw (sym k) h
draft_answers Progress.seat_strategy_input_success i h q e = let k = some_inj e in rw (sym k) h
draft_answers Progress.finding_ticket i h q e = let k = some_inj e in rw (sym k) h
draft_answers Progress.train_select_input_success i h q e = let k = some_inj e in rw (sym k) h
draft_answers Progress.schedule_input_pending i h q e = let k = some_inj e in rw (sym k) h
draft_answers Progress.onboarding_overwrite_pending i h q e = let k = some_inj e in rw (sym k) h
draft_answers Progress.operator_input_pending i h q e = let k = some_inj e in rw (sym k) h
draft_answers Progress.resume_draft_pending i h q e = parked_at i.draft_progress i q h e

-- Offering a draft, or leaving the session as it is
pub offer_sound :
    (s : UserSession) (w : World) → Here s.last_action s w → IsSound (offer_draft s w).1
unfolding offer_draft draft_of
offer_sound s w h =
    offered_at (draft_at s.last_action s.train_info) s w
      (λ p e d. draft_answers s.last_action s.train_info h.2.0 p e) (h.2.1, h.2.2) h.3
      (unchanged s.last_action s w h)
