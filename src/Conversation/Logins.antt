-- ===== src/Conversation/Logins.antt =====
-- What the logins leave of the session, the answers and the messages.
use korail_ktx_macro_telegra.Common.{
  Bool, Option-cases, false, inl, inr, refl, some, true, ◌≡◌, ◌⊎◌, if◌then◌else◌,
}
use korail_ktx_macro_telegra.Conversation.{
  Markup, Notice, Outside, TrainInfo, UserCredentials, UserSession, World, buttons,
  delete_onboarded_account, get_onboarded_account, onboarding_stale, pw_input_success, reset,
  save_user_session, send_message, session_operator, started, step_date, step_start_confirm,
  welcome_returning, without_password,
}
use korail_ktx_macro_telegra.Conversation.Login.{
  Logged, drop_registration, login_as, login_name, login_with_environment,
  resume_with_registered_account, use_registration,
}
use korail_ktx_macro_telegra.Conversation.Moves.{At-send, quiet-At}
use korail_ktx_macro_telegra.Conversation.Ready.{
  At, IsQuiet, IsReady, IsSound, answered, answered_at, but_date, complete, fits,
}
use korail_ktx_macro_telegra.Payment.{Operator, korail, srt}

-- Where a login did not deal with the question, nothing has changed.
abbrev pub IsUntouched : UserSession → World → Logged → Type 0
IsUntouched s w l = (l.answered ≡ false) × (l.session ≡ s) × (l.world ≡ w)

-- What a login has said: a greeting with the buttons of the date, or nothing
abbrev pub Said : Bool → World → Type 0
Said true w = At pw_input_success w
Said false w = IsQuiet w

-- The chat is logged in, and its answers are kept.
abbrev pub IsIn : Bool → UserSession → Logged → Type 0
IsIn announce s l =
    (l.answered ≡ true)
    × (l.world.session ≡ some l.session)
    × (l.session.last_action ≡ pw_input_success)
    × (l.session.train_info ≡ s.train_info)
    × Said announce l.world

-- The registration was dropped, and the chat is asked to register again.
abbrev pub IsOut : UserSession → Logged → Type 0
IsOut s l =
    (l.answered ≡ true)
    × (l.session.last_action ≡ started)
    × IsSound l.world
    × (l.session.credentials ≡ without_password s.credentials)

pub pick :
    (P : Logged → Type 0) (b : Bool) (x y : Logged)
    → (b ≡ true → P x)
    → (b ≡ false → P y)
    → P (if b then x else y)
pick P true x y h k = h refl
pick P false x y h k = k refl

login_as_lem :
    (o : Outside) (c : UserCredentials) (s : UserSession) (w : World)
    → IsQuiet w
    → IsUntouched s w (login_as o c s w) ⊎ IsIn false s (login_as o c s w)
unfolding login_as save_user_session
login_as_lem o c s w q =
    pick (λ l. IsUntouched s w l ⊎ IsIn false s l)
      (o.login (session_operator s) c.korail_id c.korail_pw) _ _
      (λ _. inr (refl, refl, refl, refl, q)) (λ _. inl (refl, refl, refl))

-- `_login_with_environment_credentials`
pub environment_lem :
    (o : Outside) (s : UserSession) (w : World)
    → IsQuiet w
    → IsUntouched s w (login_with_environment o s w) ⊎ IsIn false s (login_with_environment o s w)
unfolding login_with_environment
environment_lem o s w q = elim (Option-cases (o.preconfigured (session_operator s))) [
  | inl e ↦ rw (login_with_environment, e) (inl (refl, refl, refl))
  | inr (c, e) ↦
      rw (login_with_environment, e)
        (login_as_lem o (record c { korail_id = login_name o c.korail_id }) s w q)
]

pub IsQuiet-delete :
    (op : Operator) (w : World) → IsQuiet w → IsQuiet (delete_onboarded_account op w)
unfolding delete_onboarded_account
IsQuiet-delete korail w q = q
IsQuiet-delete srt w q = q

dropped_lem : (s : UserSession) (w : World) → IsQuiet w → IsOut s (drop_registration s w)
unfolding drop_registration reset save_user_session send_message answered answered_at
dropped_lem s w q =
    let w' = delete_onboarded_account (session_operator s) w in
    let a =
      At-send started onboarding_stale (buttons step_start_confirm) w'
        (quiet-At started w' (IsQuiet-delete (session_operator s) w q)) refl in
    (refl, refl, (a.0, ((refl, (λ e. e), (λ e. e)), a.1)), refl)

used_lem :
    (announce : Bool) (c : UserCredentials) (s : UserSession) (w : World)
    → IsQuiet w
    → IsIn announce s (use_registration announce c s w)
unfolding use_registration save_user_session send_message
used_lem true c s w q = (
  refl,
  refl,
  refl,
  refl,
  At-send pw_input_success welcome_returning (buttons step_date) w (quiet-At pw_input_success w q)
      refl,
)
used_lem false c s w q = (refl, refl, refl, refl, q)

-- `resume_with_registered_account`
pub registered_lem :
    (o : Outside) (announce : Bool) (s : UserSession) (w : World)
    → IsQuiet w
    → IsUntouched s w (resume_with_registered_account o announce s w)
      ⊎ (IsIn announce s (resume_with_registered_account o announce s w)
          ⊎ IsOut s (resume_with_registered_account o announce s w))
unfolding resume_with_registered_account
registered_lem o announce s w q =
    elim (Option-cases (get_onboarded_account (session_operator s) w)) [
      | inl e ↦ rw (resume_with_registered_account, e) (inl (refl, refl, refl))
      | inr (c, e) ↦
          rw (resume_with_registered_account, e)
            (inr (
              pick (λ l. IsIn announce s l ⊎ IsOut s l)
                (o.login (session_operator s) c.korail_id c.korail_pw) _ _
                (λ _. inl (used_lem announce c s w q)) (λ _. inr (dropped_lem s w q))))
    ]

-- The flags of the answers, which say what a later question may skip
abbrev pub AreFlagged : TrainInfo → Type 0
AreFlagged i =
    (i.from_favourite ≡ true → but_date i ≡ true) × (i.mini_app_pending ≡ true → complete i ≡ true)

pub Said-At : (announce : Bool) (w : World) → Said announce w → At pw_input_success w
Said-At true w a = a
Said-At false w a = quiet-At pw_input_success w a

-- A chat that is logged in is sound, and may be told what fits the question of the date.
pub in_says :
    (announce : Bool) (s : UserSession) (l : Logged) (n : Notice) (m : Markup)
    → IsIn announce s l
    → AreFlagged s.train_info
    → fits pw_input_success m ≡ true
    → IsSound (send_message n m l.world)
unfolding send_message answered answered_at
in_says announce s l n m i f k =
    let a = At-send pw_input_success n m l.world (Said-At announce l.world i.4) k in
    let r : IsReady pw_input_success l.session.train_info = rw i.3 (refl, f.0, f.1) in
    (a.0, rw i.1 (rw i.2 (r, a.1)))

pub in_sound :
    (announce : Bool) (s : UserSession) (l : Logged)
    → IsIn announce s l
    → AreFlagged s.train_info
    → IsSound l.world
unfolding answered answered_at
in_sound announce s l i f =
    let a = Said-At announce l.world i.4 in
    let r : IsReady pw_input_success l.session.train_info = rw i.3 (refl, f.0, f.1) in
    (a.0, rw i.1 (rw i.2 (r, a.1)))

-- A registration that is tried, with something else to say where there is none
pub tried :
    (o : Outside) (announce : Bool) (s : UserSession) (w v : World)
    → IsQuiet w
    → AreFlagged s.train_info
    → IsSound v
    → (let l = resume_with_registered_account o announce s w in
        IsSound (if l.answered then l.world else v))
tried o announce s w v q f k = elim (registered_lem o announce s w q) [
  | inl u ↦ rw u.0 k
  | inr (inl i) ↦ rw i.0 (in_sound announce s _ i f)
  | inr (inr d) ↦ rw d.0 d.2
]
