-- ===== src/Telegram.antt =====
-- What the services send to a chat: the constants of telegramBot/messages.py that they name, with
-- the values that are filled in, and `search_result`, a text that a search process has sent in. The
-- transport (services/telegram_service.py) is not modelled.
use mathlib.Core.List.{append-nil}
use korail_ktx_macro_telegra.Common.{
  ℕ, ◌≡◌, refl, Bool, List, [], ◌∷◌, ◌++◌, ◌==◌, if◌then◌else◌, keep, keep-append, Bool-cases, inl,
  inr,
}
use korail_ktx_macro_telegra.Payment.{Operator}

pub data Message : Type 0 where
  payment_verified payment_expired_verified : Message
  payment_verified_seat payment_expired_seat : ℕ → ℕ → ℕ → Message
  multi_reminder : ℕ → ℕ → ℕ → Message
  payment_cancel_nothing payment_cancel_mid_run : Message
  payment_cancel_done payment_cancel_confirm : List ℕ → Message
  payment_cancel_no_account payment_cancel_login_failed : Operator → Message
  payment_cancel_refused : Operator → Message
  already_running reservation_started reservation_resumed search_resumed : Message
  server_busy : Operator → ℕ → Message
  search_died : Bool → Bool → Message
  search_dead_gone search_resume_failed : Message
  reservation_interrupted reservation_interrupted_partial : Message
  reservation_cancelled error_no_progress stopped_by_admin : Message
  admin_summary : ℕ → Message
  search_result : ℕ → Message
  schedule_missed schedule_no_credentials schedule_starting : Message

abbrev pub Outbox : Type 0
Outbox = List (ℕ × Message)

abbrev pub sends : ℕ → Message → Outbox → Outbox
sends chat m out = out ++ (chat, m) ∷ []

-- What was sent to one chat
abbrev pub sent_to : ℕ → Outbox → Outbox
sent_to chat out = keep (λ m. m.0 == chat) out

pub sent_to-sends :
    (j chat : ℕ) (m : Message) (out : Outbox)
    → sent_to j (sends chat m out)
      ≡ (if chat == j then sends chat m (sent_to j out) else sent_to j out)
sent_to-sends j chat m out = elim (Bool-cases (chat == j)) [
  | inl e ↦ rw (keep-append (λ n. n.0 == j) out ((chat, m) ∷ []), e) refl
  | inr e ↦ rw (keep-append (λ n. n.0 == j) out ((chat, m) ∷ []), e) (append-nil (sent_to j out))
]
