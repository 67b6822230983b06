-- ===== src/Callback/Ended.antt =====
-- What a callback leaves of the search's records.
use korail_ktx_macro_telegra.Reservation.Process.{Config, Os}
use korail_ktx_macro_telegra.Reservation.Keyed.{IsKeyed, erase-IsKeyed}
use korail_ktx_macro_telegra.Reservation.Death.{detect_lem}
use korail_ktx_macro_telegra.Reservation.Ending.{detect_dead_searches, tells}
use korail_ktx_macro_telegra.Telegram.{search_result}
use korail_ktx_macro_telegra.Common.{
  ℕ, ◌≡◌, Bool, true, false, ◌&&◌, Option, none, some, arith, ◌==◌, if◌then◌else◌, Option-cases,
  inl, inr, is_some, ==-refl,
}
use korail_ktx_macro_telegra.Common.Dict.{lookup, erase, lookup-erase}
use korail_ktx_macro_telegra.Reservation.Fields.{
  running-reset_session, login-reset_session, dead-reset_session,
}
use korail_ktx_macro_telegra.Callback.{
  Status, no_status, complete, failed, partial, other, Request, Callbacks, handle_status, is_given,
  chat_of, get, verify_internal_request,
}

abbrev pub is_final : Status → Bool
is_final complete = true
is_final failed = true
is_final _ = false

handle_status_lem :
    (status : Status) (chat j : ℕ) (is_random : Bool) (w : Callbacks)
    → let s' = (handle_status status chat is_random w).service in
      let over = chat == j && is_final status in
      (s'.running ≡ (if is_final status then erase chat w.service.running else w.service.running))
      × (lookup j s'.resume_credentials
          ≡ (if over then none else lookup j w.service.resume_credentials))
      × (s'.dead ≡ w.service.dead)
unfolding handle_status
handle_status_lem no_status chat j is_random w = ground arith
handle_status_lem other chat j is_random w = ground arith
handle_status_lem partial chat j is_random w = ground arith
handle_status_lem failed chat j is_random w =
    rw (running-reset_session chat _, login-reset_session chat _, dead-reset_session chat _)
      (ground (arith, lookup-erase chat j w.service.resume_credentials))
handle_status_lem complete chat j is_random w =
    rw
      (
        running-reset_session chat w.service,
        login-reset_session chat w.service,
        dead-reset_session chat w.service,
      )
      (ground (arith, lookup-erase chat j w.service.resume_credentials))

-- The request is one of ours, complete, and says that the chat's search is over.
unfoldable pub ends : ℕ → Request → Option ℕ
ends token r =
    if verify_internal_request token r && is_given r && is_final r.status then chat_of r else none

abbrev pub is_chat : Option ℕ → ℕ → Bool
is_chat o j = elim o [ none ↦ false | some chat ↦ chat == j ]

module _ (token : ℕ) (r : Request) (w : Callbacks) where
  get_lem :
      (j : ℕ)
      → let (code, w') = get token r w in
        let over = is_chat (ends token r) j in
        (code ≡ (if verify_internal_request token r then 200 else 403))
        × (lookup j w'.service.running ≡ (if over then none else lookup j w.service.running))
        × (lookup j w'.service.resume_credentials
            ≡ (if over then none else lookup j w.service.resume_credentials))
        × (w'.service.dead ≡ w.service.dead)
  unfolding get ends
  get_lem j = elim (Option-cases (chat_of r)) [
    | inl e ↦ ground (arith, e)
    | inr (chat, e) ↦
        let w1 = record w { service = tells chat (search_result r.msg) w.service } in
        ground (
          arith,
          e,
          handle_status_lem r.status chat j r.is_random w1,
          lookup-erase chat j w.service.running,
        )
  ]

  get-IsKeyed : IsKeyed w.service.running → IsKeyed (get token r w).1.service.running
  unfolding get
  get-IsKeyed keyed = elim (Option-cases (chat_of r)) [
    | inl e ↦ ground (arith, e, keyed)
    | inr (chat, e) ↦
        let w1 = record w { service = tells chat (search_result r.msg) w.service } in
        ground (
          arith,
          e,
          keyed,
          handle_status_lem r.status chat chat r.is_random w1,
          erase-IsKeyed chat w.service.running keyed,
        )
  ]

  -- Where each record stands under its own chat: once a search has said that it is over, well or
  -- badly, a sweep for dead searches leaves no dead search for its chat that was not there before,
  -- even though its process is gone.
  pub ended_not_reported :
      (c : Config) (os : Os) {chat : ℕ}
      → IsKeyed w.service.running
      → ends token r ≡ some chat
      → is_some (lookup chat (detect_dead_searches c os (get token r w).1.service).1.dead)
        ≡ is_some (lookup chat w.service.dead)
  ended_not_reported c os {chat} keyed over =
      let s' = (get token r w).1.service in
      ground (arith, over, ==-refl chat, get_lem chat, detect_lem c os chat s' (get-IsKeyed keyed))
