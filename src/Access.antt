-- ===== src/Access.antt =====
-- src/korail_bot/services/access_service.py, with what it keeps in src/korail_bot/storage/redis.py
-- (trial counts, access requests, approvals) and the gate of `start_booking` in
-- src/korail_bot/handlers/conversation_handler.py. A phone number, its keyed hash and its masked form
-- are numbers; the hash and the list of numbers approved in advance are parameters. What a call reads
-- from `datetime.now()` is its argument `now`, in seconds.
pub mod Trial
pub mod Approval
mod Tests
use korail_ktx_macro_telegra.Common.{
  ℕ, ◌+◌, Bool, true, false, not, ◌&&◌, ◌||◌, Option, none, some, List, [], ◌∷◌, leb, ◌==◌,
  if◌then◌else◌, is_some,
}
use korail_ktx_macro_telegra.Common.Dict.{Dict, lookup, insert, erase, values}
use korail_ktx_macro_telegra.Common.Int.{ℤ, is_negative, below, left_of}

pub data AccessLevel : Type 0 where
  developer approved trial exhausted : AccessLevel

pub record AccessDecision : Type 0 where
  pub level : AccessLevel
  pub used : ℕ
  pub limit : ℤ

unfoldable pub allowed : AccessDecision → Bool
allowed d = elim d.level [ exhausted ↦ false | _ ↦ true ]

unfoldable pub counts_against_trial : AccessDecision → Bool
counts_against_trial d = elim d.level [ trial ↦ true | _ ↦ false ]

unfoldable pub remaining : AccessDecision → ℕ
remaining d = left_of d.limit d.used

pub record AccessRequest : Type 0 where
  pub phone_hash : ℕ
  pub chat_id : ℕ
  pub masked_phone : ℕ
  pub requested_at : ℕ

pub record ApprovedUser : Type 0 where
  pub phone_hash : ℕ
  pub masked_phone : ℕ
  pub approved_at : ℕ
  pub approved_by : ℕ

-- A request under its key, and when Redis drops it.
pub record KeptRequest : Type 0 where
  pub request : AccessRequest
  pub until : ℕ

-- The keys `trial:`, `access_request:` and `approved:`, each followed by a phone's hash.
pub record AccessStorage : Type 0 where
  pub trials : Dict ℕ
  pub requests : Dict KeptRequest
  pub approvals : Dict ApprovedUser

unfoldable pub get_trial_count : ℕ → AccessStorage → ℕ
get_trial_count h s = elim (lookup h s.trials) [ none ↦ 0 | some n ↦ n ]

unfoldable pub increment_trial_count : ℕ → AccessStorage → AccessStorage
increment_trial_count h s = record s { trials = insert h (get_trial_count h s + 1) s.trials }

unfoldable pub get_access_request : ℕ → ℕ → AccessStorage → Option AccessRequest
get_access_request h now s = elim (lookup h s.requests) [
  | none ↦ none
  | some k ↦ if leb k.until now then none else some k.request
]

unfoldable pub save_access_request : ℕ → ℕ → AccessRequest → AccessStorage → AccessStorage
save_access_request ttl now r s = record s {
  requests = insert r.phone_hash (record { request = r; until = now + ttl }) s.requests;
}

unfoldable pub delete_access_request : ℕ → AccessStorage → AccessStorage
delete_access_request h s = record s { requests = erase h s.requests }

unfoldable pub is_approved : ℕ → AccessStorage → Bool
is_approved h s = is_some (lookup h s.approvals)

unfoldable pub save_approved_user : ApprovedUser → AccessStorage → AccessStorage
save_approved_user u s = record s { approvals = insert u.phone_hash u s.approvals }

unfoldable pub delete_approved_user : ℕ → AccessStorage → AccessStorage
delete_approved_user h s = record s { approvals = erase h s.approvals }

-- `sorted(users, key=lambda u: u.approved_at, reverse=True)`, which keeps the order of equals.
unfoldable pub insert_latest : ApprovedUser → List ApprovedUser → List ApprovedUser
insert_latest u [] = u ∷ []
insert_latest u (v ∷ us) =
    if leb v.approved_at u.approved_at then u ∷ v ∷ us else v ∷ insert_latest u us

unfoldable pub latest_first : List ApprovedUser → List ApprovedUser
unfolding insert_latest
latest_first [] = []
latest_first (u ∷ us) = insert_latest u (latest_first us)

unfoldable pub get_all_approved_users : AccessStorage → List ApprovedUser
unfolding latest_first
get_all_approved_users s = latest_first (values s.approvals)

-- `next((u for u in users if u.phone_hash == phone_hash), None)`
unfoldable pub first_with_hash : ℕ → List ApprovedUser → Option ApprovedUser
first_with_hash h [] = none
first_with_hash h (u ∷ us) = if u.phone_hash == h then some u else first_with_hash h us

-- `AccessService.request_access`, with the number's hash and its masked form.
unfoldable pub request_access :
    ℕ → ℕ → ℕ → ℕ → ℕ → AccessStorage → Option AccessRequest × AccessStorage
request_access ttl now chat h masked s = elim (get_access_request h now s) [
  | some pending ↦ (none, s)
  | none ↦
      let r : AccessRequest = record {
        phone_hash = h;
        chat_id = chat;
        masked_phone = masked;
        requested_at = now;
      } in
      (some r, save_access_request ttl now r s)
]

unfoldable pub approve : ℕ → ℕ → ℕ → AccessStorage → Option AccessRequest × AccessStorage
approve now h approved_by s = elim (get_access_request h now s) [
  | none ↦ (none, s)
  | some r ↦ (
    some r,
    delete_access_request h (
        save_approved_user
          (record {
            phone_hash = h;
            masked_phone = r.masked_phone;
            approved_at = now;
            approved_by = approved_by;
          })
          s),
  )
]

unfoldable pub reject : ℕ → ℕ → AccessStorage → Option AccessRequest × AccessStorage
reject now h s = elim (get_access_request h now s) [
  | none ↦ (none, s)
  | some r ↦ (some r, delete_access_request h s)
]

unfoldable pub revoke : ℕ → AccessStorage → Option ApprovedUser × AccessStorage
revoke h s = elim (first_with_hash h (get_all_approved_users s)) [
  | none ↦ (none, s)
  | some u ↦ (some u, delete_approved_user h s)
]

module _ (identity_hash : ℕ → ℕ) (is_preapproved : ℕ → Bool) (trial_search_limit : ℤ) where
  unfoldable pub evaluate : ℕ → Bool → AccessStorage → AccessDecision
  evaluate phone is_developer s =
      let used = get_trial_count (identity_hash phone) s in
      if is_developer
      then record { level = developer; used = 0; limit = trial_search_limit }
      else if is_preapproved phone
      then record { level = approved; used = 0; limit = trial_search_limit }
      else if is_approved (identity_hash phone) s
      then record { level = approved; used = 0; limit = trial_search_limit }
      else if is_negative trial_search_limit
      then record { level = trial; used = used; limit = trial_search_limit }
      else if below used trial_search_limit
      then record { level = trial; used = used; limit = trial_search_limit }
      else record { level = exhausted; used = used; limit = trial_search_limit }

  unfoldable pub consume : ℕ → AccessDecision → AccessStorage → AccessStorage
  consume phone d s =
      if not (counts_against_trial d) || is_negative d.limit
      then s
      else increment_trial_count (identity_hash phone) s

  -- `start_booking`: the gate, the search process (`starts` says whether one came up), the charge.
  -- The result says whether a search is running.
  unfoldable pub start_booking : ℕ → Bool → Bool → AccessStorage → Bool × AccessStorage
  start_booking phone is_developer starts s =
      let decision = evaluate phone is_developer s in
      if not (allowed decision)
      then (false, s)
      else if not starts
      then (false, s)
      else (true, consume phone decision s)
