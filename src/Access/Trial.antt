-- ===== src/Access/Trial.antt =====
-- The trial allowance: what it bounds, over any history of bookings and of the operators' answers.
use korail_ktx_macro_telegra.Common.{
  ℕ, ◌+◌, ◌≤◌, ◌≡◌, Bool, false, not, ◌&&◌, ◌||◌, List, [], ◌∷◌, arith, ◌==◌, if◌then◌else◌, max,
}
use korail_ktx_macro_telegra.Common.Dict.{lookup-insert}
use korail_ktx_macro_telegra.Common.Int.{pos}
use korail_ktx_macro_telegra.Access.{
  AccessStorage, get_trial_count, increment_trial_count, request_access, approve, reject, revoke,
  evaluate, consume, start_booking, allowed, counts_against_trial, is_approved, save_access_request,
  save_approved_user, delete_access_request, delete_approved_user,
}

-- What reaches the service: a confirmed booking, the button of `request_access`, an operator.
pub data Event : Type 0 where
  books : ℕ → Bool → Bool → Event
  asks : ℕ → ℕ → ℕ → ℕ → ℕ → Event
  approves : ℕ → ℕ → ℕ → Event
  rejects : ℕ → ℕ → Event
  revokes : ℕ → Event

module _ (identity_hash : ℕ → ℕ) (is_preapproved : ℕ → Bool) (limit : ℕ) where
  unfoldable pub step : Event → AccessStorage → AccessStorage
  step (books phone dev starts) s =
      (start_booking identity_hash is_preapproved (pos limit) phone dev starts s).1
  step (asks ttl now chat h masked) s = (request_access ttl now chat h masked s).1
  step (approves now h by) s = (approve now h by s).1
  step (rejects now h) s = (reject now h s).1
  step (revokes h) s = (revoke h s).1

  -- Whether an event is a search that starts for the number with this hash, by nothing but its trial
  -- allowance.
  unfoldable pub is_trial_start : ℕ → Event → AccessStorage → Bool
  is_trial_start h (books phone dev starts) s =
      (identity_hash phone == h)
      && (start_booking identity_hash is_preapproved (pos limit) phone dev starts s).0
      && not (dev || is_preapproved phone || is_approved (identity_hash phone) s)
  is_trial_start h _ s = false

  unfoldable pub steps : List Event → AccessStorage → AccessStorage
  steps [] s = s
  steps (e ∷ es) s = steps es (step e s)

  unfoldable pub trial_starts : ℕ → List Event → AccessStorage → ℕ
  trial_starts h [] s = 0
  trial_starts h (e ∷ es) s = (if is_trial_start h e s then 1 else 0) + trial_starts h es (step e s)

  -- The other operations leave the counts alone.
  trials-request_access :
      (ttl now chat h masked : ℕ) (s : AccessStorage)
      → (request_access ttl now chat h masked s).1.trials ≡ s.trials
  unfolding request_access save_access_request
  trials-request_access ttl now chat h masked s = ground arith

  trials-approve : (now h by : ℕ) (s : AccessStorage) → (approve now h by s).1.trials ≡ s.trials
  unfolding approve save_approved_user delete_access_request
  trials-approve now h by s = ground arith

  trials-reject : (now h : ℕ) (s : AccessStorage) → (reject now h s).1.trials ≡ s.trials
  unfolding reject delete_access_request
  trials-reject now h s = ground arith

  trials-revoke : (h : ℕ) (s : AccessStorage) → (revoke h s).1.trials ≡ s.trials
  unfolding revoke delete_approved_user
  trials-revoke h s = ground arith

  count_same :
      (h : ℕ) (s s' : AccessStorage)
      → s'.trials ≡ s.trials
      → get_trial_count h s' ≡ get_trial_count h s
  unfolding get_trial_count
  count_same h s s' e = rw e

  count-increment :
      (h j : ℕ) (s : AccessStorage)
      → get_trial_count h (increment_trial_count j s)
        ≡ (if j == h then 1 else 0) + get_trial_count h s
  unfolding increment_trial_count get_trial_count
  count-increment h j s = ground (arith, lookup-insert j h (get_trial_count j s + 1) s.trials)

  count-books :
      (h phone : ℕ) (dev starts : Bool) (s : AccessStorage)
      → let e = books phone dev starts in
        (get_trial_count h (step e s)
          ≡ get_trial_count h s + (if is_trial_start h e s then 1 else 0))
        × (get_trial_count h (step e s) ≤ max (get_trial_count h s) limit)
  unfolding step is_trial_start start_booking evaluate consume allowed counts_against_trial
  count-books h phone dev starts s = ground (arith, count-increment h (identity_hash phone) s)

  -- One event: the count moves by the trial starts, and not past the limit.
  count-step :
      (h : ℕ) (e : Event) (s : AccessStorage)
      → (get_trial_count h (step e s)
          ≡ get_trial_count h s + (if is_trial_start h e s then 1 else 0))
        × (get_trial_count h (step e s) ≤ max (get_trial_count h s) limit)
  unfolding step is_trial_start
  count-step h (books phone dev starts) s = count-books h phone dev starts s
  count-step h (asks ttl now chat j masked) s =
      rw
        (count_same h s (request_access ttl now chat j masked s).1
          (trials-request_access ttl now chat j masked s))
        (omega arith)
  count-step h (approves now j by) s =
      rw (count_same h s (approve now j by s).1 (trials-approve now j by s)) (omega arith)
  count-step h (rejects now j) s =
      rw (count_same h s (reject now j s).1 (trials-reject now j s)) (omega arith)
  count-step h (revokes j) s = rw (count_same h s (revoke j s).1 (trials-revoke j s)) (omega arith)

  -- Over any history of bookings, requests, approvals, rejections and revocations, with a limit that
  -- is not negative: a number's trial count grows by exactly the searches that started on its
  -- allowance, and it never passes the larger of the limit and the count it had at first.
  pub trial_starts_bounded :
      (h : ℕ) (es : List Event) (s : AccessStorage)
      → (get_trial_count h (steps es s) ≡ get_trial_count h s + trial_starts h es s)
        × (get_trial_count h (steps es s) ≤ max (get_trial_count h s) limit)
  unfolding steps trial_starts
  trial_starts_bounded h [] s = omega arith
  trial_starts_bounded h (e ∷ es) s =
      omega (arith, count-step h e s, trial_starts_bounded h es (step e s))
