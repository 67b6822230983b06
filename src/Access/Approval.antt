-- ===== src/Access/Approval.antt =====
-- Approvals and requests: what each operation changes, and that revoking undoes approving.
use korail_ktx_macro_telegra.Common.{
  ℕ, ◌≡◌, refl, ◌∙◌, Bool, false, none, List, [], ◌∷◌, arith, ◌==◌, if◌then◌else◌, is_some, any,
  All, ◌&&◌, ◌||◌, Option-cases, inl, inr,
}
use korail_ktx_macro_telegra.Common.Dict.{Dict, lookup, insert, values, lookup-insert, lookup-erase}
use korail_ktx_macro_telegra.Common.Int.{ℤ}
use korail_ktx_macro_telegra.Access.{
  AccessStorage, ApprovedUser, get_trial_count, is_approved, get_access_request, insert_latest,
  latest_first, first_with_hash, get_all_approved_users, approve, revoke, evaluate,
  save_approved_user, delete_access_request, delete_approved_user,
}

-- Every approval stands under its own number's key.
abbrev pub IsKeyed : Dict ApprovedUser → Type 0
IsKeyed d = All (λ e. e.1.phone_hash ≡ e.0) d

has_hash : ℕ → ApprovedUser → Bool
has_hash h u = u.phone_hash == h

module _ (h : ℕ) where
  any-insert_latest :
      (u : ApprovedUser) (us : List ApprovedUser)
      → any (has_hash h) (insert_latest u us) ≡ (has_hash h u || any (has_hash h) us)
  unfolding insert_latest
  any-insert_latest u [] = ground arith
  any-insert_latest u (v ∷ us) = ground (arith, any-insert_latest u us)

  any-latest_first :
      (us : List ApprovedUser) → any (has_hash h) (latest_first us) ≡ any (has_hash h) us
  unfolding latest_first
  any-latest_first [] = refl
  any-latest_first (u ∷ us) =
      any-insert_latest u (latest_first us) ∙ ground (arith, any-latest_first us)

  is_some-first_with_hash :
      (us : List ApprovedUser) → is_some (first_with_hash h us) ≡ any (has_hash h) us
  unfolding first_with_hash has_hash
  is_some-first_with_hash [] = refl
  is_some-first_with_hash (u ∷ us) = ground (arith, is_some-first_with_hash us)

  any-values :
      (d : Dict ApprovedUser) → IsKeyed d → any (has_hash h) (values d) ≡ is_some (lookup h d)
  unfolding lookup has_hash
  any-values [] k = refl
  any-values ((j, u) ∷ d) k = ground (arith, any-values d k.1)

  found-is_approved :
      (s : AccessStorage)
      → IsKeyed s.approvals
      → is_some (first_with_hash h (get_all_approved_users s)) ≡ is_approved h s
  unfolding get_all_approved_users is_approved
  found-is_approved s k =
      is_some-first_with_hash (latest_first (values s.approvals))
      ∙ any-latest_first (values s.approvals)
      ∙ any-values s.approvals k

-- Where each approval stands under its own number: revoking reports whether the number was
-- approved, after it the number is not approved, and the approvals of other numbers and every trial
-- count are as they were.
pub revoke_lem :
    (h j : ℕ) (s : AccessStorage)
    → IsKeyed s.approvals
    → let (found, s') = revoke h s in
      (is_some found ≡ is_approved h s)
      × (is_approved j s' ≡ (if h == j then false else is_approved j s))
      × (get_trial_count j s' ≡ get_trial_count j s)
unfolding revoke delete_approved_user is_approved get_trial_count
revoke_lem h j s k = ground (arith, found-is_approved h s k, lookup-erase h j s.approvals)

-- Approving answers the pending request of the number if there is one that has not run out: it
-- reports that request, approves the number and takes the request away. With no such request it
-- changes no approval. Other numbers keep their approvals and requests, and all keep their counts.
approve_lem :
    (now later h j by : ℕ) (s : AccessStorage)
    → let (found, s') = approve now h by s in
      (found ≡ get_access_request h now s)
      × (is_approved j s' ≡ ((h == j && is_some (get_access_request h now s)) || is_approved j s))
      × (get_access_request j later s' ≡ (
          if h == j && is_some (get_access_request h now s)
          then none
          else get_access_request j later s))
      × (get_trial_count j s' ≡ get_trial_count j s)
unfolding approve save_approved_user delete_access_request is_approved get_access_request
    get_trial_count
approve_lem now later h j by s = elim (Option-cases (lookup h s.requests)) [
  | inl absent ↦ ground arith
  | inr (k, found) ↦ ground (
    arith,
    lookup-erase h j s.requests,
    lookup-insert h j
        (let u : ApprovedUser = record {
          phone_hash = h;
          masked_phone = k.request.masked_phone;
          approved_at = now;
          approved_by = by;
        } in
          u)
        s.approvals,
  )
]

All-insert :
    (h : ℕ) (u : ApprovedUser) (d : Dict ApprovedUser)
    → u.phone_hash ≡ h
    → IsKeyed d
    → IsKeyed (insert h u d)
unfolding insert
All-insert h u [] e k = (e, tt)
All-insert h u ((j, v) ∷ d) e k = ground (arith, All-insert h u d e k.1)

pub approve-IsKeyed :
    (now h by : ℕ) (s : AccessStorage)
    → IsKeyed s.approvals
    → IsKeyed (approve now h by s).1.approvals
unfolding approve save_approved_user delete_access_request
approve-IsKeyed now h by s k = elim (Option-cases (get_access_request h now s)) [
  | inl absent ↦ rw (absent, approve) k
  | inr (r, found) ↦ rw (found, approve) (All-insert h _ s.approvals refl k)
]

module _ (identity_hash : ℕ → ℕ) (is_preapproved : ℕ → Bool) (limit : ℤ) where
  -- A decision turns on the number's approval and its trial count alone.
  evaluate_same :
      (phone : ℕ) (dev : Bool) (s s' : AccessStorage)
      → is_approved (identity_hash phone) s' ≡ is_approved (identity_hash phone) s
      → get_trial_count (identity_hash phone) s' ≡ get_trial_count (identity_hash phone) s
      → evaluate identity_hash is_preapproved limit phone dev s'
        ≡ evaluate identity_hash is_preapproved limit phone dev s
  unfolding evaluate
  evaluate_same phone dev s s' e t = rw (e, t)

  -- Where each approval stands under its own number: when a number that was not approved is
  -- approved and then revoked, every number is decided on as before, with what it had used of its
  -- allowance.
  pub revoke-approve :
      (phone now h by : ℕ) (dev : Bool) (s : AccessStorage)
      → IsKeyed s.approvals
      → is_approved h s ≡ false
      → evaluate identity_hash is_preapproved limit phone dev (revoke h (approve now h by s).1).1
        ≡ evaluate identity_hash is_preapproved limit phone dev s
  revoke-approve phone now h by dev s k new =
      let s' = (approve now h by s).1 in
      let j = identity_hash phone in
      let keyed = approve-IsKeyed now h by s k in
      evaluate_same phone dev s (revoke h s').1
        (ground (arith, revoke_lem h j s' keyed, approve_lem now now h j by s))
        (ground (arith, revoke_lem h j s' keyed, approve_lem now now h j by s))
