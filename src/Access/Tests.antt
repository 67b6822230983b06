-- ===== src/Access/Tests.antt =====
-- A number that uses up its allowance, asks, is approved and is revoked again.
use korail_ktx_macro_telegra.Common.{ℕ, ◌+◌, ◌≤◌, ◌≡◌, refl, Bool, true, false, List, [], ◌∷◌, max}
use korail_ktx_macro_telegra.Common.Dict.{lookup, insert}
use korail_ktx_macro_telegra.Common.Int.{pos, negsuc}
use korail_ktx_macro_telegra.Access.{
  AccessStorage, evaluate, start_booking, approve, revoke, request_access, get_trial_count,
  is_approved, get_access_request, allowed, consume, counts_against_trial, increment_trial_count,
  save_access_request,
}
use korail_ktx_macro_telegra.Access.Trial.{
  Event, books, asks, steps, trial_starts, trial_starts_bounded, step,
}
use korail_ktx_macro_telegra.Access.Approval.{revoke-approve}

abbrev hash : ℕ → ℕ
hash n = n + 100

abbrev nobody : ℕ → Bool
nobody n = false

abbrev fresh : AccessStorage
fresh = record { trials = []; requests = []; approvals = [] }

-- Number 7 books three times on an allowance of two, and asks.
abbrev history : List Event
history =
    books 7 false true
    ∷ books 7 false false
    ∷ books 7 false true
    ∷ books 7 false true
    ∷ asks 600 50 5 107 77
    ∷ []

used_up : (evaluate hash nobody (pos 2) 7 false (steps hash nobody 2 history fresh)).used ≡ 2
unfolding steps evaluate is_approved lookup step request_access get_access_request start_booking
    allowed get_trial_count consume counts_against_trial increment_trial_count insert
    save_access_request
used_up = refl

no_gate : (start_booking hash nobody (negsuc 0) 7 false true fresh).0 ≡ true
unfolding start_booking evaluate allowed is_approved lookup
no_gate = refl

trial_starts_bounded_example :
    (get_trial_count 107 (steps hash nobody 2 history fresh)
      ≡ get_trial_count 107 fresh + trial_starts hash nobody 2 107 history fresh)
    × (get_trial_count 107 (steps hash nobody 2 history fresh) ≤ max (get_trial_count 107 fresh) 2)
trial_starts_bounded_example = trial_starts_bounded hash nobody 2 107 history fresh

abbrev asked : AccessStorage
asked = (request_access 600 50 5 107 77 fresh).1

revoke-approve_example :
    evaluate hash nobody (pos 2) 7 false (revoke 107 (approve 60 107 1 asked).1).1
    ≡ evaluate hash nobody (pos 2) 7 false asked
unfolding request_access is_approved get_access_request lookup save_access_request
revoke-approve_example = revoke-approve hash nobody (pos 2) 7 60 107 1 false asked tt refl
