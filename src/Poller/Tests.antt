-- ===== src/Poller/Tests.antt =====
-- A poller that meets an update without an id, a refusal and a batch, and instances of the theorems.
use korail_ktx_macro_telegra.Common.{◌≡◌, refl, none, some, List, [], ◌∷◌, ◌++◌, arith}
use korail_ktx_macro_telegra.Poller.{
  Response, request_failed, answered, result, not_json, run, new_poller, poll, get_updates,
  process_updates, process_update, wait_before_retry,
}
use korail_ktx_macro_telegra.Poller.Delivery.{
  Between, asked_from, handed_once, received, handed-run, IsPaced, run-IsPaced,
}

abbrev answers : List Response
answers =
    answered 409 not_json
    ∷ answered 200 (result (some 41 ∷ none ∷ some 42 ∷ []))
    ∷ request_failed
    ∷ request_failed
    ∷ answered 200 (result (some 43 ∷ []))
    ∷ []

hands_over : (run answers new_poller).handed ≡ 41 ∷ 42 ∷ 43 ∷ []
unfolding run poll get_updates process_updates process_update wait_before_retry
hands_over = refl

backs_off : (run answers new_poller).waits ≡ 1 ∷ 1 ∷ 2 ∷ []
unfolding run poll get_updates process_updates process_update wait_before_retry
backs_off = refl

handed_once_example : let p = run answers new_poller in Between 0 (asked_from p.offset) p.handed
unfolding run get_updates poll wait_before_retry process_updates process_update
handed_once_example = handed_once answers (omega arith)

handed-run_example : (run answers new_poller).handed ≡ [] ++ received answers
handed-run_example = handed-run answers new_poller

run-IsPaced_example : IsPaced (run answers new_poller)
run-IsPaced_example =
    run-IsPaced answers new_poller
      (record { at_least = omega arith; at_most = omega arith; waited = tt })
