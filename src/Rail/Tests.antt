-- ===== src/Rail/Tests.antt =====
-- Runs of the two loops and of the failure counter, and instances of the theorems.
use korail_ktx_macro_telegra.Common.{
  ℕ, ◌+◌, ◌+◌, ◌≤◌, ◌<◌, ◌≡◌, refl, true, false, none, some, List, [], ◌∷◌, arith, if◌then◌else◌,
  ◌==◌, ltb, min, ◌*◌,
}
use korail_ktx_macro_telegra.Rail.{
  Settings, note_search_failure, sold_out, reserved, Round, Search, ask, try_trains, booked,
  gave_up, reserve_consecutive, reserve_random, note_search_success,
}
use korail_ktx_macro_telegra.Rail.Reach.{
  Event, fail, answer, notes, healthy, IsSound, notes-IsSound, backoff_doubles,
}
use korail_ktx_macro_telegra.Rail.Consecutive.{conclude, trains_found, reserve_consecutive_lem}
use korail_ktx_macro_telegra.Rail.Random.{Fits, reserve_random_lem}

abbrev settings : Settings
settings = record { threshold = 2; realert = 600; backoff_cap = 60 }

-- The second pass cannot search; the third finds a sold-out train, and after it one with a seat.
abbrev rounds : ℕ → Round
rounds n = record {
  refresh = none;
  recovers = false;
  found =
      if n == 2 then none else some (sold_out ∷ (if n == 3 then reserved 40 else sold_out) ∷ []);
  now = 100 + n;
}

abbrev search : Search
search = record {
  attempts = 0;
  logged_in = true;
  health = healthy;
  duplicate_notified = false;
  waits = [];
}

books_third : (reserve_consecutive settings rounds 5 6 search).0 ≡ booked 40
unfolding reserve_consecutive ask try_trains
books_third = refl

third_too_late : (reserve_consecutive settings rounds 2 3 search).0 ≡ gave_up []
unfolding reserve_consecutive ask try_trains
third_too_late = refl

-- A random-seating search that wants two seats, where a single pass finds one, gives up with it.
one_of_two : (reserve_random settings rounds 4 5 2 [] search).0 ≡ gave_up (40 ∷ [])
unfolding reserve_random ask try_trains
one_of_two = refl

reserve_consecutive_example :
    (reserve_consecutive settings rounds 5 6 search).0
    ≡ conclude (try_trains false (trains_found settings rounds 5 search))
reserve_consecutive_example =
    reserve_consecutive_lem settings rounds 5 search (omega arith) refl refl

reserve_random_example : Fits 2 (reserve_random settings rounds 4 5 2 [] search).0
reserve_random_example =
    reserve_random_lem settings rounds 4 2 search (omega arith) (omega arith) refl

-- Three failures and an answer.
abbrev outage : List Event
outage = fail 100 ∷ fail 130 ∷ fail 190 ∷ answer ∷ []

notes-IsSound_example : IsSound (notes settings outage healthy)
notes-IsSound_example = notes-IsSound settings outage (omega arith)

backoff_doubles_example :
    let (m, h') = note_search_failure settings 100 healthy in
    (0 < m)
    × (m ≤ 60)
    × ((note_search_failure settings 130 h').0 ≡ (if ltb 0 20 then min (2 * m) 60 else m))
    × ((note_search_failure settings 130 (note_search_success h')).0 ≡ 1)
backoff_doubles_example = backoff_doubles settings 100 130 healthy (omega arith)
