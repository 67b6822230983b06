-- ===== src/Rail.antt =====
-- src/korail_bot/services/rail_service.py: the search-and-reserve loop without the operator. What
-- an operator's client answers on each pass of the loop is a parameter (`Round`); the seconds that
-- a wait is drawn from are its multiplier. A clock reading is a whole number of seconds above 0.
-- `report_progress`, which only calls back, is left out.
pub mod Reach
pub mod Consecutive
pub mod Random
mod Tests
use korail_ktx_macro_telegra.Common.{
  ℕ, zero, suc, ◌+◌, ◌-◌, ◌/◌, ◌^◌, min, Bool, true, false, not, ◌&&◌, ◌||◌, Option, none, some,
  List, [], ◌∷◌, ◌++◌, leb, ltb, ◌==◌, if◌then◌else◌, length,
}

-- What the user is told: requests in a row that failed and for how many minutes, or that the
-- operator answers again.
pub data Notice : Type 0 where
  unreachable : ℕ → ℕ → Notice
  recovered : Notice

-- The failure fields of the service; `announced` has the latest notice first.
pub record Health : Type 0 where
  pub streak : ℕ
  pub since : ℕ
  pub alerted_at : ℕ
  pub announced : List Notice

pub record Settings : Type 0 where
  pub threshold : ℕ
  pub realert : ℕ
  -- A whole number here; the setting is a float.
  pub backoff_cap : ℕ

unfoldable pub failure_due : Settings → ℕ → ℕ → Health → Bool
failure_due c streak now h =
    leb c.threshold streak && (h.alerted_at == 0 || leb (h.alerted_at + c.realert) now)

unfoldable pub backoff : Settings → ℕ → ℕ
backoff c streak = min (2 ^ min (streak - 1) 20) c.backoff_cap

unfoldable pub failed_health : Settings → ℕ → Health → Health
unfolding failure_due
failed_health c now h =
    let streak = h.streak + 1 in
    let since = if streak == 1 then now else h.since in
    if failure_due c streak now h
    then record {
      streak = streak;
      since = since;
      alerted_at = now;
      announced = unreachable streak ((now - since) / 60) ∷ h.announced;
    }
    else record h { streak = streak; since = since }

-- The multiplier for the next wait, and the new state.
unfoldable pub note_search_failure : Settings → ℕ → Health → ℕ × Health
unfolding failed_health backoff
note_search_failure c now h = (backoff c (h.streak + 1), failed_health c now h)

unfoldable pub note_search_success : Health → Health
note_search_success h = if h.streak == 0 then h else record {
  streak = 0;
  since = 0;
  alerted_at = 0;
  announced = if h.alerted_at == 0 then h.announced else recovered ∷ h.announced;
}

-- What `reserve_train` gives for one train.
pub data Booking : Type 0 where
  duplicate sold_out : Booking
  reserved : ℕ → Booking

-- One pass of the loop, seen from outside: whether the session is due for a refresh, and how that
-- and a recovery login end; what the search finds (`none` is SearchUnavailableError), with what
-- reserving each train would give; and the time.
pub record Round : Type 0 where
  pub refresh : Option Bool
  pub recovers : Bool
  pub found : Option (List Booking)
  pub now : ℕ

pub data Wait : Type 0 where
  backing_off : ℕ → Wait
  ordinary longer : Wait

pub record Search : Type 0 where
  pub attempts : ℕ
  pub logged_in : Bool
  pub health : Health
  pub duplicate_notified : Bool
  pub waits : List Wait

-- `_check_session_refresh`
unfoldable pub session_after_refresh : Round → Search → Bool
session_after_refresh r s = elim r.refresh [ none ↦ s.logged_in | some done ↦ done ]

-- `ensure_logged_in`, then `search_trains`; both may find that the search is unavailable.
unfoldable pub search_trains : Round → Search → Option (List Booking) × Bool
unfolding session_after_refresh
search_trains r s =
    if session_after_refresh r s
    then (r.found, true)
    else if r.recovers
    then (r.found, true)
    else (none, false)

-- The part of a pass that both loops share, up to the trains that were found.
unfoldable pub ask : Settings → Round → Search → Option (List Booking) × Search
unfolding search_trains note_search_failure note_search_success
ask c r s =
    let (found, logged_in) = search_trains r s in
    elim found [
      | none ↦
          let (multiplier, health) = note_search_failure c r.now s.health in
          (
            none,
            record s {
              logged_in = logged_in;
              health = health;
              waits = s.waits ++ backing_off multiplier ∷ [];
            },
          )
      | some trains ↦
          (some trains, record s { logged_in = logged_in; health = note_search_success s.health })
    ]

pub data Tried : Type 0 where
  got : ℕ → Tried
  raised nothing : Tried

-- The loop over the trains that were found; a duplicate raises unless it was notified before.
unfoldable pub try_trains : Bool → List Booking → Tried
try_trains notified [] = nothing
try_trains notified (duplicate ∷ bs) = if notified then try_trains notified bs else raised
try_trains notified (sold_out ∷ bs) = try_trains notified bs
try_trains notified (reserved r ∷ bs) = got r

abbrev pub waiting : Wait → Search → Search
waiting w s = record s { waits = s.waits ++ w ∷ [] }

abbrev pub counted_up : Search → Search
counted_up s = record s { attempts = s.attempts + 1 }

-- `max_attempts and attempts > max_attempts`; no bound is 0.
abbrev pub over_limit : ℕ → ℕ → Bool
over_limit max attempts = not (max == 0) && ltb max attempts

pub data Outcome : Type 0 where
  booked : ℕ → Outcome
  all_booked : List ℕ → Outcome
  duplicate_error : Outcome
  gave_up : List ℕ → Outcome
  no_seats : Outcome
  out_of_fuel : Outcome

-- `return reservations[0] if reservations else None`, with the whole list.
unfoldable pub left_loop : List ℕ → Outcome
left_loop [] = no_seats
left_loop (r ∷ rs) = all_booked (r ∷ rs)

module _ (c : Settings) (rounds : ℕ → Round) (max : ℕ) where
  -- `_search_and_reserve_consecutive`
  unfoldable pub reserve_consecutive : ℕ → Search → Outcome × Search
  reserve_consecutive zero s = (out_of_fuel, s)
  reserve_consecutive (suc fuel) s =
      let s1 = counted_up s in
      let (answer, s2) = ask c (rounds s1.attempts) s1 in
      let unavailable = reserve_consecutive fuel s2 in
      let again = reserve_consecutive fuel (waiting ordinary s2) in
      if over_limit max s1.attempts then (gave_up [], s1) else elim answer [
        | none ↦ unavailable
        | some trains ↦ elim (try_trains s2.duplicate_notified trains) [
          | got r ↦ (booked r, s2)
          | raised ↦ (duplicate_error, record s2 { duplicate_notified = true })
          | nothing ↦ again
        ]
      ]

  -- `_search_and_reserve_random`, with the seats held so far.
  unfoldable pub reserve_random : ℕ → ℕ → List ℕ → Search → Outcome × Search
  reserve_random zero target held s = (out_of_fuel, s)
  reserve_random (suc fuel) target held s =
      let s1 = counted_up s in
      let (answer, s2) = ask c (rounds s1.attempts) s1 in
      let unavailable = reserve_random fuel target held s2 in
      let again = reserve_random fuel target held (waiting ordinary s2) in
      if not (ltb (length held) target)
      then (left_loop held, s)
      else if over_limit max s1.attempts
      then (gave_up held, s1)
      else elim answer [
        | none ↦ unavailable
        | some trains ↦ elim (try_trains s2.duplicate_notified trains) [
          | raised ↦ (duplicate_error, record s2 { duplicate_notified = true })
          | nothing ↦ again
          | got r ↦
              let held' = held ++ r ∷ [] in
              let more = reserve_random fuel target held' (waiting ordinary (waiting longer s2)) in
              if leb target (length held') then (all_booked held', s2) else more
        ]
      ]
