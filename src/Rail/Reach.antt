-- ===== src/Rail/Reach.antt =====
-- The failure counter: how much a search slows down, and what the user hears of it.
use korail_ktx_macro_telegra.Common.{
  Bool-cases, inl, inr, ℕ, ◌+◌, ◌-◌, ◌≤◌, ◌<◌, min, ◌≡◌, refl, Bool, true, false, List, [], ◌∷◌,
  arith, ltb, if◌then◌else◌, ◌*◌, Bool-cases, suc,
}
use native.Mathlib.Nat.{one-le-pow, pow-succ'}
use korail_ktx_macro_telegra.Rail.{
  Notice, unreachable, recovered, Health, Settings, backoff, failed_health, note_search_failure,
  note_search_success,
}

-- One request, failed at a time or answered.
pub data Event : Type 0 where
  fail : ℕ → Event
  answer : Event

unfoldable pub note : Settings → Event → Health → Health
unfolding note_search_failure note_search_success
note c (fail now) h = (note_search_failure c now h).1
note c answer h = note_search_success h

unfoldable pub notes : Settings → List Event → Health → Health
unfolding note
notes c [] h = h
notes c (e ∷ es) h = notes c es (note c e h)

abbrev pub healthy : Health
healthy = record { streak = 0; since = 0; alerted_at = 0; announced = [] }

-- Whether the user was last told that the operator does not answer.
abbrev pub alarmed : List Notice → Bool
alarmed [] = false
alarmed (unreachable _ _ ∷ _) = true
alarmed (recovered ∷ _) = false

-- Every recovery that was announced had been preceded by an alarm that was not yet called off.
abbrev pub Alternates : List Notice → Type 0
Alternates [] = Unit
Alternates (unreachable _ _ ∷ l) = Alternates l
Alternates (recovered ∷ l) = (alarmed l ≡ true) × Alternates l

abbrev pub Timed : Event → Type 0
Timed (fail now) = 0 < now
Timed answer = Unit

pub record IsSound (h : Health) : Type 0 where
  pub alarm : alarmed h.announced ≡ ltb 0 h.alerted_at
  pub failing : 0 < h.alerted_at → 0 < h.streak
  pub alternates : Alternates h.announced

note-IsSound : (c : Settings) (e : Event) (h : Health) → Timed e → IsSound h → IsSound (note c e h)
unfolding note
note-IsSound c (fail now) h t s = record {
  alarm = ground (arith, s.alarm);
  failing = ground arith;
  alternates = ground (arith, s.alternates);
}
note-IsSound c answer h t s = record {
  alarm = ground (arith, s.alarm);
  failing = ground (arith, s.failing);
  alternates = ground (arith, s.alternates, s.alarm);
}

abbrev AllTimed : List Event → Type 0
AllTimed [] = Unit
AllTimed (e ∷ es) = Timed e × AllTimed es

notes_from-IsSound :
    (c : Settings) (es : List Event) (h : Health) → AllTimed es → IsSound h → IsSound (notes c es h)
unfolding notes
notes_from-IsSound c [] h t s = s
notes_from-IsSound c (e ∷ es) h t s =
    notes_from-IsSound c es (note c e h) t.1 (note-IsSound c e h t.0 s)

-- Whatever requests fail or are answered, in whatever order and at whatever positive times: the
-- user was last told of an outage exactly while an alert is recorded, an alert is recorded only
-- while requests are failing, and a recovery is announced only after an alarm that had not been
-- called off.
pub notes-IsSound : (c : Settings) (es : List Event) → AllTimed es → IsSound (notes c es healthy)
notes-IsSound c es t =
    notes_from-IsSound c es healthy t
      (record { alarm = refl; failing = omega arith; alternates = tt })

backoff-le-cap : (c : Settings) (n : ℕ) → backoff c n ≤ c.backoff_cap
unfolding backoff
backoff-le-cap c n = omega arith

backoff-pos : (c : Settings) (n : ℕ) → 0 < c.backoff_cap → 0 < backoff c n
unfolding backoff
backoff-pos c n h = omega (arith, one-le-pow (min (n - 1) 20) 2 (omega arith))

streak-failed_health :
    (c : Settings) (now : ℕ) (h : Health) → (failed_health c now h).streak ≡ h.streak + 1
unfolding failed_health
streak-failed_health c now h = ground arith

backoff_one : (c : Settings) → 0 < c.backoff_cap → backoff c 1 ≡ 1
unfolding backoff
backoff_one c h = omega arith

backoff_step :
    (c : Settings) (n : ℕ)
    → backoff c (n + 1 + 1)
      ≡ (if ltb n 20 then min (2 * backoff c (n + 1)) c.backoff_cap else backoff c (n + 1))
unfolding backoff
backoff_step c n = elim (Bool-cases (ltb n 20)) [
  | inl below ↦
      let here : min (n + 1 - 1) 20 ≡ n = ground arith in
      let next : min (n + 1 + 1 - 1) 20 ≡ suc n = ground arith in
      rw (below, here, next) (omega (arith, pow-succ' 2 n))
  | inr above ↦
      let here : min (n + 1 - 1) 20 ≡ 20 = ground arith in
      let next : min (n + 1 + 1 - 1) 20 ≡ 20 = ground arith in rw (above, here, next) refl
]

streak-success : (h : Health) → (note_search_success h).streak ≡ 0
unfolding note_search_success
streak-success h = ground arith

-- The multiplier of the wait after a failed request, when its cap is at least 1: it is at least 1 and at
-- most the cap; one more failure in a row doubles it up to the cap for the first twenty times and keeps
-- it after that; and a failure that follows an answered request has the multiplier 1.
pub backoff_doubles :
    (c : Settings) (now later : ℕ) (h : Health)
    → 0 < c.backoff_cap
    → let (m, h') = note_search_failure c now h in
      (0 < m)
      × (m ≤ c.backoff_cap)
      × ((note_search_failure c later h').0
          ≡ (if ltb h.streak 20 then min (2 * m) c.backoff_cap else m))
      × ((note_search_failure c later (note_search_success h')).0 ≡ 1)
unfolding note_search_failure
backoff_doubles c now later h cap_pos = (
  backoff-pos c (h.streak + 1) cap_pos,
  backoff-le-cap c (h.streak + 1),
  rw (streak-failed_health c now h) (backoff_step c h.streak),
  rw (streak-success (failed_health c now h)) (backoff_one c cap_pos),
)
