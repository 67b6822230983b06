-- ===== src/Poller.antt =====
-- src/korail_bot/services/telegram_poller.py: the loop that fetches updates from Telegram and hands
-- them to the processor. Each round of `run` takes the answer of one HTTP request; what the processor
-- does with an update, an exception included, is contained there and not modelled. An update is its
-- `update_id`, if it has a usable one. The thread, and a stop between two rounds, are left to the list
-- of rounds that are run.
pub mod Delivery
mod Tests
use korail_ktx_macro_telegra.Common.{
  ℕ, ◌+◌, ◌*◌, min, Bool, true, false, not, ◌&&◌, Option, none, some, List, [], ◌∷◌, ◌++◌, ◌==◌,
  if◌then◌else◌,
}

abbrev pub initial_backoff : ℕ
initial_backoff = 1

abbrev pub max_backoff : ℕ
max_backoff = 60

abbrev pub Update : Type 0
Update = Option ℕ

-- The body of an answer: no JSON, no object or not `ok`, or what stands under `result`.
pub data Body : Type 0 where
  not_json not_ok not_a_list : Body
  result : List Update → Body

pub data Response : Type 0 where
  request_failed : Response
  answered : ℕ → Body → Response

-- `handed` has the ids that reached the processor, the first one first, and `waits` the seconds that
-- the loop slept.
pub record Poller : Type 0 where
  pub offset : Option ℕ
  pub backoff : ℕ
  pub handed : List ℕ
  pub waits : List ℕ

unfoldable pub read_body : Body → Bool × List Update
read_body not_json = (false, [])
read_body not_ok = (false, [])
read_body not_a_list = (false, [])
read_body (result updates) = (true, updates)

unfoldable pub get_updates : Response → Bool × List Update
unfolding read_body
get_updates request_failed = (false, [])
get_updates (answered status body) =
    if status == 409 then (false, []) else if status == 200 then read_body body else (false, [])

-- The update is acknowledged before it is processed.
unfoldable pub process_update : Update → Poller → Poller
process_update none p = p
process_update (some id) p = record p { offset = some (id + 1); handed = p.handed ++ id ∷ [] }

unfoldable pub process_updates : List Update → Poller → Poller
process_updates [] p = p
process_updates (u ∷ us) p = process_updates us (process_update u p)

unfoldable pub wait_before_retry : Poller → Poller
wait_before_retry p = record p {
  waits = p.waits ++ p.backoff ∷ [];
  backoff = min (p.backoff * 2) max_backoff;
}

abbrev pub same_offset : Option ℕ → Option ℕ → Bool
same_offset none none = true
same_offset none (some b) = false
same_offset (some a) none = false
same_offset (some a) (some b) = a == b

abbrev pub is_nil : List Update → Bool
is_nil [] = true
is_nil (_ ∷ _) = false

-- One round of the loop in `run`.
unfoldable pub poll : Response → Poller → Poller
poll r p =
    let (received, updates) = get_updates r in
    let p' = process_updates updates p in
    if not received
    then wait_before_retry p
    else if not (is_nil updates) && same_offset p'.offset p.offset
    then wait_before_retry p'
    else record p' { backoff = initial_backoff }

unfoldable pub run : List Response → Poller → Poller
run [] p = p
run (r ∷ rs) p = run rs (poll r p)

-- `TelegramPoller(...)`
abbrev pub new_poller : Poller
new_poller = record { offset = none; backoff = initial_backoff; handed = []; waits = [] }
