-- ===== src/Reservation/Process.antt =====
-- The records of a search (src/korail_bot/models/reservation.py, models/user.py), the state that the
-- service keeps, and its hold on the search processes.
use korail_ktx_macro_telegra.Common.{
  ℕ, Bool, true, false, not, Option, none, some, List, ◌==◌, if◌then◌else◌, keep,
}
use korail_ktx_macro_telegra.Common.Dict.{Dict}
use korail_ktx_macro_telegra.Payment.{Operator}
use korail_ktx_macro_telegra.Telegram.{Outbox}

-- The railway, and all else that a search is told, which is only passed on.
pub record TrainSearchParams : Type 0 where
  pub operator : Operator
  pub details : ℕ

pub record RunningReservation : Type 0 where
  pub chat_id : ℕ
  pub process_id : ℕ
  pub korail_id : ℕ
  pub search_params : TrainSearchParams
  pub run_id : ℕ

unfoldable pub is_stale : ℕ → RunningReservation → Bool
is_stale current_run_id r = not (r.run_id == current_run_id)

pub data DeathCause : Type 0 where
  start_failed crashed : DeathCause

pub record DeadSearch : Type 0 where
  pub chat_id : ℕ
  pub korail_id : ℕ
  pub search_params : TrainSearchParams
  pub cause : DeathCause
  pub resumable : Bool

-- A login: the Korail number and its password.
pub record Credentials : Type 0 where
  pub korail_id : ℕ
  pub korail_pw : ℕ

abbrev pub no_process : ℕ
no_process = 9999999

pub record UserSession : Type 0 where
  pub in_progress : Bool
  pub last_action : ℕ
  pub credentials : Option Credentials
  pub train_info : ℕ
  pub process_id : ℕ
  pub search_params : Option TrainSearchParams

unfoldable pub reset : UserSession → UserSession
reset u = record {
  in_progress = false;
  last_action = 0;
  credentials = elim u.credentials [ none ↦ none | some c ↦ some (record c { korail_pw = 0 }) ];
  train_info = 0;
  process_id = no_process;
  search_params = none;
}

-- The keys of one chat in the storage, the handles of this run, and what was sent.
pub record State : Type 0 where
  pub running : Dict RunningReservation
  pub dead : Dict DeadSearch
  -- The logins that can be read back: an entry with an empty name or password counts as missing.
  pub resume_credentials : Dict Credentials
  pub app_session_starts : Dict ℕ
  -- How many seats each chat's run has noted
  pub partial_reservations : Dict ℕ
  pub sessions : Dict UserSession
  pub children : List ℕ
  pub shutting_down : Bool
  pub sent : Outbox

-- What `Popen` and the wait after it give: no process, one without a pipe, one that is gone when the
-- grace period ends, one that lives.
pub data Spawned : Type 0 where
  spawn_error : Spawned
  no_pipe gone_early alive : ℕ → Spawned

-- What `os.kill` gives: the signal is delivered, there is no such process, or another error.
pub data Kill : Type 0 where
  delivered no_such_process refused : Kill

pub record Os : Type 0 where
  pub spawn : Spawned
  pub exited : ℕ → Bool
  pub owns : ℕ → Bool
  pub terminate : ℕ → Kill
  pub stops : ℕ → Bool
  pub kill : ℕ → Kill
  pub dies : ℕ → Bool

pub record Config : Type 0 where
  pub run_id : ℕ
  pub resume_on_restart : Bool
  -- 0 where the setting is not positive
  pub max_concurrent_searches : ℕ

abbrev pub forget_child : ℕ → State → State
forget_child pid s = record s { children = keep (λ c. not (c == pid)) s.children }

module _ (os : Os) where
  unfoldable pub reap_children : State → State
  reap_children s = record s { children = keep (λ c. not (os.exited c)) s.children }

  -- `_wait_for_exit`: a process that goes away takes its handle along.
  unfoldable pub wait_for_exit : Bool → ℕ → State → State
  wait_for_exit gone pid s = if gone then forget_child pid s else s

  -- After SIGTERM was delivered and the process is still there.
  unfoldable pub escalate : ℕ → State → Bool × State
  escalate pid s = elim (os.kill pid) [
    | refused ↦ (false, s)
    | _ ↦ (true, wait_for_exit (os.dies pid) pid s)
  ]

  unfoldable pub signal : ℕ → State → Bool × State
  signal pid s = elim (os.terminate pid) [
    | refused ↦ (false, s)
    | no_such_process ↦ (false, forget_child pid s)
    | delivered ↦ if os.stops pid then (true, wait_for_exit true pid s) else escalate pid s
  ]

  unfoldable pub terminate_search_process : ℕ → State → Bool × State
  terminate_search_process pid s =
      if pid == no_process
      then (false, s)
      else if not (os.owns pid)
      then (false, forget_child pid s)
      else signal pid s
