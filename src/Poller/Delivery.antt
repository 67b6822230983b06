-- ===== src/Poller/Delivery.antt =====
-- Telegram's side of the bargain, and what follows for the processor: no update twice, none skipped.
use korail_ktx_macro_telegra.Common.{
  true, false, ℕ, ◌+◌, ◌≤◌, Option, none, some, List, [], ◌∷◌, ◌++◌, arith, ◌≡◌, Bool, not, sym,
  All-append, ◌∙◌, All, ◌&&◌, ap, refl, if◌then◌else◌,
}
use mathlib.Core.List.{append-nil, append_assoc}
use korail_ktx_macro_telegra.Poller.{
  Update, Response, Poller, get_updates, process_update, process_updates, poll, wait_before_retry,
  run, new_poller, initial_backoff, max_backoff, is_nil, same_offset,
}

-- The offset that a request asks from; without one Telegram starts at what it still has.
abbrev pub asked_from : Option ℕ → ℕ
asked_from none = 0
asked_from (some o) = o

-- The updates of a batch have rising ids, none below `lo`.
abbrev pub Rising : ℕ → List Update → Type 0
Rising lo [] = Unit
Rising lo (none ∷ us) = Rising lo us
Rising lo (some id ∷ us) = (lo ≤ id) × Rising (id + 1) us

-- What Telegram documents of getUpdates: an answer holds updates from the offset on, in order.
abbrev pub Honours : List Response → Poller → Type 0
Honours [] p = Unit
Honours (r ∷ rs) p = Rising (asked_from p.offset) (get_updates r).1 × Honours rs (poll r p)

-- Strictly rising numbers, each from `lo` on and below `hi`.
abbrev pub Between : ℕ → ℕ → List ℕ → Type 0
Between lo hi [] = lo ≤ hi
Between lo hi (x ∷ xs) = (lo ≤ x) × Between (x + 1) hi xs

Between-snoc :
    (lo hi x : ℕ) (xs : List ℕ) → Between lo hi xs → hi ≤ x → Between lo (x + 1) (xs ++ x ∷ [])
Between-snoc lo hi x [] b h = (omega arith, omega arith)
Between-snoc lo hi x (y ∷ ys) b h = (b.0, Between-snoc (y + 1) hi x ys b.1 h)

-- Everything handed over so far has its own id, below the next offset.
abbrev pub IsOnce : Poller → Type 0
IsOnce p = Between 0 (asked_from p.offset) p.handed

process_updates-IsOnce :
    (us : List Update) (p : Poller)
    → Rising (asked_from p.offset) us
    → IsOnce p
    → IsOnce (process_updates us p)
unfolding process_updates process_update
process_updates-IsOnce [] p r h = h
process_updates-IsOnce (none ∷ us) p r h = process_updates-IsOnce us p r h
process_updates-IsOnce (some id ∷ us) p r h =
    process_updates-IsOnce us (process_update (some id) p) r.1
      (Between-snoc 0 (asked_from p.offset) id p.handed h r.0)

-- The ids of a batch that can be used.
unfoldable pub ids : List Update → List ℕ
ids [] = []
ids (none ∷ us) = ids us
ids (some id ∷ us) = id ∷ ids us

module _ (r : Response) (p : Poller) where
  handed-poll : (poll r p).handed ≡ (process_updates (get_updates r).1 p).handed
  unfolding poll get_updates wait_before_retry process_updates
  handed-poll = ground arith

  offset-poll : (poll r p).offset ≡ (process_updates (get_updates r).1 p).offset
  unfolding poll get_updates wait_before_retry process_updates
  offset-poll = ground arith

  poll-IsOnce : Rising (asked_from p.offset) (get_updates r).1 → IsOnce p → IsOnce (poll r p)
  poll-IsOnce h once =
      rw (handed-poll, offset-poll) (process_updates-IsOnce (get_updates r).1 p h once)

run-IsOnce : (rs : List Response) (p : Poller) → Honours rs p → IsOnce p → IsOnce (run rs p)
unfolding run
run-IsOnce [] p h once = once
run-IsOnce (r ∷ rs) p h once = run-IsOnce rs (poll r p) h.1 (poll-IsOnce r p h.0 once)

-- As long as Telegram answers from the offset on and in order, the ids that reach the processor of a
-- new poller rise strictly, over any number of rounds and whatever requests fail: no update is
-- processed twice, and each lies below the offset that the next request asks from.
pub handed_once :
    (rs : List Response)
    → Honours rs new_poller
    → let p = run rs new_poller in Between 0 (asked_from p.offset) p.handed
handed_once rs h = run-IsOnce rs new_poller h (omega arith)

handed-process_updates :
    (us : List Update) (p : Poller) → (process_updates us p).handed ≡ p.handed ++ ids us
unfolding process_updates process_update ids
handed-process_updates [] p = sym (append-nil p.handed)
handed-process_updates (none ∷ us) p = handed-process_updates us p
handed-process_updates (some id ∷ us) p =
    handed-process_updates us (process_update (some id) p)
    ∙ append_assoc p.handed (id ∷ []) (ids us)

-- The usable ids of all answers that were received, in order.
unfoldable pub received : List Response → List ℕ
received [] = []
received (r ∷ rs) = ids (get_updates r).1 ++ received rs

-- Every update with a usable id in a received answer is handed to the processor, in order and
-- whatever came before it, and nothing else is.
pub handed-run : (rs : List Response) (p : Poller) → (run rs p).handed ≡ p.handed ++ received rs
unfolding run received
handed-run [] p = sym (append-nil p.handed)
handed-run (r ∷ rs) p =
    handed-run rs (poll r p)
    ∙ ap (λ l. l ++ received rs) (handed-poll r p ∙ handed-process_updates (get_updates r).1 p)
    ∙ append_assoc p.handed (ids (get_updates r).1) (received rs)

-- The backoff and every wait lie between a second and a minute.
pub record IsPaced (p : Poller) : Type 0 where
  pub at_least : initial_backoff ≤ p.backoff
  pub at_most : p.backoff ≤ max_backoff
  pub waited : All (λ w. (initial_backoff ≤ w) × (w ≤ max_backoff)) p.waits

module _ (u : Update) (p : Poller) where
  pace-process_update :
      ((process_update u p).backoff ≡ p.backoff) × ((process_update u p).waits ≡ p.waits)
  unfolding process_update
  pace-process_update = ground arith

pace-process_updates :
    (us : List Update) (p : Poller)
    → ((process_updates us p).backoff ≡ p.backoff) × ((process_updates us p).waits ≡ p.waits)
unfolding process_updates
pace-process_updates [] p = (refl, refl)
pace-process_updates (u ∷ us) p =
    ground (arith, pace-process_updates us (process_update u p), pace-process_update u p)

wait_before_retry-IsPaced : (p : Poller) → IsPaced p → IsPaced (wait_before_retry p)
unfolding wait_before_retry
wait_before_retry-IsPaced p h = record {
  at_least = omega (arith, h.at_least);
  at_most = omega arith;
  waited =
      All-append (λ w. (initial_backoff ≤ w) × (w ≤ max_backoff)) p.waits (p.backoff ∷ []) h.waited
        ((h.at_least, h.at_most), tt);
}

process_updates-IsPaced :
    (us : List Update) (p : Poller) → IsPaced p → IsPaced (process_updates us p)
process_updates-IsPaced us p h = record {
  at_least = rw (pace-process_updates us p).0 h.at_least;
  at_most = rw (pace-process_updates us p).0 h.at_most;
  waited = rw (pace-process_updates us p).1 h.waited;
}

IsPaced-if : (b : Bool) (p q : Poller) → IsPaced p → IsPaced q → IsPaced (if b then p else q)
IsPaced-if true p q hp hq = hp
IsPaced-if false p q hp hq = hq

poll-IsPaced : (r : Response) (p : Poller) → IsPaced p → IsPaced (poll r p)
unfolding poll
poll-IsPaced r p h =
    let p' = process_updates (get_updates r).1 p in
    let h' : IsPaced p' = process_updates-IsPaced (get_updates r).1 p h in
    IsPaced-if (not (get_updates r).0) _ _ (wait_before_retry-IsPaced p h) (
      IsPaced-if (not (is_nil (get_updates r).1) && same_offset p'.offset p.offset) _ _
        (wait_before_retry-IsPaced p' h')
        (record { at_least = omega arith; at_most = omega arith; waited = h'.waited }))

-- If the waits so far and the next one last at least a second and at most a minute, as for a new
-- poller, then so do all waits between two requests later, whatever answers come.
pub run-IsPaced : (rs : List Response) (p : Poller) → IsPaced p → IsPaced (run rs p)
unfolding run
run-IsPaced [] p h = h
run-IsPaced (r ∷ rs) p h = run-IsPaced rs (poll r p) (poll-IsPaced r p h)
