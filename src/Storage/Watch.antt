-- ===== src/Storage/Watch.antt =====
-- The watch on a payment is a lease: who holds it, and until when, under any sequence of calls.
use korail_ktx_macro_telegra.Common.{
  ℕ, ◌+◌, ◌<◌, ◌≡◌, refl, ◌≢◌, Bool, true, false, some, List, [], ◌∷◌, arith, ◌==◌, if◌then◌else◌,
  All,
}
use korail_ktx_macro_telegra.Common.Dict.{lookup, lookup-insert, lookup-erase}
use korail_ktx_macro_telegra.Storage.{
  Storage, PaymentWatch, watch_owner, claim_payment_watch, release_payment_watch,
}

-- One call on the watches, at the time at which it is made.
pub data Call : Type 0 where
  claim : ℕ → ℕ → ℕ → ℕ → Call
  release : ℕ → ℕ → ℕ → Call

-- The calls of other watchers that come before a time.
abbrev pub OthersBefore : ℕ → ℕ → Call → Type 0
OthersBefore me time (claim chat owner ttl now) = (owner ≢ me) × (now < time)
OthersBefore me time (release chat owner now) = (owner ≢ me) × (now < time)

-- Whether a call is a claim of this chat's watch that is granted.
unfoldable pub is_granted : ℕ → Call → Storage → Bool
is_granted chat (claim c owner ttl now) s =
    if c == chat then (claim_payment_watch c owner ttl now s).0 else false
is_granted chat (release _ _ _) s = false

unfoldable pub call : Call → Storage → Storage
call (claim chat owner ttl now) s = (claim_payment_watch chat owner ttl now s).1
call (release chat owner now) s = release_payment_watch chat owner now s

unfoldable pub calls : List Call → Storage → Storage
unfolding call
calls [] s = s
calls (c ∷ cs) s = calls cs (call c s)

-- Whether any of the calls, made in this order, is a granted claim of the chat's watch.
unfoldable pub any_granted : ℕ → List Call → Storage → Bool
unfolding is_granted call
any_granted chat [] s = false
any_granted chat (c ∷ cs) s =
    let rest = any_granted chat cs (call c s) in if is_granted chat c s then true else rest

module _ (chat me time : ℕ) where
  abbrev held : PaymentWatch
  held = record { owner = me; until = time }

  -- One call of another watcher leaves a live watch as it is, and is refused.
  call_keeps :
      (c : Call) (s : Storage)
      → OthersBefore me time c
      → lookup chat s.payment_watches ≡ some held
      → (lookup chat (call c s).payment_watches ≡ some held) × (is_granted chat c s ≡ false)
  unfolding call is_granted claim_payment_watch release_payment_watch
  call_keeps (claim c owner ttl now) s h e = ground (
    arith,
    lookup-insert c chat (let w : PaymentWatch = record { owner = owner; until = now + ttl } in w)
        s.payment_watches,
  )
  call_keeps (release c owner now) s h e = ground (arith, lookup-erase c chat s.payment_watches)

  calls_keep :
      (cs : List Call) (s : Storage)
      → All (OthersBefore me time) cs
      → lookup chat s.payment_watches ≡ some held
      → (lookup chat (calls cs s).payment_watches ≡ some held) × (any_granted chat cs s ≡ false)
  unfolding calls any_granted
  calls_keep [] s h e = (e, refl)
  calls_keep (c ∷ cs) s h e =
      let k : (lookup chat (call c s).payment_watches ≡ some held) × (is_granted chat c s ≡ false) =
        call_keeps c s h.0 e in
      let rest : (lookup chat (calls cs (call c s)).payment_watches ≡ some held)
          × (any_granted chat cs (call c s) ≡ false) =
        calls_keep cs (call c s) h.1 k.0 in
      (rest.0, rw k.1 rest.1)

claim-lookup :
    (chat owner ttl now : ℕ) (s : Storage)
    → (claim_payment_watch chat owner ttl now s).0 ≡ true
    → lookup chat (claim_payment_watch chat owner ttl now s).1.payment_watches
      ≡ some (held chat owner (now + ttl))
unfolding claim_payment_watch
claim-lookup chat owner ttl now s h =
    ground (arith, lookup-insert chat chat (held chat owner (now + ttl)) s.payment_watches)

-- While a granted watch has not run out, whatever calls other watchers make before it does and in
-- whatever order, none of their claims of it is granted, and its holder still holds it at every
-- moment before it runs out.
pub lease_exclusive :
    (chat me ttl now t : ℕ) (cs : List Call) (s : Storage)
    → (claim_payment_watch chat me ttl now s).0 ≡ true
    → All (OthersBefore me (now + ttl)) cs
    → t < now + ttl
    → let s' = (claim_payment_watch chat me ttl now s).1 in
      (any_granted chat cs s' ≡ false) × (watch_owner chat t (calls cs s') ≡ some me)
unfolding watch_owner
lease_exclusive chat me ttl now t cs s h others before =
    let s' = (claim_payment_watch chat me ttl now s).1 in
    let k : (lookup chat (calls cs s').payment_watches ≡ some (held chat me (now + ttl)))
        × (any_granted chat cs s' ≡ false) =
      calls_keep chat me (now + ttl) cs s' others (claim-lookup chat me ttl now s h) in
    (k.1, rw k.0 (ground arith))
