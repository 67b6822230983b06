-- ===== src/Storage/Tests.antt =====
-- Instances of the theorems on the payment watch.
use korail_ktx_macro_telegra.Common.{◌≡◌, refl, false, true, some, List, [], ◌∷◌, arith}
use korail_ktx_macro_telegra.Common.Dict.{lookup, insert}
use korail_ktx_macro_telegra.Storage.{Storage, watch_owner, claim_payment_watch}
use korail_ktx_macro_telegra.Storage.Watch.{
  Call, claim, release, lease_exclusive, any_granted, calls,
}

abbrev empty_storage : Storage
empty_storage = record {
  payment_statuses = [];
  multi_statuses = [];
  payment_watches = [];
  current_seats = [];
  payment_ready = λ c i. false;
}

-- What two other watchers try while watcher 7 holds the watch of chat 5.
abbrev rivals : List Call
rivals = claim 5 8 30 10 ∷ release 5 8 12 ∷ claim 5 9 30 20 ∷ []

expires : (claim_payment_watch 5 8 30 40 (claim_payment_watch 5 7 30 0 empty_storage).1).0 ≡ true
unfolding claim_payment_watch lookup insert
expires = refl

lease_exclusive_example :
    let s' = (claim_payment_watch 5 7 30 0 empty_storage).1 in
    (any_granted 5 rivals s' ≡ false) × (watch_owner 5 29 (calls rivals s') ≡ some 7)
unfolding claim_payment_watch lookup
lease_exclusive_example =
    lease_exclusive 5 7 30 0 29 rivals empty_storage refl (omega arith) (omega arith)
