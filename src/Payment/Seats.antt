-- ===== src/Payment/Seats.antt =====
-- What the methods of MultiReservationStatus choose and change: the most urgent seat, and the
-- seat that is marked as paid for.
use mathlib.Core.Path.{subst}
use mathlib.Core.List.{Mem}
use korail_ktx_macro_telegra.Common.{
  length, some_inj, All-keep, All-keep_of_All, All-of-keep, All-Mem, ℕ, ◌≤◌, ◌≡◌, refl, true, some,
  List, [], ◌∷◌, arith, ltb, keep, All, Bool-cases, is_some, inl, inr,
}
use korail_ktx_macro_telegra.Payment.{
  SingleReservationInfo, MultiReservationStatus, is_live, sooner, earliest, first_due,
  get_most_urgent_reservation,
}

sooner-le :
    (a b : SingleReservationInfo)
    → ((sooner a b).expires_at ≤ a.expires_at) × ((sooner a b).expires_at ≤ b.expires_at)
unfolding sooner
sooner-le a b = ground arith

sooner_keeps :
    (P : SingleReservationInfo → Type 0) (a b : SingleReservationInfo) → P a → P b → P (sooner a b)
unfolding sooner
sooner_keeps P a b ha hb = elim (Bool-cases (ltb b.expires_at a.expires_at)) [
  | inl less ↦ rw less hb
  | inr more ↦ rw more ha
]

earliest-le-best :
    (best : SingleReservationInfo) (rs : List SingleReservationInfo)
    → (earliest best rs).expires_at ≤ best.expires_at
unfolding earliest
earliest-le-best best [] = omega arith
earliest-le-best best (r ∷ rs) =
    omega (arith, earliest-le-best (sooner best r) rs, sooner-le best r)

earliest-le :
    (best : SingleReservationInfo) (rs : List SingleReservationInfo)
    → All (λ r. (earliest best rs).expires_at ≤ r.expires_at) rs
unfolding earliest
earliest-le best [] = tt
earliest-le best (r ∷ rs) = (
  omega (arith, earliest-le-best (sooner best r) rs, sooner-le best r),
  earliest-le (sooner best r) rs,
)

-- What holds of the best so far and of every entry holds of the result.
earliest_keeps :
    (P : SingleReservationInfo → Type 0) (best : SingleReservationInfo)
    (rs : List SingleReservationInfo)
    → P best
    → All P rs
    → P (earliest best rs)
unfolding earliest
earliest_keeps P best [] h t = h
earliest_keeps P best (r ∷ rs) h t =
    earliest_keeps P (sooner best r) rs (sooner_keeps P best r h t.0) t.1

first_due-le :
    (rs : List SingleReservationInfo) {u : SingleReservationInfo}
    → first_due rs ≡ some u
    → All (λ r. u.expires_at ≤ r.expires_at) rs
unfolding first_due
first_due-le [] e = cc
first_due-le (r ∷ rs) e =
    subst (λ u. All (λ r. u.expires_at ≤ r.expires_at) (r ∷ rs)) (some_inj e)
      (earliest-le-best r rs, earliest-le r rs)

first_due_keeps :
    (P : SingleReservationInfo → Type 0) (rs : List SingleReservationInfo)
    {u : SingleReservationInfo}
    → All P rs
    → first_due rs ≡ some u
    → P u
unfolding first_due
first_due_keeps P [] h e = cc
first_due_keeps P (r ∷ rs) h e = subst P (some_inj e) (earliest_keeps P r rs h.0 h.1)

first_due-is_some : (rs : List SingleReservationInfo) → is_some (first_due rs) ≡ ltb 0 (length rs)
unfolding first_due
first_due-is_some [] = refl
first_due-is_some (r ∷ rs) = ground arith

-- The most urgent seat is one of the seats, it is pending and not past its deadline, and no other
-- such seat has an earlier deadline.
pub most_urgent_earliest :
    (m : MultiReservationStatus) (now : ℕ) {u : SingleReservationInfo}
    → get_most_urgent_reservation m now ≡ some u
    → Mem u m.reservations
      × (is_live now u ≡ true)
      × All (λ r. is_live now r ≡ true → u.expires_at ≤ r.expires_at) m.reservations
unfolding get_most_urgent_reservation
most_urgent_earliest m now {u = u} e =
    let rs = m.reservations in
    (
      first_due_keeps (λ r. Mem r rs) (keep (is_live now) rs)
          (All-keep_of_All (λ r. Mem r rs) (λ r. Mem r rs) (is_live now) rs (λ r h. h) (All-Mem rs))
          e,
      first_due_keeps (λ r. is_live now r ≡ true) (keep (is_live now) rs)
          (All-keep (λ r. is_live now r ≡ true) (is_live now) rs (λ r h. h)) e,
      All-of-keep (λ r. u.expires_at ≤ r.expires_at) (is_live now) rs
          (first_due-le (keep (is_live now) rs) e),
    )
