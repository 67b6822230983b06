-- ===== src/Validators.antt =====
-- src/korail_bot/utils/validators.py: each validate_* answers why an input cannot be used, or none
-- when it can. The texts of the reasons are left out: a reason is its kind and what fills it.
pub mod Phone
pub mod Date
pub mod Choices
pub mod Station
pub mod PhoneForm
pub mod Calendar
pub mod Bounds
mod Tests
use korail_ktx_macro_telegra.Common.{ℕ}

pub data Reason : Type 0 where
  missing : Reason
  not_digits : Reason
  wrong_form : Reason
  wrong_length : Reason
  bad_year : ℕ → Reason
  bad_month : ℕ → Reason
  bad_day : ℕ → Reason
  no_such_date : Reason
  in_past : Reason
  too_far : Reason
  bad_hours : ℕ → Reason
  bad_minutes : ℕ → Reason
  too_short : Reason
  too_long : Reason
  bad_choice : Reason
  too_few : Reason
  too_many : Reason
  has_suffix : Reason
  bad_character : Reason
  not_served : Reason
  no_such_station : Reason
