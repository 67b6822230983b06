-- ===== src/Reservation.antt =====
-- src/korail_bot/services/reservation_service.py: the search processes and their records. What the
-- operating system does on a call (whether a process can be started and lives, and how it takes a
-- signal) is a parameter, `Os`. A call of the storage does not fail here, and the expiries of its
-- keys are not modelled. The user's texts are numbers, and 0 is the empty one.
pub mod Process
pub mod Start
pub mod Ending
pub mod Fields
pub mod Outcome
pub mod Keyed
pub mod Reach
pub mod Limit
pub mod Death
pub mod Restart
pub mod Stop
mod Tests
