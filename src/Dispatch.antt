-- ===== src/Dispatch.antt =====
-- Dispatch: packages/domain/src/dispatch.ts.
pub mod Availability
pub mod Eligibility
pub mod Market
pub mod Evidence
pub mod Registry
pub mod Lookup
pub mod Shifts
pub mod Steps
pub mod Offers
pub mod Assigning
pub mod Accept
pub mod Claims
pub mod Intent
pub mod Candidates
pub mod Start
pub mod Counting
pub mod Exclusive
pub mod Rules
pub mod Races
