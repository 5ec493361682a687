-- ===== src/CoreJourney.antt =====
-- The core journey: packages/domain/src/core-journey-vertical-slice.ts, which composes Pricing,
-- Booking, Dispatch and the Journey.
pub mod Slice
pub mod Laws
