-- ===== src/Journey.antt =====
-- The Journey: packages/domain/src/journey.ts and packages/domain/src/live-journey.ts.
pub mod Status
pub mod Location
pub mod RideCheck
pub mod Live
pub mod Laws
