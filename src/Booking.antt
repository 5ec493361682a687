-- ===== src/Booking.antt =====
-- Bookings: the statuses of packages/domain/src/booking-status.ts with their transitions and chains,
-- and the transactions of services/api/src/modules/booking/booking-service.ts on the tables.
pub mod Status
pub mod Chains
pub mod Store
pub mod Transition
pub mod Create
pub mod Quotes
pub mod Confirm
