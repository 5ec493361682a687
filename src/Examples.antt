-- ===== src/Examples.antt =====
-- Concrete inputs of the modelled decisions, at which the theorems apply.
pub mod Bookings
pub mod Calls
pub mod Trips
pub mod Money
pub mod Dispatching
pub mod Histories
pub mod People
pub mod Tables
pub mod Vehicles
