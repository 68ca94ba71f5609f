-- ===== src/OpAmp.antt =====
-- The OpAMP service: what an agent sends, and what the server makes of it.
pub mod Proto
pub mod State
pub mod ToDomain
pub mod Conflict
pub mod Attributes
pub mod Report
pub mod Message
pub mod Throttle
pub mod Cleanup
pub mod Claims
pub mod Identity
pub mod Absorbed
pub mod Answer
pub mod Offers
pub mod Packages
