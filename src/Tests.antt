-- ===== src/Tests.antt =====
-- Concrete servers, boards and clients, and the theorems applied to them.
pub mod Fixture
pub mod Bids
pub mod Beacon
pub mod Duties
pub mod Database
pub mod Signing
pub mod Node
pub mod Site
pub mod Relay
pub mod Reported
pub mod TestApi
pub mod Staked
pub mod Registry
pub mod Updates
pub mod Bulletin
pub mod Rpbs
pub mod Bls
pub mod Point
