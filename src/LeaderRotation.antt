-- ===== src/LeaderRotation.antt =====
-- The package leaderrotation: who leads a view.
pub mod RoundRobin
pub mod Carousel
pub mod Reputation
