-- ===== src/Consumer.antt =====
-- The consumer (consumer/): it reads the sentry's events, keeps those of validators and serves them.
pub mod Subnets
pub mod Messages
pub mod Api
pub mod Tracker
pub mod Dune
pub mod Launch
pub mod Tests
