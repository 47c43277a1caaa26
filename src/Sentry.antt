-- ===== src/Sentry.antt =====
-- The sentry (pkg/ethereum): it discovers peers, shakes hands with them and publishes what it saw.
pub mod Wire
pub mod Peerstore
pub mod Stream
pub mod ReqResp
pub mod Node
pub mod Notifiee
pub mod Discovery
pub mod Subscriptions
pub mod Publisher
pub mod Configuration
pub mod Startup
pub mod System
pub mod Goroutines
pub mod Tests
