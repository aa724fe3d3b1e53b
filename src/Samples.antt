-- ===== src/Samples.antt =====
-- Concrete inputs of the components, with runs on them.
pub mod Gates
pub mod Notified
pub mod Ingested
pub mod Sessions
pub mod Versions
pub mod Listed
pub mod Agents
pub mod Logins
pub mod Tokens
pub mod Subscribed
pub mod Onboarded
pub mod Polled
pub mod Streams
pub mod Messages
