-- ===== src/Onboard.antt =====
-- Onboarding: the dependencies of a repository become projects and sources.
pub mod Store
pub mod Scanner
pub mod Extractor
pub mod Worker
pub mod Api
