-- ===== src/Tests.antt =====
-- Runs of the models, and each theorem at an input that meets its hypotheses.
mod Fixtures
mod Shipping
mod Tokens
mod Upkeep
mod Service
mod Tracking
mod Builds
mod Command
mod Lifecycle
