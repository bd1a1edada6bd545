-- ===== src/Tests.antt =====
-- Runs of the model at concrete inputs, and the theorems applied to them.
mod Access
mod Kept
mod Streams
mod Levels
mod Identities
mod Logs
mod Routes
mod Counters
mod Translated
