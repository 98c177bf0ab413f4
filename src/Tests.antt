-- ===== src/Tests.antt =====
-- The theorems at concrete inputs.
mod Setup
mod Sending
mod Durations
mod Keys
mod Chains
mod Handlers
mod Clients
mod Agreement
mod Evidence
mod Aggregates
mod Messages
