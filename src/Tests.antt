-- ===== src/Tests.antt =====
-- Runs of the modelled code on the platform in memory, and the theorems at concrete inputs.
mod Jobs
mod Polls
mod Tasks
mod Images
mod Health
mod Metadata
mod Migrations
mod System
mod Denoise
mod Rates
mod Objects
mod Attempts
mod Served
mod Setup
mod Repeated
mod Late
mod Environment
mod Pipeline
