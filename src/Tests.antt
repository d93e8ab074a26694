-- ===== src/Tests.antt =====
-- Runs of the model on a small book, and the theorems at these inputs.
mod Scenario
mod Matching
mod Commands
mod Feeds
mod Core
mod Fix
mod Client
