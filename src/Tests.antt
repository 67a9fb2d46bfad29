-- ===== src/Tests.antt =====
-- The theorems at concrete data.
mod Data
mod Builder
mod Errors
mod Runs
mod Sessions
mod Waits
mod Polls
mod Failures
mod Downloads
mod Provision
mod Network
mod Starts
mod Quickstart
mod Supervision
mod Exits
mod Binaries
mod Races
mod Whole
