-- ===== src/Tests.antt =====
-- Runs of the theorems on concrete inputs.
mod Tracking
mod Sessions
mod Resolving
mod Meeting
mod Reading
mod Updating
mod Caching
mod Locking
mod Acquiring
mod Listing
mod Packaging
mod Preferring
mod Installing
