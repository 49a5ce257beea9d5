-- ===== src/Tracker.antt =====
-- vscode-dotnet-runtime-library/src/Acquisition/InstallTrackerSingleton.ts: which installs the
-- extension manages, which extensions own them, and which sessions use them. Each public method
-- runs under the lock `installedLk`, so it is one function on the persisted state.
pub mod State
pub mod Sessions
pub mod Installs
pub mod OwnerSets
pub mod Records
pub mod Live
pub mod Owners
pub mod Ownership
pub mod Dependents
pub mod Uninstall
