-- ===== src/Lib.antt =====
-- Models and theorems for the .NET Install Tool of VS Code: the library that acquires .NET, keeps
-- track of the installs it manages, and decides which install answers a request.
--
-- The parts and where they are modelled; paths are under vscode-dotnet-runtime-library/src:
--   Text, Text/...      strings as lists of UTF-16 code units, and JavaScript's `Number(text)`.
--   Collections         `Set` and `Map` in insertion order, Utils/SerializationHelpers.ts.
--   Version             Acquisition/VersionUtilities.ts: the parts and the kinds of versions.
--   Install             Acquisition/DotnetInstall.ts, Utils/InstallIdUtilities.ts: ids of installs.
--   Tracker             Acquisition/InstallTrackerSingleton.ts: the records of installs with their
--                       owners (`installed`) and of sessions with the executables that they use.
--   Executable          Utils/ExecutableArchitectureDetector.ts.
--   Condition           Acquisition/DotnetConditionValidator.ts: whether an install meets a request.
--   Installer           Acquisition/GlobalInstallerResolver.ts and the name mappings of
--                       Utils/FileUtilities.ts: the installer for a requested SDK version.
--   Update              Acquisition/LocalInstallUpdateService.ts: the automatic update.
--   Cache               LocalMemoryCacheSingleton.ts: cached results of commands.
--   Files               Utils/FileUtilities.ts: the removal of a directory.
--   Worker              Acquisition/DotnetCoreAcquisitionWorker.ts and InstallationValidator.ts:
--                       acquiring and uninstalling, by the tracker and the installers.
--   Mutex               Utils/NodeIPCMutex.ts: the lock that the processes share.
--   Listing             Acquisition/DotnetResolver.ts: the installs that `dotnet` lists.
--   Linux               Acquisition/IDistroDotnetSDKProvider.ts with its subclasses,
--                       LinuxVersionResolver.ts and LinuxGlobalInstaller.ts: SDKs by the package
--                       manager; the state is the provider's fields and the machine.
--   Releases            Acquisition/VersionResolver.ts: the version that a request stands for.
--   ExistingPath        Acquisition/ExistingPathResolver.ts: the `dotnet` of the user's settings, by
--                       the shell of Listing, the validator and the tracker.
--   WinMac              Acquisition/WinMacGlobalInstaller.ts: the installers of Windows and macOS.
--   Tests               runs of the theorems on concrete inputs.
-- Functions and fields keep their names, in snake case. A method of a class with state is a function
-- from the state to the state. The tracker, the worker and the update service share the tracker's
-- state; the worker takes its answers from the validator and the installers; the tests of versions,
-- the tracker, the installer resolver and the package managers share the version functions.
--
-- Numbers are exact: `Number(text)` is a sign and a decimal fraction, which agrees with a double
-- below 2 ^ 53. Loops are structural recursion over the lists that they visit. Only the retries of
-- the mutex take fuel: one more than the greatest number of retries is enough, and with no delay
-- that number is infinite. Errors are the values of `Result`, by the event class that carries them;
-- events that are only posted are left out. The tracker's methods run under one lock, so each is
-- one step; the processes that compete for the mutex take single steps in any order.
--
-- Parameters: Node's `os.arch()` and `os.platform()` (with `defaultArchitecture()`), its `path`,
-- `parseFloat` and `Math.floor`, the environment of the process, the file system where the worker,
-- the validator and the package managers look at it, what running a command prints and does to the
-- machine, whether another session is dead (a probe of its mutex), what an attempt to listen on the
-- socket gives, the request for a release index, `semver.coerce`, the package `node-cache` and the
-- printed form of a command for the cache, distro-support.json, the script or installer that the
-- worker runs, the files and programs of the installers of Windows and macOS, and, for the update,
-- what acquiring and uninstalling do.
--
-- Not modelled: the paths that the installers of Windows and macOS install to, the texts of exit
-- codes and the registry, the download and run of scripts, the search for paths of `dotnet`, the
-- execution of commands and web requests, telemetry, and the extensions' registration of commands.
-- Of the mutex, the release by hand and the diagnostics are left out; of the package managers, the
-- list of commands that may run under sudo. An absent value of the index is `none`; values of
-- another type than the source reads are left out.
pub mod Prelude
pub mod Text
pub mod Version
pub mod Install
pub mod Collections
pub mod Tracker
pub mod Executable
pub mod Condition
pub mod Installer
pub mod Update
pub mod Cache
pub mod Mutex
pub mod Files
pub mod Worker
pub mod Listing
pub mod Linux
pub mod Releases
pub mod ExistingPath
pub mod WinMac
pub mod Tests
