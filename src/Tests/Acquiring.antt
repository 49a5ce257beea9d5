-- ===== src/Tests/Acquiring.antt =====
-- Runs of the theorems on DotnetCoreAcquisitionWorker.ts and InstallationValidator.ts, over a disk
-- that is a list of the paths of files.
use vscode_dotnet_runtime.Prelude.{
  ◌≡◌, refl, ◌++◌, Bool, All, arith, true, false, not, Option, none, some, List, [], ◌∷◌, keep,
  Result, ok, throw, dotnet_installation_validation_error, system_error, if◌then◌else◌,
}
use vscode_dotnet_runtime.Text.{Text, codes, ◌===◌, ===_iff}
use vscode_dotnet_runtime.Collections.{MapOfSets, has}
use vscode_dotnet_runtime.Install.{
  Architecture, AcquireContext, DotnetInstall, runtime, undefined, named,
}
use vscode_dotnet_runtime.Tracker.State.{current, get_existing_installs}
use vscode_dotnet_runtime.Tracker.Installs.{differs_from, add_version_to_extension_state}
use vscode_dotnet_runtime.Tracker.Records.{change_some, owners_in}
use vscode_dotnet_runtime.Tracker.Owners.{owners_of}
use vscode_dotnet_runtime.Files.{FileSystem, validate_dotnet_install}
use vscode_dotnet_runtime.Worker.{Host, Machine, dotnet_path_of}
use vscode_dotnet_runtime.Worker.Local.{
  Uninstalled, succeeded, with_defaults, uninstall_local, acquire_local_core,
}
use vscode_dotnet_runtime.Worker.Global.{GlobalInstaller, acquire_global_core}
use vscode_dotnet_runtime.Worker.Existing.{get_similar_existing_install}
use vscode_dotnet_runtime.Worker.Tracked.{IsHeld}
use vscode_dotnet_runtime.Worker.Validated.{is_executable, validation_meaning}
use vscode_dotnet_runtime.Worker.Acquired.{acquired-IsHeld}
use vscode_dotnet_runtime.Worker.Uninstalled.{
  uninstall_keeps_shared, forced_uninstall, failed_uninstall-IsHeld,
}
use vscode_dotnet_runtime.Worker.Failed.{failed_acquisition_untracked}
use vscode_dotnet_runtime.Worker.Held.{acquired_global-IsHeld}
use vscode_dotnet_runtime.Tests.Caching.{map_cache, pretty, empty_cache}
use vscode_dotnet_runtime.Tests.Tracking.{here, install, extension}

abbrev disk_of : FileSystem (List Text)
disk_of = record {
  exists = λ p d. has p d;
  file_is_open = λ p d. false;
  is_file = λ p d. ok true;
  is_directory = λ p d. true;
  readdir = λ p d. if has (codes "locked") d then throw system_error else ok d;
  rm = λ p d. keep (λ q. not (q === p)) d;
  join = λ a b. a ++ codes "/" ++ b;
  dirname = λ p. codes "/d";
  extname = λ p. [];
  dotnet_executable = codes "dotnet";
}

abbrev host : Host (List Text) MapOfSets (List Text)
host = record {
  fs = disk_of;
  node_cache = map_cache;
  pretty = pretty;
  install_dir = λ id. codes "/d";
  default_architecture = here;
  this_session = codes "s1";
  is_session_dead = λ id. false;
  environment = record { path = none; dotnet_root = none };
  is_linux = true;
  using_no_install_invoker = false;
  dotnet_installs = λ p d mode arch. [];
  list_sdks = λ d. (codes "0", []);
}

abbrev machine : Machine (List Text) MapOfSets
machine = record {
  state = record { installed = []; sessions = [] };
  disk = [];
  cache = empty_cache;
}

abbrev ctx : AcquireContext
ctx = record {
  version = codes "8.0.1";
  requesting_extension_id = some extension;
  install_type = none;
  architecture = undefined;
  mode = runtime;
}

abbrev installed_dotnet : DotnetInstall → List Text → Result (Unit {0}) × List Text
installed_dotnet i d = (ok tt, codes "/d" ∷ codes "/d/dotnet" ∷ [])

abbrev acquired : Result Text × Machine (List Text) MapOfSets
acquired = acquire_local_core host installed_dotnet ctx install machine

acquired-IsHeld_example :
    (dotnet_path_of host install ≡ codes "/d/dotnet")
    × IsHeld host (with_defaults host ctx) install (dotnet_path_of host install) acquired.1
unfolding acquire_local_core validate_dotnet_install has ◌===◌ add_version_to_extension_state
acquired-IsHeld_example =
    acquired-IsHeld host installed_dotnet ctx install (codes "/d/dotnet") machine acquired.1 refl

abbrev refusing : DotnetInstall → List Text → Result (Unit {0}) × List Text
refusing i d = (throw system_error, d)

abbrev not_acquired : Result Text × Machine (List Text) MapOfSets
not_acquired = acquire_local_core host refusing ctx install machine

failed_acquisition_untracked_example : owners_of here install.install_id not_acquired.1.state ≡ none
unfolding acquire_local_core owners_in
failed_acquisition_untracked_example =
    failed_acquisition_untracked host refusing ctx install system_error machine not_acquired.1 refl
      refl

-- An install that two extensions own, with its files.
abbrev shared : Machine (List Text) MapOfSets
shared = record machine {
  state = record {
    installed = current install (some (some extension ∷ some (codes "b") ∷ [])) ∷ [];
    sessions = [];
  };
  disk = codes "/d" ∷ codes "/d/dotnet" ∷ [];
}

uninstall_keeps_shared_example :
    (m' : Machine (List Text) MapOfSets) × (uninstall_local host ctx install false false shared
      ≡ (ok succeeded, m'))
    × (m'.disk ≡ shared.disk)
    × (m'.cache ≡ shared.cache)
    × ((j : Text)
        → owners_of here j m'.state ≡ (
            if install.install_id === j
            then change_some (keep (differs_from (some extension))) (owners_of here j shared.state)
            else owners_of here j shared.state))
unfolding get_existing_installs owners_in has ◌===◌ differs_from
uninstall_keeps_shared_example = uninstall_keeps_shared host ctx install shared (refl, tt) refl refl

-- A host whose folder has the executable in it, as long as it is on the disk.
abbrev with_folder : Host (List Text) MapOfSets (List Text)
with_folder = record host {
  fs = record disk_of {
    readdir = λ p d. ok (if has (codes "/d/dotnet") d then codes "dotnet" ∷ [] else []);
  };
}

removed-absent : (p : Text) (d : List Text) → has p (keep (λ q. not (q === p)) d) ≡ false
unfolding has
removed-absent p [] = refl
removed-absent p (x ∷ xs) = ground (arith, removed-absent p xs, ===_iff x p, ===_iff p x)

absent-kept :
    (f : Text → Bool) (q : Text) (d : List Text) → has q d ≡ false → has q (keep f d) ≡ false
unfolding has
absent-kept f q [] h = refl
absent-kept f q (x ∷ xs) h = ground (arith, absent-kept f q xs)

forced_uninstall_example :
    (m' : Machine (List Text) MapOfSets) × (uninstall_local with_folder ctx install true false
        shared
      ≡ (ok succeeded, m'))
    × All (λ e. has (codes "/d" ++ codes "/" ++ e) m'.disk ≡ false) (codes "dotnet" ∷ [])
    × ((j : Text)
        → owners_of here j m'.state
          ≡ (if install.install_id === j then none else owners_of here j shared.state))
unfolding has ◌===◌
forced_uninstall_example =
    forced_uninstall with_folder ctx install false shared (codes "dotnet" ∷ []) refl refl refl refl
      removed-absent (λ p q d away. absent-kept (λ x. not (x === p)) q d away)

-- The folder cannot be read.
abbrev locked : Machine (List Text) MapOfSets
locked = record shared { disk = codes "locked" ∷ codes "/d" ∷ codes "/d/dotnet" ∷ [] }

abbrev not_uninstalled : Result Uninstalled × Machine (List Text) MapOfSets
not_uninstalled = uninstall_local host ctx install true false locked

failed_uninstall-IsHeld_example :
    IsHeld host ctx install (dotnet_path_of host install) not_uninstalled.1
unfolding uninstall_local validate_dotnet_install has ◌===◌ add_version_to_extension_state
failed_uninstall-IsHeld_example =
    failed_uninstall-IsHeld host ctx install true false locked not_uninstalled.1 system_error refl

validation_meaning_example : validate_dotnet_install disk_of (codes "/d/dotnet") false true [] ≡ (
    if is_executable disk_of (codes "/d/dotnet") []
    then ok true
    else if true
    then throw dotnet_installation_validation_error
    else ok false)
validation_meaning_example = validation_meaning disk_of (codes "/d/dotnet") false true []

abbrev installer : GlobalInstaller (List Text)
installer = record {
  fully_specified_version = ok (codes "8.0.100");
  installer_url = ok (codes "https://aka.ms/x");
  installer_hash = ok [];
  expected_global_sdk_path = λ version arch exists d. ok (codes "/d/dotnet");
  install_sdk = λ i d. (ok (codes "0"), codes "/d" ∷ codes "/d/dotnet" ∷ []);
  uninstall_sdk = λ i d. (ok (codes "0"), []);
}

abbrev acquired_globally : Result Text × Machine (List Text) MapOfSets
acquired_globally = acquire_global_core host installer false false false ctx install machine

acquired_global-IsHeld_example : IsHeld host ctx install (codes "/d/dotnet") acquired_globally.1
unfolding acquire_global_core validate_dotnet_install has ◌===◌ add_version_to_extension_state
acquired_global-IsHeld_example =
    acquired_global-IsHeld host installer false false ctx install (codes "/d/dotnet") machine
      acquired_globally.1 refl

abbrev sdk_path : Text → Architecture → List Text → Result Text
sdk_path version arch d = ok (codes "/d/dotnet")

-- The request of the architecture that the install has.
abbrev named_ctx : AcquireContext
named_ctx = record ctx { architecture = named here }

abbrev similar : Result (Option Text) × Machine (List Text) MapOfSets
similar = get_similar_existing_install host sdk_path named_ctx shared
