-- ===== src/Worker/Validated.antt =====
-- InstallationValidator.ts: which files a validation wants, and what it does where they are missing.
use vscode_dotnet_runtime.Prelude.{
  ◌≡◌, Bool, true, false, ◌&&◌, ltb, length, arith, if◌then◌else◌, Result, ok, throw,
  dotnet_installation_validation_error, List,
}
use vscode_dotnet_runtime.Text.{Text}
use vscode_dotnet_runtime.Files.{FileSystem, validate_dotnet_install}

abbrev pub holds_surely : Result Bool → Bool
holds_surely (ok b) = b
holds_surely (throw error) = false

abbrev pub not_empty : Result (List Text) → Bool
not_empty (ok entries) = ltb 0 (length entries)
not_empty (throw error) = false

module _ {D : Type 0} (fs : FileSystem D) where
  -- The folder is there and so is the executable, as a file.
  abbrev pub is_executable : Text → D → Bool
  is_executable path d =
      fs.exists (fs.dirname path) d && fs.exists path d && holds_surely (fs.is_file path d)

  -- The folder is there and has entries.
  abbrev pub is_filled_directory : Text → D → Bool
  is_filled_directory path d = fs.exists path d && not_empty (fs.readdir path d)

  -- A validation passes exactly if the executable is a file in a folder that is there (or, where the
  -- path is taken for a folder, if that is there and has entries). Otherwise it throws the
  -- validation error where it is to fail, and returns false where not; errors of the file system
  -- count as missing files.
  pub validation_meaning :
      (path : Text) (validate_directory fail_on_err : Bool) (d : D)
      → validate_dotnet_install fs path validate_directory fail_on_err d ≡ (
          if (if validate_directory then is_filled_directory path d else is_executable path d)
          then ok true
          else if fail_on_err
          then throw dotnet_installation_validation_error
          else ok false)
  unfolding validate_dotnet_install
  validation_meaning path true fail_on_err d = ground arith
  validation_meaning path false fail_on_err d = ground arith
