-- ===== src/Files.antt =====
-- The files of an install: vscode-dotnet-runtime-library/src/Utils/FileUtilities.ts `wipeDirectory`
-- and Acquisition/InstallationValidator.ts. What Node's file system does is the parameter
-- `FileSystem`, on a disk `D`; a removal that fails is caught, so it is no more than a disk.
use vscode_dotnet_runtime.Prelude.{
  Bool, true, false, not, ◌&&◌, Option, none, some, List, [], ◌∷◌, ltb, length, if◌then◌else◌,
  Result, ok, throw, dotnet_installation_validation_error, ◌>>=◌,
}
use vscode_dotnet_runtime.Text.{Text, to_lower_case}
use vscode_dotnet_runtime.Collections.{has}

pub record FileSystem (D : Type 0) : Type 0 where
  pub exists : Text → D → Bool
  pub file_is_open : Text → D → Bool
  pub is_file : Text → D → Result Bool
  pub is_directory : Text → D → Bool
  pub readdir : Text → D → Result (List Text)
  pub rm : Text → D → D
  pub join : Text → Text → Text
  pub dirname : Text → Text
  pub extname : Text → Text
  pub dotnet_executable : Text

module _ {D : Type 0} (fs : FileSystem D) where
  -- `!fileExtensionsToDelete || fileExtensionsToDelete.includes(extension)`
  abbrev may_delete : Option (List Text) → Text → Bool
  may_delete none entry = true
  may_delete (some extensions) entry = has (to_lower_case (fs.extname entry)) extensions

  -- The loop over the entries.
  unfoldable pub wipe_entries : Text → Option (List Text) → List Text → D → D
  wipe_entries directory extensions [] d = d
  wipe_entries directory extensions (entry ∷ entries) d =
      wipe_entries directory extensions entries
        (if may_delete extensions entry then fs.rm (fs.join directory entry) d else d)

  abbrev wiped_with : Text → Option (List Text) → D → Result (List Text) → Result (Unit {0}) × D
  wiped_with directory extensions d (ok entries) =
      (ok tt, wipe_entries directory extensions entries d)
  wiped_with directory extensions d (throw error) = (throw error, d)

  unfoldable pub wipe_directory : Text → Option (List Text) → Bool → D → Result (Unit {0}) × D
  unfolding wipe_entries
  wipe_directory directory extensions verify_dotnet_not_in_use d =
      if not (fs.exists directory d)
      then (ok tt, d)
      else if verify_dotnet_not_in_use && fs.file_is_open (fs.join directory fs.dotnet_executable) d
      then (ok tt, d)
      else wiped_with directory extensions d (fs.readdir directory d)

  abbrev handle_validation_error : Bool → Result Bool
  handle_validation_error true = throw dotnet_installation_validation_error
  handle_validation_error false = ok false

  abbrev validate_condition : Bool → Bool → Result Bool
  validate_condition condition fail_on_err =
      if condition then ok true else handle_validation_error fail_on_err

  -- `try { ... } catch { return handleValidationError(...) }`
  abbrev or_handle : Bool → Result Bool → Result Bool
  or_handle fail_on_err (ok b) = ok b
  or_handle fail_on_err (throw error) = handle_validation_error fail_on_err

  -- `if (!validated) { return false; }`, then what follows.
  abbrev and_if : Result Bool → Result Bool → Result Bool
  and_if validated next = validated >>= λ b. if b then next else ok false

  unfoldable pub validate_dotnet_executable : Text → Bool → D → Result Bool
  validate_dotnet_executable dotnet_path fail_on_err d =
      and_if (validate_condition (fs.exists (fs.dirname dotnet_path) d) fail_on_err) (
        and_if (validate_condition (fs.exists dotnet_path d) fail_on_err) (
          or_handle fail_on_err
            (fs.is_file dotnet_path d >>= λ b. validate_condition b fail_on_err)))

  unfoldable pub validate_dotnet_directory : Text → Bool → D → Result Bool
  validate_dotnet_directory dotnet_path fail_on_err d =
      and_if (validate_condition (fs.exists dotnet_path d) fail_on_err) (
        or_handle fail_on_err (
          fs.readdir dotnet_path d >>= λ entries.
          validate_condition (ltb 0 (length entries)) fail_on_err))

  unfoldable pub validate_dotnet_install : Text → Bool → Bool → D → Result Bool
  unfolding validate_dotnet_executable validate_dotnet_directory
  validate_dotnet_install dotnet_path validate_directory fail_on_err d =
      if validate_directory
      then validate_dotnet_directory dotnet_path fail_on_err d
      else validate_dotnet_executable dotnet_path fail_on_err d
