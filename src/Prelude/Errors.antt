-- ===== src/Prelude/Errors.antt =====
-- `Result`: what code that may throw returns. An error is named by the event class that carries
-- it; its text is not modelled.
use mathlib.Core.Path.{◌≡◌, refl}
use mathlib.Core.Logic.{◌⊎◌, inl, inr}
use mathlib.Core.Bool.{Bool, true, false}

pub data Error : Type 0 where
  dotnet_version_resolution : Error
  dotnet_feature_band_does_not_exist : Error
  dotnet_invalid_runtime_patch_version : Error
  dotnet_unexpected_installer_os : Error
  dotnet_unexpected_installer_architecture : Error
  dotnet_invalid_releases_json : Error
  dotnet_no_installer_file_exists : Error
  dotnet_offline : Error
  dotnet_installation_validation_error : Error
  unsupported_global_runtime_uninstall : Error
  dotnet_wsl_security_error : Error
  dotnet_non_zero_installer_exit_code_error : Error
  dotnet_acquisition_error : Error
  dotnet_acquisition_distro_unknown_error : Error
  dotnet_conflicting_linux_install_types_error : Error
  dotnet_custom_linux_install_exists_error : Error
  unsupported_distro : Error
  dotnet_conflicting_global_windows_install_error : Error
  dotnet_install_cancelled_by_user_error : Error
  dotnet_no_installer_response_error : Error
  system_error : Error
  type_error : Error

pub data Result {ℓ} (A : Type ℓ) : Type ℓ where
  ok : A → Result A
  throw : Error → Result A

module _ {ℓ κ} {A : Type ℓ} {B : Type κ} where
  -- What follows a statement that may throw.
  infixl 5 ◌>>=◌
  abbrev pub ◌>>=◌ : Result A → (A → Result B) → Result B
  throw error >>= next = throw error
  ok value >>= next = next value

  pub >>=-eq-ok :
      (first : Result A) (next : A → Result B) {b : B}
      → (first >>= next) ≡ ok b
      → (value : A) × (first ≡ ok value) × (next value ≡ ok b)
  >>=-eq-ok (throw error) next returned = cc
  >>=-eq-ok (ok value) next returned = (value, refl, returned)

infixl 5 ◌>>◌
abbrev pub ◌>>◌ {ℓ} : {B : Type ℓ} → Result (Unit {0}) → Result B → Result B
throw error >> next = throw error
ok _ >> next = next

pub Result-cases {ℓ} :
    {A : Type ℓ} (r : Result A) → ((a : A) × (r ≡ ok a)) ⊎ ((e : Error) × (r ≡ throw e))
Result-cases (ok a) = inl (a, refl)
Result-cases (throw e) = inr (e, refl)

pub ok_injective {ℓ} : {A : Type ℓ} {a b : A} → ok a ≡ ok b → a ≡ b
ok_injective h = cc

-- What follows a statement that may throw and that changes the state `S`; a throw keeps the changes.
abbrev pub and_then {ℓ κ} :
    {S : Type κ} {A B : Type ℓ} → Result A × S → (A → S → Result B × S) → Result B × S
and_then (ok value, s) next = next value s
and_then (throw error, s) next = (throw error, s)

-- A test that may throw: its two answers.
pub tested {ℓ} :
    {A : Type ℓ} (m : Result Bool) (f : Bool → Result A) {a : A}
    → (m >>= f) ≡ ok a
    → ((m ≡ ok true) × (f true ≡ ok a)) ⊎ ((m ≡ ok false) × (f false ≡ ok a))
tested (ok true) f h = inl (refl, h)
tested (ok false) f h = inr (refl, h)
tested (throw e) f h = cc

pub and_then-eq-ok {ℓ κ} :
    {S : Type κ} {A B : Type ℓ} (first : Result A × S) (next : A → S → Result B × S) {b : B} {t : S}
    → and_then first next ≡ (ok b, t)
    → (a : A) × ((s : S) × (first ≡ (ok a, s)) × (next a s ≡ (ok b, t)))
and_then-eq-ok (ok a, s) next e = (a, (s, refl, e))
and_then-eq-ok (throw error, s) next e = cc
