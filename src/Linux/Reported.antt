-- ===== src/Linux/Reported.antt =====
-- LinuxVersionResolver.ts `ValidateAndInstallSDK`: the status that is
-- reported.
use vscode_dotnet_runtime.Prelude.{
  ◌≡◌, refl, sym, subst, Bool, true, false, ◌||◌, Bool-cases, Option, none, some, inl, inr, ◌⊎◌,
  Error, ok, and_then-eq-ok, if◌then◌else◌,
}
use vscode_dotnet_runtime.Text.{Text, codes, ◌===◌}
use vscode_dotnet_runtime.Version.{is_set}
use vscode_dotnet_runtime.Install.{sdk}
use vscode_dotnet_runtime.Linux.{
  Command, Platform, Provider, M, ◌>>=◌, pure, lift, fail, less_than, inject_pmc_feed,
  execute_multiple_commands,
}
use vscode_dotnet_runtime.Linux.Operations.{
  DotnetDistroSupportStatus, get_dotnet_version_support_status, is_dotnet_version_supported,
  install_dotnet, upgrade_dotnet, run_last, last, drop_last, commands_for,
  dotnet_package_exists_on_system, get_installed_global_dotnet_version_if_exists,
  get_installed_global_dotnet_path_if_exists,
}
use vscode_dotnet_runtime.Linux.Resolver.{
  band_number, sdk_patch_number, is_same_major_minor, is_path, ok_update_exit_code,
  ok_already_exists_exit_code, verify_no_conflict_install_type_exists,
  verify_no_custom_install_exists, after_upgrade, upgrade_or_keep, compare_bands,
  by_existing_version, update_or_reject_if_version_request_does_not_require_install,
  by_update_state, validated_install, validate_and_install_sdk,
}

-- A status that is "0" or "1".
abbrev pub IsReported : Text → Type 0
IsReported status = (status ≡ codes "0") ⊎ (status ≡ codes "1")

-- What an update gives: also the two codes of its own.
abbrev IsUpdateState : Text → Type 0
IsUpdateState state =
    IsReported state ⊎ ((state ≡ ok_update_exit_code) ⊎ (state ≡ ok_already_exists_exit_code))

module _ {W : Type 0} (p : Platform W) where
  -- Every result of a run has the property.
  abbrev Gives : {A : Type 0} → (A → Type 0) → M W A → Type 0
  Gives {A} P m = (s : Provider W) (a : A) (t : Provider W) → m s ≡ (ok a, t) → P a

  pure_value : {A : Type 0} {a b : A} {s t : Provider W} → pure a s ≡ (ok b, t) → a ≡ b
  pure_value e = cc

  pure-Gives : {A : Type 0} (P : A → Type 0) (a : A) → P a → Gives P (pure {W = W} a)
  pure-Gives P a h s b t e = subst P (pure_value e) h

  fail-Gives : {A : Type 0} (P : A → Type 0) (e : Error) → Gives P (fail {W = W} e)
  fail-Gives P e s b t h = cc

  then-Gives :
      {A B : Type 0} (Q : A → Type 0) (P : B → Type 0) (m : M W A) (f : A → M W B)
      → Gives Q m
      → ((a : A) → Q a → Gives P (f a))
      → Gives P (m >>= f)
  then-Gives Q P m f g h s b t e =
      let (a, (u, first, after)) = and_then-eq-ok (m s) f e in h a (g s a u first) u b t after

  bind-Gives :
      {A B : Type 0} (P : B → Type 0) (m : M W A) (f : A → M W B)
      → ((a : A) → Gives P (f a))
      → Gives P (m >>= f)
  bind-Gives P m f h s b t e = let (a, (u, _, after)) = and_then-eq-ok (m s) f e in h a u b t after

  if-Gives :
      {A : Type 0} (P : A → Type 0) (c : Bool) (m n : M W A)
      → Gives P m
      → Gives P n
      → Gives P (if c then m else n)
  if-Gives P true m n h k = h
  if-Gives P false m n h k = k

  after_upgrade-IsUpdateState : (status : Option Text) → IsUpdateState (after_upgrade p status)
  after_upgrade-IsUpdateState none = inl (inr refl)
  after_upgrade-IsUpdateState (some status) = elim (Bool-cases (status === codes "0")) [
    | inl h ↦ rw h (inr (inl refl))
    | inr h ↦ rw h (inl (inr refl))
  ]

  upgrade_or_keep-IsUpdateState :
      (b : Bool) (existing : Text) → Gives IsUpdateState (upgrade_or_keep p b existing)
  upgrade_or_keep-IsUpdateState false existing = pure-Gives IsUpdateState _ (inr (inr refl))
  upgrade_or_keep-IsUpdateState true existing =
      bind-Gives IsUpdateState (upgrade_dotnet p existing sdk) _
        (λ status. pure-Gives IsUpdateState _ (after_upgrade-IsUpdateState status))

  compare_bands-IsUpdateState :
      (version existing : Text) (b : Bool)
      → Gives IsUpdateState (compare_bands p version existing b)
  compare_bands-IsUpdateState version existing b =
      bind-Gives IsUpdateState (lift (band_number existing)) _ λ x.
        bind-Gives IsUpdateState (lift (band_number version)) _ λ y.
          if-Gives IsUpdateState (less_than y x) _ _ (fail-Gives IsUpdateState _) (
            bind-Gives IsUpdateState (dotnet_package_exists_on_system p version sdk) _
              (λ exists. upgrade_or_keep-IsUpdateState (exists || b) existing))

  by_existing_version-IsUpdateState :
      (version : Text) (existing : Option Text)
      → Gives IsUpdateState (by_existing_version p version existing)
  by_existing_version-IsUpdateState version none = pure-Gives IsUpdateState _ (inl (inl refl))
  by_existing_version-IsUpdateState version (some existing) =
      bind-Gives IsUpdateState (lift (is_same_major_minor p existing version)) _ λ same.
        if-Gives IsUpdateState same _ _
          (bind-Gives IsUpdateState (lift (sdk_patch_number existing)) _ λ x.
            bind-Gives IsUpdateState (lift (sdk_patch_number version)) _
              λ y. compare_bands-IsUpdateState version existing _)
          (pure-Gives IsUpdateState _ (inl (inl refl)))

  update_or_reject-IsUpdateState :
      (version : Text) (existing_install : Option Text)
      → Gives IsUpdateState
          (update_or_reject_if_version_request_does_not_require_install p version existing_install)
  unfolding update_or_reject_if_version_request_does_not_require_install
  update_or_reject-IsUpdateState version existing_install =
      if-Gives IsUpdateState (is_path p existing_install) _ _
        (bind-Gives IsUpdateState (get_installed_global_dotnet_version_if_exists p) _
          (by_existing_version-IsUpdateState version))
        (pure-Gives IsUpdateState _ (inl (inl refl)))

  one_of_two : (b : Bool) → IsReported (if b then codes "0" else codes "1")
  one_of_two true = inl refl
  one_of_two false = inr refl

  by_update_state-IsReported :
      (version state : Text)
      → IsUpdateState state
      → Gives IsReported (by_update_state p version state)
  unfolding ◌===◌
  by_update_state-IsReported version state (inl (inl e)) =
      subst (λ st. Gives IsReported (by_update_state p version st)) (sym e)
        (bind-Gives IsReported (install_dotnet p version sdk) _
          λ status. pure-Gives IsReported _ (one_of_two (is_set status)))
  by_update_state-IsReported version state (inl (inr e)) =
      subst (λ st. Gives IsReported (by_update_state p version st)) (sym e)
        (pure-Gives IsReported _ (inr refl))
  by_update_state-IsReported version state (inr (inl e)) =
      subst (λ st. Gives IsReported (by_update_state p version st)) (sym e)
        (pure-Gives IsReported _ (inl refl))
  by_update_state-IsReported version state (inr (inr e)) =
      subst (λ st. Gives IsReported (by_update_state p version st)) (sym e)
        (pure-Gives IsReported _ (inl refl))

  validated_install-IsReported : (version : Text) → Gives IsReported (validated_install p version)
  validated_install-IsReported version =
      bind-Gives IsReported (get_dotnet_version_support_status p version sdk) _ λ status.
        bind-Gives IsReported (verify_no_conflict_install_type_exists p status) _ λ _.
          bind-Gives IsReported (get_installed_global_dotnet_path_if_exists p) _ λ existing.
            bind-Gives IsReported (verify_no_custom_install_exists p status existing) _ λ _.
              λ s a t e.
                let (state, (u, got, after)) =
                  and_then-eq-ok
                    (update_or_reject_if_version_request_does_not_require_install p version existing
                      s)
                    _ e in
                by_update_state-IsReported version state
                  (update_or_reject-IsUpdateState version existing s state u got) u a t after

  -- The status that installing an SDK returns is "0" or "1".
  pub reported_statuses :
      (version : Text) (s : Provider W) (status : Text) (t : Provider W)
      → validate_and_install_sdk p version s ≡ (ok status, t)
      → (status ≡ codes "0") ⊎ (status ≡ codes "1")
  unfolding validate_and_install_sdk
  reported_statuses version s status t e =
      bind-Gives IsReported (is_dotnet_version_supported p version sdk) _
        (λ supported.
          if-Gives IsReported supported _ _ (validated_install-IsReported version)
            (fail-Gives IsReported _))
        s status t e

  module _ (set : (command : Command) (w : W) → is_set (p.execute command w).0.status ≡ true) where
    run_last-Gives :
        (command : Option Command) → Gives (λ r. is_set r.status ≡ true) (run_last p command)
    run_last-Gives none s r t e = cc
    run_last-Gives (some command) s r t e =
        subst (λ x. is_set x.status ≡ true)
          (pure_value {s = record s { machine = (p.execute command s.machine).1 }} e)
          (set command s.machine)

    install_dotnet-Gives :
        (version : Text) → Gives (λ st. is_set st ≡ true) (install_dotnet p version sdk)
    unfolding install_dotnet
    install_dotnet-Gives version = bind-Gives P (inject_pmc_feed p) _ λ _.
        bind-Gives P (commands_for p p.distro_data.install_command version sdk) _ λ commands.
          bind-Gives P (execute_multiple_commands p (drop_last commands)) _ λ _.
            then-Gives (λ r. is_set r.status ≡ true) P (run_last p (last commands)) _
              (run_last-Gives (last commands)) (λ r h. pure-Gives P r.status h)
      where
        P : Text → Type 0
        P st = is_set st ≡ true

    fresh-Gives :
        (version : Text) (status : DotnetDistroSupportStatus) (existing : Option Text)
        → existing ≡ none
        → Gives
            (λ st. st ≡ codes "0")
            (verify_no_custom_install_exists p status existing >>= λ _.
              update_or_reject_if_version_request_does_not_require_install p version existing
              >>= by_update_state p version)
    unfolding update_or_reject_if_version_request_does_not_require_install ◌===◌
        verify_no_custom_install_exists
    fresh-Gives version status existing h =
        subst
          (λ o.
            Gives (λ st. st ≡ codes "0")
              (verify_no_custom_install_exists p status o >>= λ _.
                update_or_reject_if_version_request_does_not_require_install p version o
                >>= by_update_state p version))
          (sym h)
          (then-Gives (λ st. is_set st ≡ true) (λ st. st ≡ codes "0") (install_dotnet p version sdk)
            _ (install_dotnet-Gives version)
            (λ st h. pure-Gives (λ r. r ≡ codes "0") _ (rw h refl)))

  -- Where every command has a status that is not empty and no `dotnet` is found on the machine, the
  -- status that is returned is "0", also where the command that installs the package failed.
  pub failed_install_is_hidden :
      ((command : Command) (w : W) → is_set (p.execute command w).0.status ≡ true)
      → ((u : Provider W) (existing : Option Text) (v : Provider W)
          → get_installed_global_dotnet_path_if_exists p u ≡ (ok existing, v)
          → existing ≡ none)
      → (version : Text) (s : Provider W) (reported : Text) (t : Provider W)
      → validate_and_install_sdk p version s ≡ (ok reported, t)
      → reported ≡ codes "0"
  unfolding validate_and_install_sdk
  failed_install_is_hidden set fresh version =
      bind-Gives P (is_dotnet_version_supported p version sdk) _ λ supported.
        if-Gives P supported _ _
          (bind-Gives P (get_dotnet_version_support_status p version sdk) _ λ status.
            bind-Gives P (verify_no_conflict_install_type_exists p status) _ λ _.
              then-Gives (λ o. o ≡ none) P (get_installed_global_dotnet_path_if_exists p) _ fresh
                (fresh-Gives set version status))
          (fail-Gives P _)
    where
      P : Text → Type 0
      P st = st ≡ codes "0"
