-- ===== src/Listing/Matching.antt =====
-- DotnetResolver.ts `getDotnetInstalls`: the listed installs are of the kind that was asked for.
use vscode_dotnet_runtime.Prelude.{
  ◌≡◌, ◌≢◌, refl, ap, Bool, true, false, not, Bool-cases, inl, inr, Option, none, some, List, [],
  ◌∷◌, map, keep, All, if◌then◌else◌,
}
use vscode_dotnet_runtime.Text.{Text, codes, ◌===◌, ===_iff}
use vscode_dotnet_runtime.Install.{DotnetInstallMode, sdk, runtime, aspnetcore, named, same_mode}
use vscode_dotnet_runtime.Listing.{
  ListInfo, Shell, lines_of, sdk_info, runtime_info, quoted, no_path, same_option, get_sdks,
  get_runtimes, resolve_host_architecture, at_architecture, with_architecture, get_dotnet_installs,
}

abbrev IsOfKind : Bool → ListInfo → Type 0
IsOfKind of_sdks x = same_mode x.mode sdk ≡ of_sdks

sdks-IsOfKind : (ls : List Text) → All (IsOfKind true) (map sdk_info ls)
unfolding sdk_info
sdks-IsOfKind [] = tt
sdks-IsOfKind (l ∷ ls) = (refl, sdks-IsOfKind ls)

runtimes-IsOfKind :
    (xs : List ListInfo) → All (IsOfKind false) (keep (λ x. not (same_mode x.mode sdk)) xs)
runtimes-IsOfKind [] = tt
runtimes-IsOfKind (x ∷ xs) = elim (Bool-cases (same_mode x.mode sdk)) [
  | inl dropped ↦ rw dropped (runtimes-IsOfKind xs)
  | inr kept ↦ rw kept (kept, runtimes-IsOfKind xs)
]

same_option_eq : (a b : Option Text) → same_option a b ≡ true → a ≡ b
same_option_eq none none h = refl
same_option_eq none (some b) h = cc
same_option_eq (some a) none h = cc
same_option_eq (some a) (some b) h = ap some ((===_iff a b).0 h)

guarded-IsOfKind :
    (of_sdks no_path failed : Bool) (xs : List ListInfo)
    → All (IsOfKind of_sdks) xs
    → All (IsOfKind of_sdks) (if no_path then [] else if failed then [] else xs)
guarded-IsOfKind of_sdks true failed xs h = tt
guarded-IsOfKind of_sdks false true xs h = tt
guarded-IsOfKind of_sdks false false xs h = h

module _ (shell : Shell) where
  get_sdks-IsOfKind :
      (path architecture : Text) → All (IsOfKind true) (get_sdks shell path architecture)
  unfolding get_sdks
  get_sdks-IsOfKind path architecture =
      let result =
        shell.run (quoted path) (codes "--list-sdks" ∷ codes "--arch" ∷ architecture ∷ []) in
      guarded-IsOfKind true (no_path path) (not (result.status === codes "0"))
        (map sdk_info (lines_of result.stdout)) (sdks-IsOfKind (lines_of result.stdout))

  get_runtimes-IsOfKind :
      (path architecture : Text)
      → All (IsOfKind false) (get_runtimes shell path (named architecture))
  unfolding get_runtimes
  get_runtimes-IsOfKind path architecture =
      let result =
        shell.run (quoted path) (codes "--list-runtimes" ∷ codes "--arch" ∷ architecture ∷ []) in
      let infos = map runtime_info (lines_of result.stdout) in
      guarded-IsOfKind false (no_path path) (not (result.status === codes "0"))
        (keep (λ x. not (same_mode x.mode sdk)) infos) (runtimes-IsOfKind infos)

  abbrev pub Matches : Bool → Text → ListInfo → Type 0
  Matches of_sdks a x = (x.architecture ≡ some a) × (same_mode x.mode sdk ≡ of_sdks)

  mapped-Matches :
      (of_sdks : Bool) (a : Text) (resolved : Option Text) (xs : List ListInfo)
      → resolved ≡ some a
      → All (IsOfKind of_sdks) xs
      → All (Matches of_sdks a) (map (at_architecture shell resolved) xs)
  mapped-Matches of_sdks a resolved [] e h = tt
  mapped-Matches of_sdks a resolved (x ∷ xs) e (h, hs) =
      ((e, h), mapped-Matches of_sdks a resolved xs e hs)

  with_architecture-Matches :
      (of_sdks : Bool) (path a : Text) (xs : List ListInfo)
      → a ≢ []
      → All (IsOfKind of_sdks) xs
      → All (Matches of_sdks a) (with_architecture shell path (named a) xs)
  with_architecture-Matches of_sdks path a [] n h = tt
  with_architecture-Matches of_sdks path [] (x ∷ xs) n h = absurd (n refl)
  with_architecture-Matches of_sdks path (c ∷ a) (x ∷ xs) n h =
      let resolved = resolve_host_architecture shell path (x ∷ xs) (named (c ∷ a)) in
      elim (Bool-cases (same_option resolved (some (c ∷ a)))) [
        | inr other ↦ rw other tt
        | inl same ↦ rw same (
            mapped-Matches of_sdks (c ∷ a) resolved (x ∷ xs)
              (same_option_eq resolved (some (c ∷ a)) same) h)
      ]

  -- Where a non-empty architecture is asked for, every listed install has that architecture, and is
  -- an SDK exactly if SDKs are asked for.
  pub installs_match_request :
      (path a : Text) (mode : DotnetInstallMode)
      → a ≢ []
      → All (Matches (same_mode mode sdk) a) (get_dotnet_installs shell path mode (named a))
  unfolding get_dotnet_installs
  installs_match_request path a sdk n =
      with_architecture-Matches true path a _ n (get_sdks-IsOfKind path a)
  installs_match_request path a runtime n =
      with_architecture-Matches false path a _ n (get_runtimes-IsOfKind path a)
  installs_match_request path a aspnetcore n =
      with_architecture-Matches false path a _ n (get_runtimes-IsOfKind path a)
