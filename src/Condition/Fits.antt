-- ===== src/Condition/Fits.antt =====
-- DotnetConditionValidator.ts `stringArchitectureMeetsRequirement`: which architecture fits.
use vscode_dotnet_runtime.Prelude.{
  ◌≡◌, ◌≢◌, ◌⊎◌, ap, Bool-cases, none, some, refl, sym, ◌∙◌, inl, inr, true, false, [], ◌∷◌,
}
use vscode_dotnet_runtime.Text.{Text, codes, ◌===◌, ===_iff}
use vscode_dotnet_runtime.Install.{Architecture, null, undefined, named}
use vscode_dotnet_runtime.Condition.{
  DotnetListInfo, string_architecture_meets_requirement, dotnet_info_arch_to_node_arch,
}

-- The architectures that .NET and Node name alike.
abbrev pub IsKnown : Text → Type 0
IsKnown arch =
    (arch ≡ codes "x64") ⊎ ((arch ≡ codes "x86") ⊎ ((arch ≡ codes "arm") ⊎ (arch ≡ codes "arm64")))

-- What `dotnet` reports as its architecture, against the requested one: one of them is left open,
-- or they are the same known one, or an unknown one is reported where `auto` was requested.
abbrev pub FitsArchitecture : Text → Architecture → Type 0
FitsArchitecture output required =
    ((required ≡ null) ⊎ ((required ≡ undefined) ⊎ (required ≡ named [])))
    ⊎ ((output ≡ [])
        ⊎ ((IsKnown output × (required ≡ named output))
            ⊎ (¬ (IsKnown output) × (required ≡ named (codes "auto")))))

-- The architecture of an install, `default` where the list does not name it.
abbrev pub IsReported : DotnetListInfo → Text → Text → Type 0
IsReported install default output =
    (install.architecture ≡ some output) ⊎ ((install.architecture ≡ none) × (output ≡ default))

IsKnown-or_auto :
    (arch : Text)
    → (IsKnown arch × (dotnet_info_arch_to_node_arch arch ≡ arch))
      ⊎ (¬ (IsKnown arch) × (dotnet_info_arch_to_node_arch arch ≡ codes "auto"))
unfolding dotnet_info_arch_to_node_arch
IsKnown-or_auto arch = elim (Bool-cases (arch === codes "x64")) [
  | inl e ↦ inl (inl ((===_iff arch _).0 e), rw e refl)
  | inr e ↦ elim (Bool-cases (arch === codes "x86")) [
    | inl f ↦ inl (inr (inl ((===_iff arch _).0 f)), rw (e, f) refl)
    | inr f ↦ elim (Bool-cases (arch === codes "arm")) [
      | inl g ↦ inl (inr (inr (inl ((===_iff arch _).0 g))), rw (e, f, g) refl)
      | inr g ↦ elim (Bool-cases (arch === codes "arm64")) [
        | inl h ↦ inl (inr (inr (inr ((===_iff arch _).0 h))), rw (e, f, g, h) refl)
        | inr h ↦ inr (unknown_arch e f g h, rw (e, f, g, h) refl)
      ]
    ]
  ]
]
  where
    differs : (t : Text) → (arch === t) ≡ false → arch ≢ t
    differs t e same = let is = (===_iff arch t).1 same in cc

    unknown_arch :
        (arch === codes "x64") ≡ false
        → (arch === codes "x86") ≡ false
        → (arch === codes "arm") ≡ false
        → (arch === codes "arm64") ≡ false
        → ¬ (IsKnown arch)
    unknown_arch e f g h (inl k) = differs (codes "x64") e k
    unknown_arch e f g h (inr (inl k)) = differs (codes "x86") f k
    unknown_arch e f g h (inr (inr (inl k))) = differs (codes "arm") g k
    unknown_arch e f g h (inr (inr (inr k))) = differs (codes "arm64") h k

pub architecture-Fits :
    (output : Text) (required : Architecture)
    → string_architecture_meets_requirement output required ≡ true
    → FitsArchitecture output required
unfolding string_architecture_meets_requirement
architecture-Fits output null h = inl (inl refl)
architecture-Fits output undefined h = inl (inr (inl refl))
architecture-Fits output (named []) h = inl (inr (inr refl))
architecture-Fits [] (named (c ∷ cs)) h = inr (inl refl)
architecture-Fits (x ∷ xs) (named (c ∷ cs)) h =
    let same = (===_iff (dotnet_info_arch_to_node_arch (x ∷ xs)) (c ∷ cs)).0 h in
    elim (IsKnown-or_auto (x ∷ xs)) [
      | inl (known, is) ↦ inr (inr (inl (known, ap named (sym same ∙ is))))
      | inr (unknown, is) ↦ inr (inr (inr (unknown, ap named (sym same ∙ is))))
    ]
