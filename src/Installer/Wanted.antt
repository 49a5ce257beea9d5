-- ===== src/Installer/Wanted.antt =====
-- GlobalInstallerResolver.ts: which installers are wanted of the index, by the texts that name them.
use vscode_dotnet_runtime.Prelude.{
  ◌≡◌, refl, ◌≢◌, ◌⊎◌, ◌++◌, inl, inr, Bool, true, false, Bool-cases, >>=-eq-ok, Option, none, some,
  [], ◌∷◌, ok_injective, Result, ok,
}
use vscode_dotnet_runtime.Text.{Text, codes, ◌===◌, ===_iff, starts_with}
use vscode_dotnet_runtime.Text.Search.{starts_with-rest}
use vscode_dotnet_runtime.Version.{get_major_minor}
use vscode_dotnet_runtime.Installer.{
  InstallerFile, node_arch_to_dotnet_arch, node_os_to_dotnet_os, starts_with_any, expected_domains,
  set_or_null, installer_matches_desired_file_extension,
}

-- The names of a system, as Node and as .NET spell it.
abbrev pub IsSystem : Text → Text → Type 0
IsSystem platform system =
    ((platform ≡ codes "win32") × (system ≡ codes "win"))
    ⊎ (((platform ≡ codes "darwin") × (system ≡ codes "osx"))
        ⊎ ((platform ≡ codes "linux") × (system ≡ codes "linux")))

-- How the name of an installer ends on the system.
abbrev pub IsEnding : Text → Text → Type 0
IsEnding system ending =
    ((system ≡ codes "win") × (ending ≡ codes ".exe"))
    ⊎ (((system ≡ codes "osx") × (ending ≡ codes ".pkg"))
        ⊎ ((system ≡ codes "linux") × (ending ≡ codes ".gz")))

-- The names of an architecture, as Node and as .NET spell it.
abbrev pub IsMachine : Text → Text → Type 0
IsMachine arch machine =
    (((arch ≡ codes "ia32") ⊎ (arch ≡ codes "x86")) × (machine ≡ codes "x86"))
    ⊎ ((machine ≡ arch)
        × ((arch ≡ codes "x64")
            ⊎ ((arch ≡ codes "arm") ⊎ ((arch ≡ codes "arm64") ⊎ (arch ≡ codes "s390x")))))

abbrev pub BeginsWith : Text → Text → Type 0
BeginsWith url start = (rest : Text) × (url ≡ start ++ rest)

-- The four beginnings of a url. The third has no slash at its end.
abbrev pub HasExpectedStart : Text → Type 0
HasExpectedStart url =
    BeginsWith url (codes "https://download.visualstudio.microsoft.com/")
    ⊎ (BeginsWith url (codes "https://builds.dotnet.microsoft.com/")
        ⊎ (BeginsWith url (codes "https://ci.dot.net")
            ⊎ BeginsWith url (codes "https://dotnetcli.blob.core.windows.net/")))

-- The hash that is given: none for a missing or an empty one.
abbrev pub IsHash : Option Text → Option Text → Type 0
IsHash listed given =
    ((given ≡ none) × ((listed ≡ none) ⊎ (listed ≡ some [])))
    ⊎ ((hash : Text) × ((hash ≢ []) × (listed ≡ some hash) × (given ≡ some hash)))

-- The installer `file` answers the search: it is for the machine's system and architecture, its name
-- ends as an installer's of the system, its url is the one found and begins as expected, and its hash
-- is the one found.
abbrev pub Answers : (Text → Text) → Text → Text → Text × Option Text → InstallerFile → Type 0
Answers extname platform arch found file =
    (system : Text) × (machine : Text) × (name : Text) × IsSystem platform system
    × IsMachine arch machine
    × (file.rid ≡ some (system ++ b'-' ∷ machine))
    × (file.name ≡ some name)
    × IsEnding system (extname name)
    × (file.url ≡ some (found.0))
    × HasExpectedStart (found.0)
    × IsHash file.hash (found.1)

pub known-IsSystem :
    (platform : Text)
    → (node_os_to_dotnet_os platform === codes "auto") ≡ false
    → IsSystem platform (node_os_to_dotnet_os platform)
unfolding node_os_to_dotnet_os
known-IsSystem platform h = elim (Bool-cases (platform === codes "win32")) [
  | inl e ↦ inl ((===_iff platform _).0 e, rw e refl)
  | inr e ↦ elim (Bool-cases (platform === codes "darwin")) [
    | inl f ↦ inr (inl ((===_iff platform _).0 f, rw (e, f) refl))
    | inr f ↦ elim (Bool-cases (platform === codes "linux")) [
      | inl g ↦ inr (inr ((===_iff platform _).0 g, rw (e, f, g) ((===_iff platform _).0 g)))
      | inr g ↦ let wrong = rw (e, f, g) at h in cc
    ]
  ]
]

pub known-IsMachine :
    (arch : Text)
    → (node_arch_to_dotnet_arch arch === codes "auto") ≡ false
    → IsMachine arch (node_arch_to_dotnet_arch arch)
unfolding node_arch_to_dotnet_arch
known-IsMachine arch h = elim (Bool-cases (arch === codes "ia32")) [
  | inl e ↦ inl (inl ((===_iff arch _).0 e), rw e refl)
  | inr e ↦ elim (Bool-cases (arch === codes "x86")) [
    | inl f ↦ inl (inr ((===_iff arch _).0 f), rw (e, f) refl)
    | inr f ↦ elim (Bool-cases (arch === codes "x64")) [
      | inl g ↦ inr (rw (e, f, g) refl, inl ((===_iff arch _).0 g))
      | inr g ↦ elim (Bool-cases (arch === codes "arm")) [
        | inl i ↦ inr (rw (e, f, g, i) refl, inr (inl ((===_iff arch _).0 i)))
        | inr i ↦ elim (Bool-cases (arch === codes "arm64")) [
          | inl j ↦ inr (rw (e, f, g, i, j) refl, inr (inr (inl ((===_iff arch _).0 j))))
          | inr j ↦ elim (Bool-cases (arch === codes "s390x")) [
            | inl k ↦ inr (rw (e, f, g, i, j, k) refl, inr (inr (inr ((===_iff arch _).0 k))))
            | inr k ↦ let wrong = rw (e, f, g, i, j, k) at h in cc
          ]
        ]
      ]
    ]
  ]
]

pub named-IsEnding :
    (extname : Text → Text) (version : Text) (file : InstallerFile) (system : Text)
    → installer_matches_desired_file_extension extname version file system ≡ ok true
    → (name : Text) × ((file.name ≡ some name) × IsEnding system (extname name))
unfolding installer_matches_desired_file_extension
named-IsEnding extname version file system h = of_name file.name refl
  where
    wanted_of :
        (name wanted : Text)
        → ◌≡◌ {A = Result Bool} (ok (extname name === wanted)) (ok true)
        → extname name ≡ wanted
    wanted_of name wanted e = (===_iff (extname name) wanted).0 (ok_injective e)

    of_name :
        (o : Option Text)
        → file.name ≡ o
        → (name : Text) × ((file.name ≡ some name) × IsEnding system (extname name))
    of_name none e = let (mm, em, g) = >>=-eq-ok (get_major_minor version) _ (rw e at h) in cc
    of_name (some name) e = (
      name,
      (
        e,
        elim (Bool-cases (system === codes "win")) [
          | inl f ↦ inl ((===_iff system _).0 f, wanted_of name (codes ".exe") (rw (e, f) at h))
          | inr f ↦ elim (Bool-cases (system === codes "osx")) [
            | inl g ↦
                inr
                  (inl ((===_iff system _).0 g, wanted_of name (codes ".pkg") (rw (e, f, g) at h)))
            | inr g ↦ elim (Bool-cases (system === codes "linux")) [
              | inl i ↦ inr (
                  inr ((===_iff system _).0 i, wanted_of name (codes ".gz") (rw (e, f, g, i) at h)))
              | inr i ↦ let wrong = rw (e, f, g, i) at h in cc
            ]
          ]
        ],
      ),
    )

pub expected_start :
    (url : Text) → starts_with_any url expected_domains ≡ true → HasExpectedStart url
unfolding starts_with_any
expected_start url h =
    elim (Bool-cases (starts_with url (codes "https://download.visualstudio.microsoft.com/"))) [
      | inl e ↦ inl (starts_with-rest url (codes "https://download.visualstudio.microsoft.com/") e)
      | inr e ↦ elim (Bool-cases (starts_with url (codes "https://builds.dotnet.microsoft.com/"))) [
        | inl f ↦ inr (inl (starts_with-rest url (codes "https://builds.dotnet.microsoft.com/") f))
        | inr f ↦ elim (Bool-cases (starts_with url (codes "https://ci.dot.net"))) [
          | inl g ↦ inr (inr (inl (starts_with-rest url (codes "https://ci.dot.net") g)))
          | inr g ↦
              elim (Bool-cases
                (starts_with url (codes "https://dotnetcli.blob.core.windows.net/"))) [
                  | inl i ↦ inr (
                      inr (
                        inr (
                          starts_with-rest url (codes "https://dotnetcli.blob.core.windows.net/")
                            i)))
                  | inr i ↦ let wrong = rw (e, f, g, i) at h in cc
                ]
        ]
      ]
    ]

pub set_or_null-IsHash : (listed : Option Text) → IsHash listed (set_or_null listed)
set_or_null-IsHash none = inl (refl, inl refl)
set_or_null-IsHash (some []) = inl (refl, inr refl)
set_or_null-IsHash (some (c ∷ cs)) = inr (c ∷ cs, (λ e. cc, refl, refl))
