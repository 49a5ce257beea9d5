-- ===== src/Listing/Printed.antt =====
-- DotnetResolver.ts: what `dotnet --list-runtimes` prints is read back.
use mathlib.Core.List.{append-nil, append_assoc}
use vscode_dotnet_runtime.Prelude.{
  ℕ, ◌≡◌, refl, ap, sym, ap₂, ◌∙◌, Bool, true, false, not, none, some, List, [], ◌∷◌, ◌++◌, map,
  keep, All,
}
use vscode_dotnet_runtime.Text.{Text, codes, ◌===◌, split}
use vscode_dotnet_runtime.Text.Split.{Lacks, join, split-append, join-split}
use vscode_dotnet_runtime.Text.Number.{is_space, trim_start, trim_end, close_space}
use vscode_dotnet_runtime.Install.{sdk, Architecture, same_mode}
use vscode_dotnet_runtime.Listing.{
  ListInfo, Shell, trim, is_filled, lines_of, without_last, inner, mode_of_name, runtime_info,
  quoted, no_path, requested_or, get_runtimes,
}

-- A runtime as the host prints it: `name version [directory]`, and a line end, which has a carriage
-- return in front on Windows.
pub record Printed : Type 0 where
  pub name : Text
  pub version : Text
  pub directory : Text

abbrev pub row : Printed → Text
row r = r.name ++ b' ' ∷ (r.version ++ b' ' ∷ (b'[' ∷ (r.directory ++ b']' ∷ [])))

abbrev pub line_end : Bool → Text
line_end true = 13 ∷ []
line_end false = []

abbrev pub print_runtimes : Bool → List Printed → Text
print_runtimes carriage_return [] = []
print_runtimes carriage_return (r ∷ rs) =
    (row r ++ line_end carriage_return) ++ 10 ∷ print_runtimes carriage_return rs

-- The name begins with no space, and the parts hold no separator of theirs.
abbrev pub IsPrintable : Printed → Type 0
IsPrintable r =
    ((c : ℕ) × (t : Text) × (r.name ≡ c ∷ t) × (is_space c ≡ false))
    × Lacks b' ' r.name
    × Lacks b' ' r.version
    × Lacks 10 r.name
    × Lacks 10 r.version
    × Lacks 10 r.directory

abbrev pub listed : Printed → ListInfo
listed r = record {
  mode = mode_of_name r.name;
  version = some r.version;
  directory = r.directory;
  architecture = none;
}

Lacks-append : (c : ℕ) (s t : Text) → Lacks c s → Lacks c t → Lacks c (s ++ t)
Lacks-append c [] t h k = k
Lacks-append c (x ∷ xs) t h k = (h.0, Lacks-append c xs t h.1 k)

close_space-append : (y : ℕ) (s : Text) (x : ℕ) → close_space y (s ++ x ∷ []) ≡ y ∷ (s ++ x ∷ [])
close_space-append y [] x = refl
close_space-append y (z ∷ s) x = refl

trim_end-append :
    (s : Text) (x : ℕ) (w : Text)
    → is_space x ≡ false
    → trim_end w ≡ []
    → trim_end (s ++ x ∷ w) ≡ s ++ x ∷ []
unfolding trim_end
trim_end-append [] x w h e = rw e (rw h refl)
trim_end-append (y ∷ s) x w h e = rw (trim_end-append s x w h e) (close_space-append y s x)

without_last-append : (s : Text) (x : ℕ) → without_last (s ++ x ∷ []) ≡ s
without_last-append [] x = refl
without_last-append (y ∷ []) x = refl
without_last-append (y ∷ z ∷ s) x = ap (◌∷◌ y) (without_last-append (z ∷ s) x)

row-Lacks : (r : Printed) → IsPrintable r → Lacks 10 (row r)
row-Lacks r (_, _, _, n, v, d) =
    Lacks-append 10 r.name _ n (
      refl,
      Lacks-append 10 r.version _ v (refl, (refl, Lacks-append 10 r.directory _ d (refl, tt))),
    )

line_end-Lacks : (carriage_return : Bool) → Lacks 10 (line_end carriage_return)
line_end-Lacks true = (refl, tt)
line_end-Lacks false = tt

trim_end-line_end : (carriage_return : Bool) → trim_end (line_end carriage_return) ≡ []
unfolding trim_end
trim_end-line_end true = refl
trim_end-line_end false = refl

abbrev body : Printed → Text
body r = r.name ++ b' ' ∷ (r.version ++ b' ' ∷ (b'[' ∷ r.directory))

row-body : (r : Printed) (w : Text) → row r ++ w ≡ body r ++ b']' ∷ w
row-body r w = simp append_assoc

trim_start-body : (r : Printed) (w : Text) → IsPrintable r → trim_start (body r ++ w) ≡ body r ++ w
unfolding trim_start
trim_start-body r w ((c, t, e, no_space), _, _, _, _, _) = rw (e, no_space) refl

trim-row :
    (carriage_return : Bool) (r : Printed)
    → IsPrintable r
    → trim (row r ++ line_end carriage_return) ≡ row r
unfolding trim
trim-row carriage_return r h =
    ap (λ t. trim_end (trim_start t)) (row-body r (line_end carriage_return))
    ∙ ap trim_end (trim_start-body r _ h)
    ∙ trim_end-append (body r) b']' (line_end carriage_return) refl
        (trim_end-line_end carriage_return)
    ∙ sym (row-body r [])
    ∙ append-nil (row r)

row-is_filled : (r : Printed) → IsPrintable r → is_filled (row r) ≡ true
row-is_filled r ((c, t, e, no_space), _, _, _, _, _) = rw e refl

keep_first :
    (x : Text) (xs : List Text)
    → is_filled x ≡ true
    → keep is_filled (x ∷ xs) ≡ x ∷ keep is_filled xs
keep_first x xs h = rw h refl

lines_of_print :
    (carriage_return : Bool) (rs : List Printed)
    → All IsPrintable rs
    → lines_of (print_runtimes carriage_return rs) ≡ map row rs
unfolding lines_of trim trim_start trim_end split
lines_of_print carriage_return [] h = refl
lines_of_print carriage_return (r ∷ rs) (h, hs) =
    let end = line_end carriage_return in
    let rest = print_runtimes carriage_return rs in
    let first = trim-row carriage_return r h in
    ap (λ parts. keep is_filled (map trim parts))
      (split-append 10 (row r ++ end) rest
        (Lacks-append 10 (row r) end (row-Lacks r h) (line_end-Lacks carriage_return)))
    ∙ keep_first (trim (row r ++ end)) (map trim (split 10 rest))
        (ap is_filled first ∙ row-is_filled r h)
    ∙ ap₂ (λ t ts. t ∷ ts) first (lines_of_print carriage_return rs hs)

runtime_info-row : (r : Printed) → IsPrintable r → runtime_info (row r) ≡ listed r
unfolding runtime_info
runtime_info-row r (_, n, v, _, _, _) =
    let tail = b'[' ∷ (r.directory ++ b']' ∷ []) in
    let parts : split b' ' (row r) ≡ r.name ∷ r.version ∷ split b' ' tail =
      split-append b' ' r.name _ n ∙ ap (◌∷◌ r.name) (split-append b' ' r.version tail v) in
    let path : inner (join b' ' (split b' ' tail)) ≡ r.directory =
      ap inner (join-split b' ' tail) ∙ without_last-append r.directory b']' in
    rw (parts, path) refl

infos-rows :
    (rs : List Printed) → All IsPrintable rs → map runtime_info (map row rs) ≡ map listed rs
infos-rows [] h = refl
infos-rows (r ∷ rs) (h, hs) = ap₂ (λ x xs. x ∷ xs) (runtime_info-row r h) (infos-rows rs hs)

-- Where the host succeeds and prints a line `name version [directory]` for each runtime, with the
-- line ends of Windows or of Unix, the runtimes that are read back are those with their modes,
-- versions and directories, in order and without those of Windows Desktop or an unknown name. A
-- name begins with no white space, names and versions hold no space, and nothing a line feed;
-- directories may hold spaces.
pub printed_runtimes_read :
    (shell : Shell) (path : Text) (architecture : Architecture) (carriage_return : Bool)
    (rs : List Printed)
    → All IsPrintable rs
    → no_path path ≡ false
    → shell.run (quoted path) (
        codes "--list-runtimes"
        ∷ codes "--arch"
        ∷ requested_or architecture shell.default_architecture
        ∷ [])
      ≡ record { status = codes "0"; stdout = print_runtimes carriage_return rs }
    → get_runtimes shell path architecture ≡ keep (λ x. not (same_mode x.mode sdk)) (map listed rs)
unfolding get_runtimes ◌===◌
printed_runtimes_read shell path architecture carriage_return rs h some_path printed =
    simp (some_path, printed)
      (ap (λ xs. keep (λ x. not (same_mode x.mode sdk)) (map runtime_info xs))
          (lines_of_print carriage_return rs h)
        ∙ ap (keep (λ x. not (same_mode x.mode sdk))) (infos-rows rs h))
