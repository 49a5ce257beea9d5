-- ===== src/Worker/Wiped.antt =====
-- FileUtilities.ts `wipeDirectory`, the loop over the entries: they are gone after it, where removing
-- works.
use vscode_dotnet_runtime.Prelude.{◌≡◌, false, none, List, [], ◌∷◌, All}
use vscode_dotnet_runtime.Text.{Text}
use vscode_dotnet_runtime.Files.{FileSystem, wipe_entries}

module _ {D : Type 0} (fs : FileSystem D) (directory : Text)
    (removes : (p : Text) (d : D) → fs.exists p (fs.rm p d) ≡ false)
    (restores_none : (p q : Text) (d : D)
      → fs.exists q d ≡ false
      → fs.exists q (fs.rm p d) ≡ false) where
  stays_away :
      (q : Text) (entries : List Text) (d : D)
      → fs.exists q d ≡ false
      → fs.exists q (wipe_entries fs directory none entries d) ≡ false
  unfolding wipe_entries
  stays_away q [] d away = away
  stays_away q (e ∷ es) d away =
      stays_away q es (fs.rm (fs.join directory e) d) (restores_none (fs.join directory e) q d away)

  pub wiped_entries :
      (entries : List Text) (d : D)
      → All
          (λ e. fs.exists (fs.join directory e) (wipe_entries fs directory none entries d) ≡ false)
          entries
  unfolding wipe_entries
  wiped_entries [] d = tt
  wiped_entries (e ∷ es) d = (
    stays_away (fs.join directory e) es (fs.rm (fs.join directory e) d)
        (removes (fs.join directory e) d),
    wiped_entries es (fs.rm (fs.join directory e) d),
  )
