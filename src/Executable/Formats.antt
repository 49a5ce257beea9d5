-- ===== src/Executable/Formats.antt =====
-- What ExecutableArchitectureDetector.ts finds in well-formed files of each format, and in files
-- that are cut short.
use vscode_dotnet_runtime.Prelude.{
  ℕ, zero, suc, ◌+◌, ◌*◌, ◌≤◌, ◌<◌, ◌≡◌, refl, ap, ◌∙◌, ◌==◌, if◌then◌else◌, length-append, ◌≢◌,
  true, false, Option, none, some, [], ◌∷◌, ◌++◌, arith, length, get_elem?, take, replicate,
}
use vscode_dotnet_runtime.Executable.{
  Buffer, read_uint16_le, read_uint32_le, is_elf_format, is_mach_o_format, is_pe_format,
  elf_machine, mach_o_machine, pe_machine, get_elf_architecture, get_mach_o_architecture,
  get_pe_architecture, header, get_executable_architecture,
}

get_elem?-take : (n i : ℕ) (b : Buffer) → i < n → get_elem? (take n b) i ≡ get_elem? b i
get_elem?-take zero i b h = elim h [ ]
get_elem?-take (suc n) i [] h = refl
get_elem?-take (suc n) zero (x ∷ b) h = refl
get_elem?-take (suc n) (suc i) (x ∷ b) h = get_elem?-take n i b (omega arith)

get_elem?-append :
    (i : ℕ) (b c : Buffer) (x : ℕ) → get_elem? b i ≡ some x → get_elem? (b ++ c) i ≡ some x
get_elem?-append i [] c x h = cc
get_elem?-append zero (y ∷ b) c x h = h
get_elem?-append (suc i) (y ∷ b) c x h = get_elem?-append i b c x h

length-take : (n : ℕ) (b : Buffer) → n ≤ length b → length (take n b) ≡ n
length-take zero b h = refl
length-take (suc n) [] h = absurd (omega arith)
length-take (suc n) (x ∷ b) h = ap suc (length-take n b (omega arith))

get_elem?-beyond : (i : ℕ) (b : Buffer) → length b ≤ i → get_elem? b i ≡ none
get_elem?-beyond i [] h = refl
get_elem?-beyond zero (x ∷ b) h = absurd (omega arith)
get_elem?-beyond (suc i) (x ∷ b) h = get_elem?-beyond i b (omega arith)

length-header : (b : Buffer) → length (header b) ≡ 64
unfolding header
length-header b =
    length-take 64 (b ++ replicate 64 0) (omega (arith, length-append b (replicate 64 0)))

-- A byte of the file, among the first 64, stands in the header.
header_byte :
    (i : ℕ) (b : Buffer) (x : ℕ) → i < 64 → get_elem? b i ≡ some x → get_elem? (header b) i ≡ some x
unfolding header
header_byte i b x lt h =
    get_elem?-take 64 i (b ++ replicate 64 0) lt ∙ get_elem?-append i b (replicate 64 0) x h

module _ (h : Buffer) where
  is_elf_of_bytes :
      get_elem? h 0 ≡ some 0x7f
      → get_elem? h 1 ≡ some 0x45
      → get_elem? h 2 ≡ some 0x4c
      → get_elem? h 3 ≡ some 0x46
      → is_elf_format h ≡ true
  unfolding is_elf_format
  is_elf_of_bytes a b c d = ground arith

  not_elf_of_byte : (x : ℕ) → get_elem? h 0 ≡ some x → x ≢ 0x7f → is_elf_format h ≡ false
  unfolding is_elf_format
  not_elf_of_byte x a ne = ground arith

  is_mach_o_of_bytes :
      get_elem? h 0 ≡ some 0xcf
      → get_elem? h 1 ≡ some 0xfa
      → get_elem? h 2 ≡ some 0xed
      → get_elem? h 3 ≡ some 0xfe
      → is_mach_o_format h ≡ true
  unfolding is_mach_o_format
  is_mach_o_of_bytes a b c d = ground arith

  not_mach_o_of_byte : (x : ℕ) → get_elem? h 0 ≡ some x → x ≢ 0xcf → is_mach_o_format h ≡ false
  unfolding is_mach_o_format
  not_mach_o_of_byte x a ne = ground arith

  is_pe_of_bytes : get_elem? h 0 ≡ some 0x4d → get_elem? h 1 ≡ some 0x5a → is_pe_format h ≡ true
  unfolding is_pe_format
  is_pe_of_bytes a b = ground arith

  elf_of_bytes :
      (lo hi : ℕ)
      → get_elem? h 18 ≡ some lo
      → get_elem? h 19 ≡ some hi
      → get_elf_architecture h ≡ some (elf_machine (lo + 256 * hi))
  unfolding get_elf_architecture
  elf_of_bytes lo hi l m = rw l (rw m refl)

  mach_o_of_bytes :
      (b0 b1 b2 b3 : ℕ)
      → get_elem? h 4 ≡ some b0
      → get_elem? h 5 ≡ some b1
      → get_elem? h 6 ≡ some b2
      → get_elem? h 7 ≡ some b3
      → get_mach_o_architecture h ≡ some (mach_o_machine (b0 + 256 * b1 + 65536 * (b2 + 256 * b3)))
  unfolding get_mach_o_architecture
  mach_o_of_bytes b0 b1 b2 b3 e f g i = rw e (rw f (rw g (rw i refl)))

-- A file with the ELF magic and the machine bytes `lo`, `hi` at offset 18 is of the architecture
-- that the ELF table has for `lo + 256 * hi`, whatever else it holds.
pub elf_detected :
    (file : Buffer) (again : Option Buffer) (lo hi : ℕ)
    → (get_elem? file 0 ≡ some 0x7f)
      × (get_elem? file 1 ≡ some 0x45)
      × (get_elem? file 2 ≡ some 0x4c)
      × (get_elem? file 3 ≡ some 0x46)
    → (get_elem? file 18 ≡ some lo) × (get_elem? file 19 ≡ some hi)
    → get_executable_architecture (some file) again ≡ some (elf_machine (lo + 256 * hi))
unfolding get_executable_architecture
elf_detected file again lo hi (a, b, c, d) (l, h) = ground (
  arith,
  length-header file,
  is_elf_of_bytes (header file) (header_byte 0 file 0x7f (omega arith) a)
      (header_byte 1 file 0x45 (omega arith) b) (header_byte 2 file 0x4c (omega arith) c)
      (header_byte 3 file 0x46 (omega arith) d),
  elf_of_bytes (header file) lo hi (header_byte 18 file lo (omega arith) l)
      (header_byte 19 file hi (omega arith) h),
)

-- A file with the magic of a 64-bit Mach-O file is of the architecture that the Mach-O table has for
-- the four bytes at offset 4.
pub mach_o_detected :
    (file : Buffer) (again : Option Buffer) (b0 b1 b2 b3 : ℕ)
    → (get_elem? file 0 ≡ some 0xcf)
      × (get_elem? file 1 ≡ some 0xfa)
      × (get_elem? file 2 ≡ some 0xed)
      × (get_elem? file 3 ≡ some 0xfe)
    → (get_elem? file 4 ≡ some b0)
      × (get_elem? file 5 ≡ some b1)
      × (get_elem? file 6 ≡ some b2)
      × (get_elem? file 7 ≡ some b3)
    → get_executable_architecture (some file) again
      ≡ some (mach_o_machine (b0 + 256 * b1 + 65536 * (b2 + 256 * b3)))
unfolding get_executable_architecture
mach_o_detected file again b0 b1 b2 b3 (a, b, c, d) (e, f, g, h) = ground (
  arith,
  length-header file,
  not_elf_of_byte (header file) 0xcf (header_byte 0 file 0xcf (omega arith) a) (omega arith),
  is_mach_o_of_bytes (header file) (header_byte 0 file 0xcf (omega arith) a)
      (header_byte 1 file 0xfa (omega arith) b) (header_byte 2 file 0xed (omega arith) c)
      (header_byte 3 file 0xfe (omega arith) d),
  mach_o_of_bytes (header file) b0 b1 b2 b3 (header_byte 4 file b0 (omega arith) e)
      (header_byte 5 file b1 (omega arith) f) (header_byte 6 file b2 (omega arith) g)
      (header_byte 7 file b3 (omega arith) h),
)

module _ (file : Buffer) (a : get_elem? file 0 ≡ some 0x4d) (b : get_elem? file 1 ≡ some 0x5a) where
  goes_to_pe : get_executable_architecture (some file) (some file) ≡ get_pe_architecture (some file)
  unfolding get_executable_architecture
  goes_to_pe =
      let first = header_byte 0 file 0x4d (omega arith) a in
      ground (
        arith,
        length-header file,
        not_elf_of_byte (header file) 0x4d first (omega arith),
        not_mach_o_of_byte (header file) 0x4d first (omega arith),
        is_pe_of_bytes (header file) first (header_byte 1 file 0x5a (omega arith) b),
      )

  -- A file with the DOS magic is of the architecture that the PE table has for the machine behind
  -- the signature that offset 60 points to, if that signature is the PE one, and else of none.
  pub pe_detected :
      (m offset signature : ℕ)
      → read_uint32_le file 0x3c ≡ some offset
      → read_uint32_le file offset ≡ some signature
      → read_uint16_le file (offset + 4) ≡ some m
      → get_executable_architecture (some file) (some file)
        ≡ (if signature == 0x4550 then some (pe_machine m) else none)
  unfolding get_pe_architecture
  pe_detected m offset signature o s c = goes_to_pe ∙ rw o (rw s (rw c refl))

  -- A file with the DOS magic that is shorter than 64 bytes is of no architecture.
  pub pe_too_short : length file < 64 → get_executable_architecture (some file) (some file) ≡ none
  unfolding get_pe_architecture
  pe_too_short short = goes_to_pe ∙ ground (arith, get_elem?-beyond 63 file)
