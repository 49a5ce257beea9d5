-- ===== src/Executable.antt =====
-- vscode-dotnet-runtime-library/src/Utils/ExecutableArchitectureDetector.ts: the architecture of an
-- executable from its first bytes. A file is what `readFileSync` gives, `none` where it throws; a
-- read of a buffer out of range throws as well.
pub mod Formats
use vscode_dotnet_runtime.Prelude.{
  ℕ, ◌+◌, ◌*◌, Bool, true, false, ◌&&◌, not, Option, none, some, List, [], ◌∷◌, ◌++◌, ltb, ◌==◌,
  if◌then◌else◌, length, get_elem?, take, replicate,
}

pub data Architecture : Type 0 where
  x86 x64 arm64 other : Architecture

abbrev pub Buffer : Type 0
Buffer = List ℕ

infixl 5 ◌>>=◌
abbrev ◌>>=◌ {ℓ κ} : {A : Type ℓ} {B : Type κ} → Option A → (A → Option B) → Option B
none >>= f = none
some a >>= f = f a

-- `buffer.readUInt16LE(offset)` and `buffer.readUInt32LE(offset)`.
unfoldable pub read_uint16_le : Buffer → ℕ → Option ℕ
read_uint16_le b offset = do
  lo ← get_elem? b offset
  hi ← get_elem? b (offset + 1)
  some (lo + 256 * hi)

unfoldable pub read_uint32_le : Buffer → ℕ → Option ℕ
unfolding read_uint16_le
read_uint32_le b offset = do
  lo ← read_uint16_le b offset
  hi ← read_uint16_le b (offset + 2)
  some (lo + 65536 * hi)

-- `header[i] === value`; out of range the element is undefined.
abbrev pub byte_is : Buffer → ℕ → ℕ → Bool
byte_is b i value = elim (get_elem? b i) [ none ↦ false | some x ↦ x == value ]

unfoldable pub is_elf_format : Buffer → Bool
is_elf_format h = byte_is h 0 0x7f && byte_is h 1 0x45 && byte_is h 2 0x4c && byte_is h 3 0x46

unfoldable pub is_mach_o_format : Buffer → Bool
is_mach_o_format h = byte_is h 0 0xcf && byte_is h 1 0xfa && byte_is h 2 0xed && byte_is h 3 0xfe

unfoldable pub is_pe_format : Buffer → Bool
is_pe_format h = byte_is h 0 0x4d && byte_is h 1 0x5a

-- The `switch` of each format, over its codes for x86, x64 and ARM64.
abbrev pub machine : ℕ → ℕ → ℕ → ℕ → Architecture
machine code_x86 code_x64 code_arm64 m =
    if m == code_x86
    then x86
    else if m == code_x64
    then x64
    else if m == code_arm64
    then arm64
    else other

abbrev pub elf_machine : ℕ → Architecture
elf_machine m = machine 0x03 0x3e 0xb7 m

abbrev pub mach_o_machine : ℕ → Architecture
mach_o_machine m = machine 0x7 0x1000007 0x100000c m

abbrev pub pe_machine : ℕ → Architecture
pe_machine m = machine 0x14c 0x8664 0xaa64 m

unfoldable pub get_elf_architecture : Buffer → Option Architecture
unfolding read_uint16_le
get_elf_architecture h = do m ← read_uint16_le h 0x12; some (elf_machine m)

unfoldable pub get_mach_o_architecture : Buffer → Option Architecture
unfolding read_uint32_le
get_mach_o_architecture h = do cpu_type ← read_uint32_le h 0x4; some (mach_o_machine cpu_type)

unfoldable pub get_pe_architecture : Option Buffer → Option Architecture
unfolding read_uint32_le
get_pe_architecture file = do
  content ← file
  pe_offset ← read_uint32_le content 0x3c
  signature ← read_uint32_le content pe_offset
  if signature == 0x4550
      then (read_uint16_le content (pe_offset + 4) >>= λ m. some (pe_machine m))
      else none

-- The first 64 bytes, behind which the allocated buffer stays zero.
unfoldable pub header : Buffer → Buffer
header file = take 64 (file ++ replicate 64 0)

-- The PE branch reads the file once more; `again` is what that read gives.
unfoldable pub get_executable_architecture : Option Buffer → Option Buffer → Option Architecture
unfolding header is_elf_format is_mach_o_format is_pe_format get_elf_architecture
    get_mach_o_architecture get_pe_architecture
get_executable_architecture file again = do
  content ← file
  if ltb (length (header content)) 64
      then none
      else if is_elf_format (header content)
      then get_elf_architecture (header content)
      else if is_mach_o_format (header content)
      then get_mach_o_architecture (header content)
      else if is_pe_format (header content)
      then get_pe_architecture again
      else none

unfoldable pub is_known_architecture : Option Architecture → Bool
is_known_architecture none = false
is_known_architecture (some other) = false
is_known_architecture (some _) = true
