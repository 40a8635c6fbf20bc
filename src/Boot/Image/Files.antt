-- ===== src/Boot/Image/Files.antt =====
-- The calls for the kernel's file in `BootKernel` (src/bootloader/boot.c), and memory that they keep.
use pious_os.Base.{ℕ, zero, suc, ◌+◌, ◌-◌, ◌%◌, ◌^◌, ◌≤◌, ◌<◌, ◌≡◌, refl, ◌⊎◌, false, arith}
use pious_os.Boot.Search.{efi_error}
use pious_os.Boot.Image.Firmware.{Firmware}
use pious_os.Boot.Image.Segments.{word}

-- Two memories agree on a block.
abbrev pub Agree : (ℕ → ℕ) → (ℕ → ℕ) → ℕ → ℕ → Type 0
Agree m m' first last = (a : ℕ) → first ≤ a → a < last → m a ≡ m' a

pub word-Agree :
    (m m' : ℕ → ℕ) (bytes address first last : ℕ)
    → Agree m m' first last
    → first ≤ address
    → address + bytes ≤ last
    → last ≤ 2 ^ 64
    → word m bytes address ≡ word m' bytes address
unfolding word
word-Agree m m' zero address first last agree above below fits = refl
word-Agree m m' (suc bytes) address first last agree above below fits =
    let here : m (address % 2 ^ 64) ≡ m' (address % 2 ^ 64) =
      agree (address % 2 ^ 64) (omega (arith, above, below, fits))
        (omega (arith, above, below, fits)) in
    let rest =
      word-Agree m m' bytes (address + 1) first last agree (omega (arith, above))
        (omega (arith, below)) fits in
    rw (here, rest) refl

-- The file's bytes, what `SetPosition` and `Read` do where they succeed and stay inside the file, and that the
-- one keeps the memory and the other what is outside its buffer.
pub record FileCalls {F : Type 0} (fw : Firmware F) (file : ℕ → ℕ) (length : ℕ) (position : F → ℕ)
    : Type 0 where
  pub set_position-position :
      (p : ℕ) (s : F)
      → p ≤ length
      → length < 2 ^ 64 - 1
      → efi_error (fw.set_position p s).0 ≡ false
      → position (fw.set_position p s).1 ≡ p
  pub set_position-memory : (p a : ℕ) (s : F) → fw.memory (fw.set_position p s).1 a ≡ fw.memory s a
  pub read-inside :
      (n buffer k : ℕ) (s : F)
      → efi_error (fw.read n buffer s).0 ≡ false
      → k < n
      → buffer + n ≤ 2 ^ 64
      → position s + n ≤ length
      → fw.memory (fw.read n buffer s).1 (buffer + k) ≡ file (position s + k)
  pub read-outside :
      (n buffer a : ℕ) (s : F)
      → (a < buffer) ⊎ (buffer + n ≤ a)
      → fw.memory (fw.read n buffer s).1 a ≡ fw.memory s a
