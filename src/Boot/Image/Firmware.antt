-- ===== src/Boot/Image/Firmware.antt =====
-- What `BootKernel` (src/bootloader/boot.c) calls in the firmware, and its early returns. The firmware is a
-- parameter; `F` is its state, memory included.
use pious_os.Base.{ℕ, ◌≡◌, refl, if◌then◌else◌}
use pious_os.Boot.Paging.Tables.{Words, PageState}
use pious_os.Boot.Search.{Status, efi_error, MapCalls}

-- The calls for memory and for the kernel's file. `memory` is what stands at the byte addresses.
pub record Firmware (F : Type 0) : Type 0 where
  pub memory : F → ℕ → ℕ
  -- the arguments are the number of pages and the address
  pub allocate_pages : ℕ → ℕ → F → Status × F
  -- the arguments are the address and the number of pages
  pub free_pages : ℕ → ℕ → F → Status × F
  -- the three calls of `ActuallyFreeAddress` and of `ActuallyFreeAddressByPage`
  pub map_calls : F → MapCalls × F
  -- the arguments are the address and the number of bytes
  pub zero_mem : ℕ → ℕ → F → F
  -- the argument is the number of bytes; the result has the address of the pool
  pub allocate_pool : ℕ → F → (Status × ℕ) × F
  pub free_pool : ℕ → F → Status × F
  pub set_position : ℕ → F → Status × F
  -- the arguments are the number of bytes and the address of the buffer
  pub read : ℕ → ℕ → F → Status × F
  -- `EFI_SIZE_TO_PAGES`
  pub size_to_pages : ℕ → ℕ
  -- the memory as the page tables' words with the pages that are left, what stands in CR3, and `ZeroMem` on
  -- words
  pub page_state : F → PageState
  pub with_page_state : PageState → F → F
  pub cr3 : F → ℕ
  pub zero_words : Words → ℕ → ℕ → Words
  -- where the loader's string `ELFMAG` stands
  pub elf_magic : ℕ

-- How a part of `BootKernel` ends: with a value, by `return`, or without fuel.
pub data Result {ℓ} (A : Type ℓ) : Type ℓ where
  ok : A → Result A
  returned : Status → Result A
  out_of_fuel : Result A

abbrev pub Run : Type 0 → Type 0 → Type 0
Run F A = F → Result A × F

module _ {F A : Type 0} where
  abbrev pub pure : A → Run F A
  pure a s = (ok a, s)

  abbrev pub return : Status → Run F A
  return status s = (returned status, s)

  abbrev pub gets : (F → A) → Run F A
  gets f s = (ok (f s), s)

  -- the value of a call
  abbrev pub called : (F → A × F) → Run F A
  called f s = let (a, s') = f s in (ok a, s')

abbrev pub go_on : {F A B : Type 0} → Result A × F → (A → Run F B) → Result B × F
go_on (ok a, s) f = f a s
go_on (returned status, s) f = (returned status, s)
go_on (out_of_fuel, s) f = (out_of_fuel, s)

infixl 5 ◌>>=◌ ◌>>◌
abbrev pub ◌>>=◌ : {F A B : Type 0} → Run F A → (A → Run F B) → Run F B
◌>>=◌ m f s = go_on (m s) f

abbrev pub ◌>>◌ : {F A B : Type 0} → Run F A → Run F B → Run F B
m >> k = m >>= λ _. k

-- a call, and `return BootStatus` where it fails
abbrev pub checked : {F : Type 0} → (F → Status × F) → Run F Status
checked f s =
    let (status, s') = f s in (if efi_error status then returned status else ok status, s')

go_on-eq-ok :
    {F A B : Type 0} (x : Result A × F) (f : A → Run F B) {b : B} {s2 : F}
    → go_on x f ≡ (ok b, s2)
    → (a : A) × (s1 : F) × (x ≡ (ok a, s1)) × (f a s1 ≡ (ok b, s2))
go_on-eq-ok (ok a, s) f h = (a, s, refl, h)
go_on-eq-ok (returned status, s) f h = cc
go_on-eq-ok (out_of_fuel, s) f h = cc

-- A run that ends with a value has done so in each of its parts.
pub bind-eq-ok :
    {F A B : Type 0} (m : Run F A) (f : A → Run F B) (s : F) {b : B} {s2 : F}
    → (m >>= f) s ≡ (ok b, s2)
    → (a : A) × (s1 : F) × (m s ≡ (ok a, s1)) × (f a s1 ≡ (ok b, s2))
bind-eq-ok m f s h = go_on-eq-ok (m s) f h
