-- ===== src/Boot/Image/Pages.antt =====
-- The pages for the kernel's image: `BootKernel` of src/bootloader/boot.c takes those at 1 GiB, or searches for
-- others where the firmware's are not free. A `while` loop takes fuel.
use pious_os.Base.{ℕ, zero, suc, ◌*◌, ◌%◌, ◌^◌, Bool, not, ◌||◌, ◌==◌, if◌then◌else◌}
use pious_os.Boot.Search.{
  Status, not_found, efi_error, is_success, no_address, compare, verify_zero_mem,
  actually_free_address, actually_free_address_by_page,
}
use pious_os.Boot.Image.Firmware.{
  Firmware, out_of_fuel, Run, pure, return, gets, called, checked, ◌>>=◌,
}

-- `pages << EFI_PAGE_SHIFT`
abbrev pub byte_count : ℕ → ℕ
byte_count pages = pages * 4096 % 2 ^ 64

-- 1 GiB
abbrev pub first_choice : ℕ
first_choice = 0x4000_0000

module _ {F : Type 0} (fw : Firmware F) where
  unfoldable pub free_address : ℕ → ℕ → Run F ℕ
  free_address pages old_address = do
    calls ← called fw.map_calls
    pure (actually_free_address calls pages old_address)

  unfoldable pub free_address_by_page : ℕ → ℕ → Run F ℕ
  free_address_by_page pages old_address = do
    calls ← called fw.map_calls
    pure (actually_free_address_by_page calls pages old_address)

  -- the next address that is not the known bad one
  unfoldable pub next_address : (ℕ → Run F ℕ) → ℕ → ℕ → Run F ℕ
  next_address find bad address = do
    next ← find address
    if next == bad then find next else pure next

  -- The start of a round: the next address, where the last one was not found, and `return BootStatus` for
  -- another error.
  unfoldable pub round_address : (ℕ → Run F ℕ) → ℕ → Status → ℕ → Run F ℕ
  round_address find bad not_found address = next_address find bad address
  round_address find bad status address = if efi_error status then return status else pure address

  -- `while(BootStatus != EFI_SUCCESS)`: it ends at an address that `AllocatePages` took, or returns. `no_more`
  -- is the test for the end of the memory.
  unfoldable pub take_pages : (ℕ → Run F ℕ) → (ℕ → Bool) → ℕ → ℕ → ℕ → Status → ℕ → Run F ℕ
  take_pages find no_more pages bad zero status address s = (out_of_fuel, s)
  take_pages find no_more pages bad (suc fuel) status address s =
      (if is_success status then pure address else do
        next ← round_address find bad status address
        (if no_more next then return status else do
          status' ← called (fw.allocate_pages pages next)
          take_pages find no_more pages bad fuel status' next))
        s

  -- `while((BootStatus != EFI_SUCCESS) && (NewAddress != ~0ULL))`
  unfoldable pub take_easy_pages : ℕ → ℕ → ℕ → Status → ℕ → Run F ℕ
  take_easy_pages pages bad zero status address s = (out_of_fuel, s)
  take_easy_pages pages bad (suc fuel) status address s =
      (if is_success status || address == no_address then pure address else do
        next ← round_address (free_address pages) bad status address
        status' ← called (fw.allocate_pages pages next)
        take_easy_pages pages bad fuel status' next)
        s

  -- The pages are all zero. A kernel's image stands at the address, left from an earlier boot.
  abbrev pub is_zero : ℕ → ℕ → F → Bool
  is_zero pages address s = verify_zero_mem (fw.memory s) (byte_count pages) address == 0

  abbrev pub is_image : ℕ → F → Bool
  is_image address s = not (compare (fw.memory s) address fw.elf_magic 4 == 0)

  -- `while((NewAddress != ~0ULL) && VerifyZeroMem(...))`: pages that are not free are given back for others.
  -- `tries` is the fuel of the inner loop.
  unfoldable pub clean_pages : ℕ → ℕ → ℕ → ℕ → ℕ → Run F ℕ
  clean_pages tries pages bad zero address s = (out_of_fuel, s)
  clean_pages tries pages bad (suc fuel) address s =
      (if address == no_address || is_zero pages address s || is_image address s
          then pure address
          else do
            status ← checked (fw.free_pages address pages)
            next ← take_easy_pages pages bad tries not_found address
            clean_pages tries pages bad fuel next)
        s

  -- the same by page, where the inner loop tests `AllocatedMemory`, which it does not change
  unfoldable pub clean_pages_by_page : ℕ → ℕ → ℕ → ℕ → ℕ → Run F ℕ
  clean_pages_by_page tries pages bad zero address s = (out_of_fuel, s)
  clean_pages_by_page tries pages bad (suc fuel) address s =
      (if is_zero pages address s || is_image address s then pure address else do
        status ← checked (fw.free_pages address pages)
        next ←
            take_pages (free_address_by_page pages) (λ next. address == no_address) pages bad tries
              not_found address
        clean_pages_by_page tries pages bad fuel next)
        s

  -- the search by page, where the one by piece has come to its end
  unfoldable pub search_by_page : ℕ → ℕ → ℕ → Run F ℕ
  search_by_page fuel pages bad = do
    first ← free_address pages 0
    taken ←
        take_pages (free_address_by_page pages) (λ next. next == no_address) pages bad fuel
          not_found first
    clean_pages_by_page fuel pages bad fuel taken

  -- the discovery of a viable address, when the pages at `bad` are not free
  unfoldable pub discover_pages : ℕ → ℕ → ℕ → Run F ℕ
  discover_pages fuel pages bad = do
    status ← checked (fw.free_pages bad pages)
    status' ← called (fw.allocate_pages pages 0)
    taken ← take_pages (free_address pages) (λ next. next == no_address) pages bad fuel status' 0
    clean ← clean_pages fuel pages bad fuel taken
    (if clean == no_address then search_by_page fuel pages bad else pure clean)

  -- the value of `AllocatedMemory` that the segments are loaded at
  unfoldable pub image_pages : ℕ → ℕ → Run F ℕ
  image_pages fuel pages = do
    status ← checked (fw.allocate_pages pages first_choice)
    cleared ← called (λ s. (tt, fw.zero_mem first_choice (byte_count pages) s))
    free ← gets (λ s. is_zero pages first_choice s || is_image first_choice s)
    (if free then pure first_choice else discover_pages fuel pages first_choice)
