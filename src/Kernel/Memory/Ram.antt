-- ===== src/Kernel/Memory/Ram.antt =====
-- What src/kernel/memory.c computes from the memory map.
use pious_os.Base.{
  ℕ, zero, suc, ◌+◌, ◌*◌, ◌%◌, ◌^◌, ◌≤◌, ◌<◌, ◌≡◌, refl, ap, ◌∙◌, ◌⊎◌, inl, inr, Bool, true, not,
  false, some, ltb, ◌==◌, if◌then◌else◌, arith, Bool-cases,
}
use mathlib.Core.Path.{subst}
use pious_os.Kernel.Memory.Map.{
  Descriptor, MemoryType, memory_mapped_io, memory_mapped_io_port_space, pal_code, max_memory_type,
  conventional_memory, other_type, Efi, add_pages, get_usable_system_ram, get_total_system_ram,
  MemorySettings, get_max_mapped_physical_address, is_usable,
}
use pious_os.Kernel.Graphics.Screen.{Screen}
use pious_os.Kernel.Graphics.Cursor.{IsValid, Moved, Moved-trans}
use pious_os.Kernel.Print.Format.{Floats}
use pious_os.Kernel.Memory.Found.{print_pages_found-Keeps}
use pious_os.Kernel.Memory.Walk.{HasDescriptors, piece_at, walk_map_inv}

add_total :
    (a p k : ℕ) {t : ℕ} → t ≡ a * k % 2 ^ 64 → (t + p * k % 2 ^ 64) % 2 ^ 64 ≡ (a + p) * k % 2 ^ 64
add_total a p k e = omega arith

-- memory-mapped I/O, its port space, processor code, and the end mark of the types
abbrev pub is_left_out : MemoryType → Bool
is_left_out memory_mapped_io = true
is_left_out memory_mapped_io_port_space = true
is_left_out pal_code = true
is_left_out max_memory_type = true
is_left_out type = false

is_usable-not : (type : MemoryType) → is_usable type ≡ not (is_left_out type)
unfolding is_usable
is_usable-not memory_mapped_io = refl
is_usable-not memory_mapped_io_port_space = refl
is_usable-not pal_code = refl
is_usable-not max_memory_type = refl
is_usable-not conventional_memory = refl
is_usable-not (other_type n) = refl

-- the sum of the descriptor's start, in bytes, and its number of pages, shifted by `shift` in 64 bits
abbrev pub shifted_sum : ℕ → Descriptor → ℕ
shifted_sum shift d = (d.physical_start + d.number_of_pages) * 2 ^ shift % 2 ^ 64

module _ (efi : Efi) (m : MemorySettings) where
  -- the descriptors of the map, by their place in it
  abbrev pub descriptor : ℕ → Descriptor
  descriptor i = efi.read (piece_at m i)

  -- The largest of the first `n` ends, or 0.
  record Largest (n v : ℕ) : Type 0 where
    pub above : (i : ℕ) → i < n → shifted_sum efi.page_shift (descriptor i) ≤ v
    pub reached : (v ≡ 0) ⊎ ((i : ℕ) × (i < n) × (v ≡ shifted_sum efi.page_shift (descriptor i)))

  Largest-next :
      (n v : ℕ)
      → Largest n v
      → Largest (suc n) (
          if ltb v (shifted_sum efi.page_shift (descriptor n))
          then shifted_sum efi.page_shift (descriptor n)
          else v)
  Largest-next n v l = record {
    above = λ i h. elim (Bool-cases (i == n)) [
      | inl e ↦ ground arith
      | inr e ↦ ground (arith, l.above i)
    ];
    reached = elim (Bool-cases (ltb v (shifted_sum efi.page_shift (descriptor n)))) [
      | inl e ↦ inr (n, omega arith, rw e refl)
      | inr e ↦ rw e (elim l.reached [ inl z ↦ inl z | inr (i, h, r) ↦ inr (i, omega arith, r) ])
    ];
  }

  -- For a map of `n` descriptors `GetMaxMappedPhysicalAddress` returns the largest of the values
  -- `(PhysicalStart + NumberOfPages) << EFI_PAGE_SHIFT`, in 64 bits, of its descriptors, whose bytes and pages
  -- are added before the shift: none is larger, and it is one of them or 0.
  pub get_max_mapped_physical_address_lem :
      (n : ℕ)
      → HasDescriptors m n
      → (v : ℕ) × (get_max_mapped_physical_address efi m ≡ some v)
        × ((i : ℕ) → i < n → shifted_sum efi.page_shift (descriptor i) ≤ v)
        × ((v ≡ 0) ⊎ ((i : ℕ) × (i < n) × (v ≡ shifted_sum efi.page_shift (descriptor i))))
  unfolding get_max_mapped_physical_address
  get_max_mapped_physical_address_lem n h =
      let (v, run, l) =
        walk_map_inv Largest efi m n _ 0 h (λ at now lt l. (_, refl, Largest-next at now l))
          (record { above = λ i lt. absurd (omega arith); reached = inl refl }) in
      (v, run, l.above, l.reached)

  -- the pages of the first `n` descriptors that `chosen` picks
  abbrev pub pages : (MemoryType → Bool) → ℕ → ℕ
  pages chosen zero = 0
  pages chosen (suc n) =
      pages chosen n + (if chosen (descriptor n).type then (descriptor n).number_of_pages else 0)

  -- A total of bytes, and a display that works.
  record Counted (chosen : MemoryType → Bool) (s : Screen) (n : ℕ) (state : ℕ × Screen)
      : Type 0 where
    total : state.0 ≡ pages chosen n * 2 ^ efi.page_shift % 2 ^ 64
    valid : IsValid state.1.settings
    moved : Moved s.settings state.1.settings

  module _ (F : Floats) (chosen : MemoryType → Bool) (s : Screen) where
    Counted-start : IsValid s.settings → Counted chosen s 0 (0, s)
    Counted-start v = record { total = omega arith; valid = v; moved = refl }

    Counted-skip :
        (n : ℕ) (now : ℕ × Screen)
        → chosen (descriptor n).type ≡ false
        → Counted chosen s n now
        → Counted chosen s (suc n) now
    Counted-skip n now e c = record {
      total = rw e (c.total ∙ omega arith);
      valid = c.valid;
      moved = c.moved;
    }

    Counted-add :
        (n : ℕ) (now : ℕ × Screen)
        → chosen (descriptor n).type ≡ true
        → Counted chosen s n now
        → (next : ℕ × Screen) × (add_pages F efi (descriptor n) now ≡ some next)
          × Counted chosen s (suc n) next
    unfolding add_pages
    Counted-add n (total, t) e c =
        let (t', run, v, moved) =
          print_pages_found-Keeps F (descriptor n).number_of_pages t c.valid in
        (
          ((total + (descriptor n).number_of_pages * 2 ^ efi.page_shift % 2 ^ 64) % 2 ^ 64, t'),
          rw run refl,
          record {
            total = rw e (
                add_total (pages chosen n) (descriptor n).number_of_pages (2 ^ efi.page_shift)
                  c.total);
            valid = v;
            moved = Moved-trans s.settings t.settings t'.settings c.moved moved;
          },
        )

  -- `GetTotalSystemRam` on a valid display and a map of `n` descriptors prints its lines without a fault,
  -- leaves a valid display whose settings differ in the cursor alone, and returns the bytes of the pages of
  -- all descriptors, modulo 2 ^ 64.
  pub get_total_system_ram_lem :
      (F : Floats) (n : ℕ) (s : Screen)
      → HasDescriptors m n
      → IsValid s.settings
      → (s' : Screen) × (get_total_system_ram F efi m s
          ≡ some (pages (λ type. true) n * 2 ^ efi.page_shift % 2 ^ 64, s'))
        × IsValid s'.settings
        × Moved s.settings s'.settings
  unfolding get_total_system_ram
  get_total_system_ram_lem F n s h v =
      let ((total, s'), run, c) =
        walk_map_inv (Counted (λ type. true) s) efi m n (add_pages F efi) (0, s) h
          (λ at now lt c. Counted-add F (λ type. true) s at now refl c)
          (Counted-start F (λ type. true) s v) in
      (s', run ∙ ap (λ t. some (t, s')) c.total, c.valid, c.moved)

  pages-is_usable : (n : ℕ) → pages is_usable n ≡ pages (λ type. not (is_left_out type)) n
  pages-is_usable zero = refl
  pages-is_usable (suc n) = rw (pages-is_usable n, is_usable-not (descriptor n).type) refl

  -- On a valid display and a map of `n` descriptors `GetUsableSystemRam` returns, without a fault, the bytes
  -- modulo 2 ^ 64 of the descriptors of every type but memory-mapped I/O, its port space, processor code and
  -- the end mark of the types, and leaves a valid display whose settings differ in the cursor alone.
  pub get_usable_system_ram_lem :
      (F : Floats) (n : ℕ) (s : Screen)
      → HasDescriptors m n
      → IsValid s.settings
      → (s' : Screen) × (get_usable_system_ram F efi m s
          ≡ some (pages (λ type. not (is_left_out type)) n * 2 ^ efi.page_shift % 2 ^ 64, s'))
        × IsValid s'.settings
        × Moved s.settings s'.settings
  unfolding get_usable_system_ram
  get_usable_system_ram_lem F n s h v =
      let same = pages-is_usable n in
      let ((total, s'), run, c) =
        walk_map_inv (Counted is_usable s) efi m n _ (0, s) h
          (λ at now lt c. elim (Bool-cases (is_usable (descriptor at).type)) [
            | inl e ↦
                let (next, added, c') = Counted-add F is_usable s at now e c in
                (next, rw e added, c')
            | inr e ↦ (now, rw e refl, Counted-skip F is_usable s at now e c)
          ])
          (Counted-start F is_usable s v) in
      (
        s',
        subst (λ k. get_usable_system_ram F efi m s ≡ some (k * 2 ^ efi.page_shift % 2 ^ 64, s'))
            same (run ∙ ap (λ t. some (t, s')) c.total),
        c.valid,
        c.moved,
      )
