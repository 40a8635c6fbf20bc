-- ===== src/Boot/Main/Entered.antt =====
-- When the boot loader (src/bootloader/boot.c) enters the kernel.
use pious_os.Base.{
  ℕ, ◌<◌, true, false, arith, ==_iff, ◌+◌, ◌-◌, ◌*◌, ◌%◌, ◌^◌, ◌≤◌, ◌≡◌, refl, List, ◌⊎◌, inl, inr,
  ◌&&◌, ◌==◌,
}
use pious_os.Boot.Blocks.{compare_lem}
use pious_os.Boot.Search.{invalid_parameter, compare}
use pious_os.Boot.Image.Firmware.{
  Firmware, Result, ok, returned, out_of_fuel, pure, return, checked,
}
use pious_os.Boot.Image.Post.{
  Post, Post-bind, Post-mono, Post-if, Post-weaken, Post-then, Post-call,
}
use pious_os.Boot.Image.Pages.{image_pages}
use pious_os.Boot.Image.Onward.{Starts}
use pious_os.Boot.Image.Found.{RunsOn, Given, image_pages_lem}
use pious_os.Boot.Image.Segments.{
  Image, no_image, bounds, e_class, e_machine, e_entry, e_phnum, e_phoff, e_phentsize, p_vaddr,
  header_at, load_segments, map_pages, load_image, load_kernel,
}
use pious_os.Boot.Image.Handover.{
  open_kernel, MapInfo, BootCalls, LoaderBlock, Inputs, handover, boot_kernel,
}
use pious_os.Boot.Image.Exited.{Left, Carries, handover-exit_boot}
use pious_os.Boot.Graphics.Modes.{GraphicsCalls, Mode}
use pious_os.Boot.Graphics.Names.{NameCalls}
use pious_os.Boot.Graphics.Listed.{init_uefi_gop}
use pious_os.Boot.Main.{Outcome, entered, halted, outcome, Setting, efi_main}

module _ {F : Type 0} (fw : Firmware F) (fuel : ℕ) where
  -- The header is in memory: it was read from the start of the file.
  abbrev pub HeaderRead : ℕ → F → Type 0
  HeaderRead header s = (s0 : F) × ((fw.read 64 header (fw.set_position 0 s0).1).1 ≡ s)

  -- The four bytes at the header are those of the ELF magic.
  abbrev pub HasMagic : ℕ → F → Type 0
  HasMagic header s =
      (k : ℕ)
      → k < 4
      → fw.memory s ((header + k) % 2 ^ 64) ≡ fw.memory s ((fw.elf_magic + k) % 2 ^ 64)

  -- What was read is a 64-bit ELF of x86_64, whose header gives the entry point.
  abbrev pub IsElf : ℕ → F → Image → Type 0
  IsElf header s image =
      HasMagic header s
      × (e_class (fw.memory s) header ≡ 2)
      × (e_machine (fw.memory s) header ≡ 62)
      × (image.entry_point ≡ e_entry (fw.memory s) header)

  -- The file was no ELF, or it was one and the pages of the image were given for it.
  abbrev pub Placed : ℕ → Image → Type 0
  Placed header image =
      (s : F) × HeaderRead header s
      × (((¬ HasMagic header s) × (image ≡ no_image))
          ⊎ (IsElf header s image × ((s' : F) × Given fw fuel image.pages image.base s')))

  module _ (boot : BootCalls F) where
    -- The boot services have ended, the parameters carry the last memory map, and the image is placed.
    abbrev pub CanEnter : ℕ → LoaderBlock → ℕ → F → Type 0
    CanEnter header block address s =
        ((info : MapInfo) × Left fw boot info s × Carries fw boot block info)
        × ((image : Image) × Placed header image
            × (block.kernel_base_address ≡ image.base)
            × (block.kernel_pages ≡ image.pages)
            × (address ≡ image.entry_point))

    -- the postcondition of `efi_main`
    abbrev pub Enters : ℕ → Outcome → F → Type 0
    Enters header (entered modes block address) s = CanEnter header block address s
    Enters header (halted status) s = Unit

  module _ (starts : (s : F) → Starts (fw.map_calls s).0) (enough : 2 ^ 64 ≤ fuel) where
    load_image-Given :
        (header : ℕ) (s : F)
        → Post Unit
            (λ image s'.
              (image.entry_point ≡ e_entry (fw.memory s) header)
              × ((t : F) × Given fw fuel image.pages image.base t))
            (load_image fw fuel header s)
    unfolding load_image
    load_image-Given header s =
        let m = fw.memory s in
        let room = e_phnum m header * e_phentsize m header in
        let pool = (fw.allocate_pool room s).0 in
        let s1 = (fw.allocate_pool room s).1 in
        let P = λ (image : Image) (s' : F).
          (image.entry_point ≡ e_entry m header)
          × ((t : F) × Given fw fuel image.pages image.base t) in
        Post-then P (checked (λ s. (pool.0, s))) _ s1 (λ status s2.
          Post-then P (checked (fw.set_position (e_phoff m header))) _ s2 (λ positioned s3.
            Post-then P (checked (fw.read room pool.1)) _ s3 (λ found s4.
              let limits = bounds (fw.memory s4) pool.1 (e_phnum m header) in
              let pages = fw.size_to_pages ((limits.0 + 2 ^ 64 - limits.1) % 2 ^ 64) in
              Post-bind Unit P (image_pages fw fuel pages) _ s4 (
                Post-mono Unit (Given fw fuel pages) _ (image_pages fw fuel pages s4)
                  (λ allocated s5 given.
                    Post-then P (load_segments fw pool.1 allocated (e_phnum m header) 0) _ s5
                      (λ loaded s6.
                        let start = p_vaddr (fw.memory s6) (header_at pool.1 0) in
                        Post-then P (map_pages fw allocated start pages 0x3) _
                          (fw.free_pool pool.1 s6).1 (λ mapped s7. (refl, (s5, given)))))
                  (Post-weaken (RunsOn fw fuel pages) (Given fw fuel pages)
                    (image_pages fw fuel pages s4)
                    (image_pages_lem fw starts fuel pages enough s4))))))

    has_magic :
        (header : ℕ) (s : F)
        → ((compare (fw.memory s) header fw.elf_magic 4 == 0) ≡ true → ¬ HasMagic header s)
          × ((compare (fw.memory s) header fw.elf_magic 4 == 0) ≡ false → HasMagic header s)
    has_magic header s =
        let ((to, from), either) = compare_lem (fw.memory s) header fw.elf_magic 4 in
        (
          (λ e magic.
              omega
                (arith, (==_iff (compare (fw.memory s) header fw.elf_magic 4) 0).0 e, from magic)),
          (λ e. to (ground (arith, either, e))),
        )

    load_kernel-Placed :
        (header : ℕ) (s : F)
        → Post Unit (λ image s'. Placed header image) (load_kernel fw fuel header s)
    unfolding load_kernel
    load_kernel-Placed header s =
        let P = λ (image : Image) (s' : F). Placed header image in
        let s1 = (fw.set_position 0 s).1 in
        let s2 = (fw.read 64 header s1).1 in
        let m = fw.memory s2 in
        Post-call Unit P (fw.set_position 0) _ s (λ positioned.
          Post-call Unit P (fw.read 64 header) _ s1 (λ found.
            Post-if Unit P (compare m header fw.elf_magic 4 == 0) (pure no_image) _ s2
              (λ e. (s2, (s, refl), inl ((has_magic header s2).0 e, refl)))
              (λ e.
                Post-if Unit P (e_class m header == 2 && e_machine m header == 62)
                  (load_image fw fuel header) (return invalid_parameter) s2
                  (λ e'.
                    Post-mono Unit _ P (load_image fw fuel header s2)
                      (λ image s3 (entry, given). (
                        s2,
                        (s, refl),
                        inr (((has_magic header s2).1 e, ground arith, ground arith, entry), given),
                      ))
                      (load_image-Given header s2))
                  (λ e'. tt))))

    module _ (boot : BootCalls F) where
      pub boot_kernel_enters :
          (dos_header header block_size : ℕ) (inputs : Inputs) (initial : MapInfo) (s : F)
          → Post Unit
              (λ called s'. CanEnter boot header called.0 called.1 s')
              (boot_kernel fw boot fuel dos_header header block_size inputs initial s)
      unfolding boot_kernel
      boot_kernel_enters dos_header header block_size inputs initial s =
          let P =
            λ (called : LoaderBlock × ℕ) (s' : F). CanEnter boot header called.0 called.1 s' in
          Post-then P (open_kernel fw boot dos_header inputs) _ s (λ inputs' s0.
            Post-bind Unit P (load_kernel fw fuel header) _ s0 (
              Post-mono Unit _ _ (load_kernel fw fuel header s0)
                (λ image s1 placed.
                  Post-bind Unit P (handover fw boot block_size inputs' initial image) _ s1 (
                    Post-mono Unit _ _ (handover fw boot block_size inputs' initial image s1)
                      (λ block s2 (info, left, carries, base, pages).
                        ((info, left, carries), (image, placed, base, pages, refl)))
                      (Post-weaken ⊥ _ (handover fw boot block_size inputs' initial image s1)
                        (handover-exit_boot fw boot block_size inputs' initial image s1))))
                (load_kernel-Placed header s0)))

      outcome-Enters :
          (header : ℕ) (modes : List Mode) (x : Result (LoaderBlock × ℕ) × F)
          → Post Unit (λ called s'. CanEnter boot header called.0 called.1 s') x
          → Post Unit (Enters boot header) (outcome modes x)
      unfolding outcome
      outcome-Enters header modes (ok (block, address), s) h = h
      outcome-Enters header modes (returned status, s) h = tt
      outcome-Enters header modes (out_of_fuel, s) h = tt

      -- With fuel from 2 ^ 64 on, `efi_main` only enters the kernel when the last call of the firmware was an
      -- `ExitBootServices` that succeeded, called with the key that `GetMemoryMap` wrote right before it. The
      -- parameters then have that map's size and descriptors, and the base and pages of the image. Either what
      -- was read from the start of the file has an ELF magic and is for 64 bits and x86_64, its entry point is
      -- called, and `AllocatePages` gave the image's pages, which were empty or started with an ELF magic; or it
      -- has no ELF magic, nothing was loaded, and 0x40000000 is called. The firmware's pieces of memory start at
      -- 64-bit addresses.
      pub efi_main-boot_kernel :
          (calls : NameCalls F) (gop : GraphicsCalls F) (set : Setting) (s : F)
          → Post Unit (Enters boot set.header) (efi_main fw calls gop boot fuel set s)
      unfolding efi_main
      efi_main-boot_kernel calls gop set s =
          let pool = (fw.allocate_pool set.config_size s).0 in
          let s1 = (fw.allocate_pool set.config_size s).1 in
          Post-then (Enters boot set.header) (checked (λ s. (pool.0, s))) _ s1 (λ status s2.
            Post-then (Enters boot set.header) (init_uefi_gop fw calls gop fuel set.debug) _ s2
              (λ modes s3.
                let inputs = record set.inputs { graphics = pool.1 } in
                outcome-Enters set.header modes
                  (boot_kernel fw boot fuel set.dos_header set.header set.block_size inputs
                    set.initial s3)
                  (boot_kernel_enters set.dos_header set.header set.block_size inputs set.initial
                    s3)))
