-- ===== src/Boot/Image/Loaded.antt =====
-- The segments of the kernel's ELF file, as `BootKernel` (src/bootloader/boot.c) leaves them in memory.
use pious_os.Base.{
  ℕ, zero, suc, ◌+◌, ◌-◌, ◌^◌, ◌≤◌, ◌<◌, ◌≡◌, ◌≢◌, refl, sym, ap, ◌∙◌, ◌⊎◌, inl, inr, false, ◌==◌,
  Bool-cases, ==_iff, arith,
}
use mathlib.Core.Path.{subst}
use pious_os.Boot.Search.{efi_error}
use pious_os.Boot.Image.Firmware.{Firmware, pure, checked}
use pious_os.Boot.Image.Post.{Post, Post-bind, Post-mono, Post-if, Post-checked}
use pious_os.Boot.Image.Segments.{
  word, p_type, p_offset, p_filesz, header_at, pt_load, section_address, load_segment,
  load_segments,
}
use pious_os.Boot.Image.Inside.{Loadable}
use pious_os.Boot.Image.Files.{Agree, word-Agree, FileCalls}

false_type : (a b : ℕ) → (a == b) ≡ false → a ≢ b
false_type a b h e = ground arith

clear_of :
    (a first size low high : ℕ)
    → (high ≤ first) ⊎ (first + size ≤ low)
    → low ≤ a
    → a < high
    → (a < first) ⊎ (first + size ≤ a)
clear_of a first size low high apart above below = omega arith

module _ {F : Type 0} (fw : Firmware F) (file : ℕ → ℕ) (length : ℕ) (position : F → ℕ)
    (calls : FileCalls fw file length position) (table allocated count : ℕ) (m : ℕ → ℕ) where
  -- the block of the segment `i`, by the program headers in `m`
  abbrev pub from : ℕ → ℕ
  from i = section_address m table allocated i

  abbrev pub size : ℕ → ℕ
  size i = p_filesz m (header_at table i)

  -- The loadable segments lie inside the file. The blocks of the loadable segments
  -- end inside the 64-bit addresses, and none has a byte in common with another one or with the program headers.
  pub record Apart : Type 0 where
    pub file_end : length < 2 ^ 64 - 1
    pub in_file :
        (i : ℕ) → i < count → Loadable m table i → p_offset m (header_at table i) + size i ≤ length
    pub table_end : header_at table count ≤ 2 ^ 64
    pub block_end : (i : ℕ) → i < count → Loadable m table i → from i + size i ≤ 2 ^ 64
    pub from_table :
        (i : ℕ)
        → i < count
        → Loadable m table i
        → (header_at table count ≤ from i) ⊎ (from i + size i ≤ table)
    pub from_block :
        (i j : ℕ)
        → i < j
        → j < count
        → Loadable m table i
        → Loadable m table j
        → (from i + size i ≤ from j) ⊎ (from j + size j ≤ from i)

  -- The segment `i` stands in memory.
  abbrev pub Stands : F → ℕ → Type 0
  Stands s i =
      (k : ℕ) → k < size i → fw.memory s (from i + k) ≡ file (p_offset m (header_at table i) + k)

  -- The program headers are kept, and the first `done` loadable segments stand in memory.
  abbrev Loaded : ℕ → F → Type 0
  Loaded done s =
      Agree (fw.memory s) m table (header_at table count)
      × ((i : ℕ) → i < done → Loadable m table i → Stands s i)

  same_fields :
      (m' : ℕ → ℕ) (i : ℕ)
      → Agree m' m table (header_at table count)
      → header_at table count ≤ 2 ^ 64
      → i < count
      → (p_type m' (header_at table i) ≡ p_type m (header_at table i))
        × (p_offset m' (header_at table i) ≡ p_offset m (header_at table i))
        × (p_filesz m' (header_at table i) ≡ p_filesz m (header_at table i))
        × (section_address m' table allocated i ≡ from i)
  same_fields m' i agree fits h =
      let field : (bytes address : ℕ)
          → table ≤ address
          → address + bytes ≤ header_at table count
          → word m' bytes address ≡ word m bytes address =
        λ bytes address above below.
          word-Agree m' m bytes address table (header_at table count) agree above below fits in
      let first = field 8 (header_at table 0 + 16) (omega arith) (omega (arith, h)) in
      let vaddr = field 8 (header_at table i + 16) (omega arith) (omega (arith, h)) in
      (
        field 4 (header_at table i) (omega arith) (omega (arith, h)),
        field 8 (header_at table i + 8) (omega arith) (omega (arith, h)),
        field 8 (header_at table i + 32) (omega arith) (omega (arith, h)),
        rw (first, vaddr) refl,
      )

  -- a step that keeps what is outside the block `i`, where it leaves the segment `i`
  after :
      (i : ℕ) (s s' : F)
      → Apart
      → i < count
      → Loaded i s
      → (Loadable m table i → Stands s' i)
      → ((a : ℕ)
          → (Loadable m table i → (a < from i) ⊎ (from i + size i ≤ a))
          → fw.memory s' a ≡ fw.memory s a)
      → Loaded (i + 1) s'
  after i s s' apart h (table_kept, stands) here kept = (
    λ a above below.
        kept a (λ l.
          clear_of a (from i) (size i) table (header_at table count) (apart.from_table i h l) above
            below)
        ∙ table_kept a above below,
    λ j hj l. elim (Bool-cases (j == i)) [
      | inl same ↦
          subst (Stands s') (sym ((==_iff j i).0 same))
            (here (subst (Loadable m table) ((==_iff j i).0 same) l))
      | inr other ↦ λ k hk.
          kept (from j + k) (λ li.
            clear_of (from j + k) (from i) (size i) (from j) (from j + size j)
              (apart.from_block j i (ground arith) h l li) (omega arith) (omega (arith, hk)))
          ∙ stands j (ground arith) l k hk
    ],
  )

  read_segment-Loaded :
      (i offset n buffer : ℕ) (s : F)
      → Apart
      → i < count
      → Loaded i s
      → Loadable m table i
      → offset ≡ p_offset m (header_at table i)
      → n ≡ size i
      → buffer ≡ from i
      → efi_error (fw.set_position offset s).0 ≡ false
      → efi_error (fw.read n buffer (fw.set_position offset s).1).0 ≡ false
      → Loaded (i + 1) (fw.read n buffer (fw.set_position offset s).1).1
  read_segment-Loaded i offset n buffer s apart h loaded l e_offset e_size e_from good good' =
      let s1 = (fw.set_position offset s).1 in
      let s2 = (fw.read n buffer s1).1 in
      let in_file = apart.in_file i h l in
      let at =
        calls.set_position-position offset s (omega (arith, e_offset, in_file)) apart.file_end
          good in
      after i s s2 apart h loaded
        (λ li k hk.
          ap (λ b. fw.memory s2 (b + k)) (sym e_from)
          ∙ calls.read-inside n buffer k s1 good' (omega (arith, hk, e_size))
              (omega (arith, e_from, e_size, apart.block_end i h l))
              (omega (arith, at, e_offset, e_size, in_file))
          ∙ ap (λ p. file (p + k)) (at ∙ e_offset))
        (λ a o.
          calls.read-outside n buffer a s1 (omega (arith, o l, e_from, e_size))
          ∙ calls.set_position-memory offset a s)

  load_segment-Loaded :
      (i : ℕ) (s : F)
      → Apart
      → i < count
      → Loaded i s
      → Post ⊥ (λ done s'. Loaded (i + 1) s') (load_segment fw table allocated i s)
  unfolding load_segment
  load_segment-Loaded i s apart h loaded =
      let m' = fw.memory s in
      let offset = p_offset m' (header_at table i) in
      let (type_same, offset_same, size_same, from_same) =
        same_fields m' i loaded.0 apart.table_end h in
      Post-if ⊥ _ (p_type m' (header_at table i) == pt_load) _ (pure tt) s
        (λ e. Post-bind ⊥ _ (checked (fw.set_position offset)) _ s (
          Post-checked ⊥ _ (fw.set_position offset) s (λ good.
            let s1 = (fw.set_position offset s).1 in
            Post-if ⊥ _ (p_filesz m' (header_at table i) == 0) (pure tt) _ s1
              (λ empty.
                after i s s1 apart h loaded
                  (λ l k hk. absurd (
                    omega
                      (arith, hk, size_same, (==_iff (p_filesz m' (header_at table i)) 0).0 empty)))
                  (λ a o. calls.set_position-memory offset a s))
              (λ full.
                Post-bind ⊥ _
                  (checked (
                    fw.read (p_filesz m' (header_at table i))
                      (section_address m' table allocated i)))
                  _ s1
                  (Post-checked ⊥ _
                    (fw.read (p_filesz m' (header_at table i))
                      (section_address m' table allocated i))
                    s1
                    (λ good'.
                      read_segment-Loaded i offset (p_filesz m' (header_at table i))
                        (section_address m' table allocated i) s apart h loaded
                        (sym type_same ∙ (==_iff (p_type m' (header_at table i)) pt_load).0 e)
                        offset_same size_same from_same good good'))))))
        (λ e.
          after i s s apart h loaded
            (λ l. absurd (false_type (p_type m' (header_at table i)) pt_load e (type_same ∙ l)))
            (λ a o. refl))

  load_segments-Loaded :
      (rounds i : ℕ) (s : F)
      → i + rounds ≡ count
      → Apart
      → Loaded i s
      → Post ⊥ (λ done s'. Loaded count s') (load_segments fw table allocated rounds i s)
  unfolding load_segments
  load_segments-Loaded zero i s all apart loaded =
      subst (λ n. Loaded n s) (omega (arith, all)) loaded
  load_segments-Loaded (suc rounds) i s all apart loaded =
      Post-bind ⊥ _ (load_segment fw table allocated i) _ s (
        Post-mono ⊥ _ _ (load_segment fw table allocated i s)
          (λ done s' loaded'.
            load_segments-Loaded rounds (i + 1) s' (omega (arith, all)) apart loaded')
          (load_segment-Loaded i s apart (omega (arith, all)) loaded))

  -- The loop that loads the segments returns from `BootKernel`, or leaves each loadable segment in memory as it
  -- stands in the file: at its place in the image, for all of its size in the file. The segments lie inside the
  -- file, and their blocks are apart from each other and from the program headers, which are read from memory.
  pub load_segments-load_segment :
      (s : F)
      → Apart
      → fw.memory s ≡ m
      → Post ⊥
          (λ done s'. (i : ℕ) → i < count → Loadable m table i → Stands s' i)
          (load_segments fw table allocated count 0 s)
  load_segments-load_segment s apart same =
      Post-mono ⊥ _ _ (load_segments fw table allocated count 0 s) (λ done s' loaded. loaded.1)
        (load_segments-Loaded count 0 s (omega arith) apart
          ((λ a above below. ap (λ f. f a) same), λ i h l. absurd (omega (arith, h))))
