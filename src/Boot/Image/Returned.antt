-- ===== src/Boot/Image/Returned.antt =====
-- What `BootKernel` (src/bootloader/boot.c) returns from the memory map on, where it does not enter the kernel.
use pious_os.Base.{ℕ, ◌≡◌, refl, ◌⊎◌, inl, inr, Bool, true, false, if◌then◌else◌}
use pious_os.Boot.Search.{Status, efi_error}
use pious_os.Boot.Image.Firmware.{
  Firmware, Result, ok, returned, out_of_fuel, Run, pure, checked, go_on, ◌>>=◌,
}
use pious_os.Boot.Image.Segments.{Image}
use pious_os.Boot.Image.Handover.{
  MapInfo, BootCalls, Inputs, is_too_small, get_map, exited, exit_boot, handover,
}

-- The run ends, with a value or with a status that satisfies `Q`.
abbrev pub Returns : {F A : Type 0} → (Status → Type 0) → Result A × F → Type 0
Returns Q (ok a, s) = Unit
Returns Q (returned status, s) = Q status
Returns Q (out_of_fuel, s) = ⊥

module _ {F : Type 0} (Q : Status → Type 0) where
  Returns-bind :
      {A B : Type 0} (m : Run F A) (f : A → Run F B) (s : F)
      → Returns Q (m s)
      → ((a : A) (s' : F) → Returns Q (f a s'))
      → Returns Q ((m >>= f) s)
  Returns-bind m f s h next = Returns-go (m s) h
    where
      Returns-go : (x : Result _ × _) → Returns Q x → Returns Q (go_on x f)
      Returns-go (ok a, s) h = next a s
      Returns-go (returned status, s) h = h
      Returns-go (out_of_fuel, s) h = h

  Returns-if :
      {A : Type 0} (b : Bool) (m n : Run F A) (s : F)
      → (b ≡ true → Returns Q (m s))
      → (b ≡ false → Returns Q (n s))
      → Returns Q ((if b then m else n) s)
  Returns-if true m n s h h' = h refl
  Returns-if false m n s h h' = h' refl

  Returns-pick :
      (b : Bool) (status : Status) (s : F)
      → (b ≡ true → Q status)
      → Returns Q (if b then returned status else ok status, s)
  Returns-pick true status s h = h refl
  Returns-pick false status s h = tt

  Returns-checked :
      (f : F → Status × F) (s : F)
      → (efi_error (f s).0 ≡ true → Q (f s).0)
      → Returns Q (checked f s)
  Returns-checked f s h = Returns-pick (efi_error (f s).0) (f s).0 (f s).1 h

module _ {F : Type 0} (fw : Firmware F) (boot : BootCalls F) where
  -- The status is that of an `AllocatePool` that failed, or that of the `FreePool` right after an
  -- `ExitBootServices` that failed.
  abbrev pub Excuse : Status → Type 0
  Excuse status =
      ((n : ℕ) × (s : F) × ((fw.allocate_pool n s).0.0 ≡ status) × (efi_error status ≡ true))
      ⊎ ((key : ℕ) × (pool : ℕ) × (s : F) × (efi_error (boot.exit_boot_services key s).0 ≡ true)
          × ((fw.free_pool pool (boot.exit_boot_services key s).1).0 ≡ status))

  allocate-Returns :
      (n : ℕ) (s : F)
      → Returns Excuse (checked (λ s'. ((fw.allocate_pool n s).0.0, s')) (fw.allocate_pool n s).1)
  allocate-Returns n s =
      Returns-checked Excuse (λ s'. ((fw.allocate_pool n s).0.0, s')) (fw.allocate_pool n s).1
        (λ e. inl (n, s, refl, e))

  get_map-Returns :
      (info : MapInfo) (mem_map : ℕ) (s : F) → Returns Excuse (get_map fw boot info mem_map s)
  unfolding get_map
  get_map-Returns info mem_map s =
      let asked = (boot.get_memory_map info mem_map s).0 in
      let s1 = (boot.get_memory_map info mem_map s).1 in
      Returns-if Excuse (is_too_small asked.0) _ (pure (asked.1, mem_map)) s1
        (λ e.
          let pool = (fw.allocate_pool asked.1.size s1).0 in
          Returns-bind Excuse (checked (λ s. (pool.0, s))) _ (fw.allocate_pool asked.1.size s1).1
            (allocate-Returns asked.1.size s1) (λ status s2. tt))
        (λ e. tt)

  exited-Returns :
      (key : ℕ) (map : MapInfo × ℕ) (s : F)
      → Returns Excuse
          (exited fw boot (boot.exit_boot_services key s).0 map (boot.exit_boot_services key s).1)
  unfolding exited
  exited-Returns key map s =
      Returns-if Excuse (efi_error (boot.exit_boot_services key s).0) _ (pure map)
        (boot.exit_boot_services key s).1 (λ e. inr (key, map.1, s, e, refl)) (λ e. tt)

  exit_boot-Returns : (initial : MapInfo) (s : F) → Returns Excuse (exit_boot fw boot initial s)
  unfolding exit_boot
  exit_boot-Returns initial s =
      Returns-bind Excuse (get_map fw boot (record initial { size = 0 }) 0) _ s
        (get_map-Returns (record initial { size = 0 }) 0 s)
        (λ map s1.
          let s2 = (boot.exit_boot_services map.0.key s1).1 in
          Returns-if Excuse (efi_error (boot.exit_boot_services map.0.key s1).0) _ _ s2
            (λ e.
              Returns-bind Excuse (get_map fw boot (record map.0 { size = 0 }) map.1) _
                (fw.free_pool map.1 s2).1
                (get_map-Returns (record map.0 { size = 0 }) map.1 (fw.free_pool map.1 s2).1)
                (λ map' s4. exited-Returns map'.0.key map' s4))
            (λ e. exited-Returns map.0.key map s1))

  -- From the kernel's parameters on, `BootKernel` ends, with the parameters or with a status. That status is the
  -- one of an `AllocatePool` that failed, or, after an `ExitBootServices` that failed, the one of the `FreePool`
  -- that follows it, and never that of `ExitBootServices`.
  pub handover-Returns :
      (block_size : ℕ) (inputs : Inputs) (initial : MapInfo) (image : Image) (s : F)
      → Returns Excuse (handover fw boot block_size inputs initial image s)
  unfolding handover
  handover-Returns block_size inputs initial image s =
      let pool = (fw.allocate_pool block_size s).0 in
      Returns-bind Excuse (checked (λ s. (pool.0, s))) _ (fw.allocate_pool block_size s).1
        (allocate-Returns block_size s)
        (λ status s1.
          Returns-bind Excuse (exit_boot fw boot initial) _ s1 (exit_boot-Returns initial s1)
            (λ map s2. tt))
