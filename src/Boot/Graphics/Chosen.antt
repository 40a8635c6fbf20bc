-- ===== src/Boot/Graphics/Chosen.antt =====
-- The modes that the menus and the searches of `InitUEFI_GOP` (src/bootloader/boot.c) choose.
use pious_os.Base.{
  ℕ, zero, suc, ◌+◌, ◌-◌, ◌%◌, ◌^◌, ◌≤◌, ◌<◌, ◌≡◌, false, ◌&&◌, ltb, ◌==◌, if◌then◌else◌, ltb→ge,
  arith,
}
use pious_os.Boot.Image.Firmware.{Firmware, Run, pure}
use pious_os.Boot.Image.Post.{Post, Post-bind, Post-mono, Post-if, Post-always}
use pious_os.Boot.Graphics.Modes.{
  GraphicsCalls, is_other_key, menu_timeout, query, list_modes, find_mode, mode_1024, wait_key,
  timed_menu, single_mode, read_key, menu, menu_mode,
}

-- A device has a mode, and their numbers are digits of 32 bits.
abbrev pub HasModes : ℕ → Type 0
HasModes count = (0 < count) × (count < 2 ^ 31)

digit_below : (count key : ℕ) → HasModes count → is_other_key count key ≡ false → key - 0x30 < count
digit_below count key h e =
    let low : ltb key 0x30 ≡ false = ground arith in
    let high : ltb ((0x30 + count + 2 ^ 32 - 1) % 2 ^ 32) key ≡ false = ground arith in
    omega
      (arith, h.0, h.1, ltb→ge key 0x30 low, ltb→ge ((0x30 + count + 2 ^ 32 - 1) % 2 ^ 32) key high)

or_first : (count mode : ℕ) → 0 < count → mode ≤ count → (if mode == count then 0 else mode) < count
or_first count mode h h' = ground arith

module _ {F : Type 0} (fw : Firmware F) (gop : GraphicsCalls F) where
  pub menu_below :
      (show : Run F (Unit {0})) (count tries fuel key : ℕ) (s : F)
      → HasModes count
      → Post Unit (λ mode s'. mode < count) (menu fw gop show count tries fuel key s)
  unfolding menu
  menu_below show count tries zero key s h = tt
  menu_below show count tries (suc fuel) key s h =
      Post-if Unit _ (is_other_key count key) _ (pure (key - 0x30)) s
        (λ e. Post-bind Unit _ show _ s (
          Post-always _ (show s) (λ shown s1. Post-bind Unit _ (read_key fw gop tries) _ s1 (
            Post-always _ (read_key fw gop tries s1)
              (λ key' s2. menu_below show count tries fuel key' s2 h)))))
        (λ e. digit_below count key h e)

  timed_menu_below :
      (device fuel seconds key : ℕ) (s : F)
      → HasModes (gop.max_mode device)
      → Post Unit
          (λ mode s'. mode < gop.max_mode device)
          (timed_menu fw gop device fuel seconds key s)
  unfolding timed_menu
  timed_menu_below device zero seconds key s h = tt
  timed_menu_below device (suc fuel) seconds key s h =
      Post-if Unit _ (is_other_key (gop.max_mode device) key) _ (pure (key - 0x30)) s
        (λ e. Post-bind Unit _ (list_modes fw gop device (gop.max_mode device) 0) _ s (
          Post-always _ (list_modes fw gop device (gop.max_mode device) 0 s) (λ listed s1.
            Post-bind Unit _ (wait_key fw gop seconds key) _ s1 (
              Post-always _ (wait_key fw gop seconds key s1) (λ waited s2.
                Post-if Unit _ (waited.0 == 0) (pure 0)
                  (timed_menu fw gop device fuel waited.0 waited.1) s2 (λ e'. h.0)
                  (λ e'. timed_menu_below device fuel waited.0 waited.1 s2 h))))))
        (λ e. digit_below (gop.max_mode device) key h e)

  find_mode_below :
      (device rounds mode : ℕ) (s : F)
      → Post Unit (λ found s'. found ≤ mode + rounds) (find_mode fw gop device rounds mode s)
  unfolding find_mode
  find_mode_below device zero mode s = omega arith
  find_mode_below device (suc rounds) mode s = Post-bind Unit _ (query fw gop device mode) _ s (
      Post-always _ (query fw gop device mode s) (λ info s1.
        Post-if Unit _ (info.horizontal_resolution == 1024 && info.vertical_resolution == 768)
          (pure mode) (find_mode fw gop device rounds (mode + 1)) s1 (λ e. omega arith)
          (λ e.
            Post-mono Unit _ _ (find_mode fw gop device rounds (mode + 1) s1)
              (λ found s2 h. omega (arith, h)) (find_mode_below device rounds (mode + 1) s1))))

  -- the choice of a mode that the device has
  abbrev pub Chooses : (ℕ → Run F ℕ) → Type 0
  Chooses choose =
      (device : ℕ) (s : F) → Post Unit (λ mode s'. mode < gop.max_mode device) (choose device s)

  module _ (modes : (device : ℕ) → HasModes (gop.max_mode device)) where
    pub menu_mode-Chooses : (fuel : ℕ) → Chooses (menu_mode fw gop fuel)
    unfolding menu_mode
    menu_mode-Chooses fuel device s =
        let count = gop.max_mode device in
        Post-if Unit _ (count == 1) (pure 0) _ s (λ e. (modes device).0)
          (λ e. menu_below (list_modes fw gop device count 0) count fuel fuel 0 s (modes device))

    pub single_mode-Chooses : (fuel : ℕ) → Chooses (single_mode fw gop fuel)
    unfolding single_mode
    single_mode-Chooses fuel device s =
        Post-if Unit _ (gop.max_mode device == 1) (pure 0) _ s (λ e. (modes device).0)
          (λ e. timed_menu_below device fuel menu_timeout 0 s (modes device))

    pub mode_1024-Chooses : Chooses (mode_1024 fw gop)
    unfolding mode_1024
    mode_1024-Chooses device s =
        Post-bind Unit _ (find_mode fw gop device (gop.max_mode device) 0) _ s (
          Post-mono Unit _ _ (find_mode fw gop device (gop.max_mode device) 0 s)
            (λ mode s1 h. or_first (gop.max_mode device) mode (modes device).0 (omega (arith, h)))
            (find_mode_below device (gop.max_mode device) 0 s))
