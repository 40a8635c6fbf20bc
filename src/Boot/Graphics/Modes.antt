-- ===== src/Boot/Graphics/Modes.antt =====
-- How `InitUEFI_GOP` (src/bootloader/boot.c) chooses the mode of a graphics device. A `while` loop over keys
-- takes fuel. The messages are left out.
use pious_os.Base.{
  ℕ, zero, suc, ◌+◌, ◌-◌, ◌%◌, ◌^◌, Bool, true, false, ◌&&◌, ◌||◌, ltb, ◌==◌, if◌then◌else◌,
}
use pious_os.Boot.Search.{Status, not_ready}
use pious_os.Boot.Image.Firmware.{Firmware, out_of_fuel, Run, pure, called, checked, ◌>>=◌}

-- `EFI_GRAPHICS_OUTPUT_MODE_INFORMATION`, the fields that the loader or the kernel reads
pub record ModeInformation : Type 0 where
  pub horizontal_resolution : ℕ
  pub vertical_resolution : ℕ
  pub pixels_per_scan_line : ℕ

-- `EFI_GRAPHICS_OUTPUT_PROTOCOL_MODE`
pub record Mode : Type 0 where
  pub mode : ℕ
  pub info : ModeInformation
  pub size_of_info : ℕ
  pub frame_buffer_base : ℕ
  pub frame_buffer_size : ℕ

-- The calls for graphics devices, which are numbered like `GraphicsHandles`, and for keys. `max_mode` is the
-- number of modes of a device.
pub record GraphicsCalls (F : Type 0) : Type 0 where
  pub max_mode : ℕ → ℕ
  pub open_protocol : ℕ → F → Status × F
  -- what stands behind `GOPTable->Mode`
  pub current : ℕ → F → Mode
  -- with the address of the information's pool
  pub query_mode : ℕ → ℕ → F → (Status × ModeInformation × ℕ) × F
  pub set_mode : ℕ → ℕ → F → Status × F
  -- whether a second has passed without a key
  pub wait_for_key : F → Bool × F
  pub read_key_stroke : F → (Status × ℕ) × F
  -- `sizeof(EFI_GRAPHICS_OUTPUT_PROTOCOL_MODE)`
  pub mode_size : ℕ

unfoldable pub is_not_ready : Status → Bool
is_not_ready not_ready = true
is_not_ready status = false

-- The key is none of the digits for `count` choices.
abbrev pub is_other_key : ℕ → ℕ → Bool
is_other_key count key = ltb key 0x30 || ltb ((0x30 + count + 2 ^ 32 - 1) % 2 ^ 32) key

-- GPU_MENU_TIMEOUT_SECONDS
abbrev pub menu_timeout : ℕ
menu_timeout = 90

module _ {F : Type 0} (fw : Firmware F) (gop : GraphicsCalls F) where
  -- `QueryMode`, and the release of its pool
  unfoldable pub query : ℕ → ℕ → Run F ModeInformation
  query device mode = do
    answer ← called (gop.query_mode device mode)
    status ← checked (λ s. (answer.0, s))
    freed ← checked (fw.free_pool answer.2)
    pure answer.1

  -- the list of the modes, from `mode` on
  unfoldable pub list_modes : ℕ → ℕ → ℕ → Run F (Unit {0})
  list_modes device zero mode = pure tt
  list_modes device (suc rounds) mode = do
    info ← query device mode
    list_modes device rounds (mode + 1)

  -- The search for the mode of 1024 by 768, from `mode` on. Behind the last mode it ends at `MaxMode`.
  unfoldable pub find_mode : ℕ → ℕ → ℕ → Run F ℕ
  find_mode device zero mode = pure mode
  find_mode device (suc rounds) mode = do
    info ← query device mode
    (if info.horizontal_resolution == 1024 && info.vertical_resolution == 768
        then pure mode
        else find_mode device rounds (mode + 1))

  unfoldable pub mode_1024 : ℕ → Run F ℕ
  mode_1024 device = do
    mode ← find_mode device (gop.max_mode device) 0
    pure (if mode == gop.max_mode device then 0 else mode)

  -- `while(timeout_seconds)`: the seconds that are left, and the key
  unfoldable pub wait_key : ℕ → ℕ → Run F (ℕ × ℕ)
  wait_key zero key = pure (0, key)
  wait_key (suc seconds) key = do
    timed_out ← called gop.wait_for_key
    (if timed_out then wait_key seconds key else do
      stroke ← called gop.read_key_stroke
      status ← checked (λ s. (stroke.0, s))
      pure (suc seconds, stroke.1))

  -- the menu with a timeout, for a single device
  unfoldable pub timed_menu : ℕ → ℕ → ℕ → ℕ → Run F ℕ
  timed_menu device zero seconds key s = (out_of_fuel, s)
  timed_menu device (suc fuel) seconds key s =
      (if is_other_key (gop.max_mode device) key
          then (do
            listed ← list_modes device (gop.max_mode device) 0
            waited ← wait_key seconds key
            (if waited.0 == 0 then pure 0 else timed_menu device fuel waited.0 waited.1))
          else pure (key - 0x30))
        s

  unfoldable pub single_mode : ℕ → ℕ → Run F ℕ
  single_mode fuel device =
      if gop.max_mode device == 1 then pure 0 else timed_menu device fuel menu_timeout 0

  -- `while(ReadKeyStroke(...) == EFI_NOT_READY)`
  unfoldable pub read_key : ℕ → Run F ℕ
  read_key zero s = (out_of_fuel, s)
  read_key (suc fuel) s =
      (do
        stroke ← called gop.read_key_stroke
        (if is_not_ready stroke.0 then read_key fuel else pure stroke.1))
        s

  -- A menu without a timeout: the digit of one of `count` choices; `show` is what a round does first.
  unfoldable pub menu : Run F (Unit {0}) → ℕ → ℕ → ℕ → ℕ → Run F ℕ
  menu show count tries zero key s = (out_of_fuel, s)
  menu show count tries (suc fuel) key s =
      (if is_other_key count key
          then (do shown ← show; key' ← read_key tries; menu show count tries fuel key')
          else pure (key - 0x30))
        s

  unfoldable pub menu_mode : ℕ → ℕ → Run F ℕ
  menu_mode fuel device =
      if gop.max_mode device == 1
      then pure 0
      else menu (list_modes device (gop.max_mode device) 0) (gop.max_mode device) fuel fuel 0
