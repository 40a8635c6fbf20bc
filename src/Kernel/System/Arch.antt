-- ===== src/Kernel/System/Arch.antt =====
-- The routines of arch/kernel/x86_64/system.c and arch/kernel/aarch64/system.c. `debug` is whether DEBUG_PIOUS
-- is defined; without it `Abort` of x86_64 does not compile.
use pious_os.Base.{
  ℕ, zero, suc, ◌+◌, ◌-◌, ◌%◌, ◌^◌, Bool, true, false, Option, some, List, [], ◌∷◌, ◌>>=◌, ◌==◌,
  if◌then◌else◌,
}
use pious_os.Kernel.Graphics.Screen.{GraphicsMode, Memory, Screen, initialize_display}
use pious_os.Kernel.Print.Format.{Floats}
use pious_os.Kernel.Print.Debug.{print_text, print_debug_message, print_error_code}
use pious_os.Kernel.Memory.Map.{MemorySettings, initialize_memory}
use pious_os.Kernel.Interrupts.Setup.{Linker, Processor, initialize_isr}

-- `LOADER_PARAMS`, as far as `InitializeSystem` reads it; `gpu_array0` is `GPU_Configs->GPUArray[0]`.
pub record LoaderParams : Type 0 where
  pub memory_map : ℕ
  pub memory_map_size : ℕ
  pub memory_map_descriptor_size : ℕ
  pub memory_map_descriptor_version : ℕ
  pub gpu_array0 : GraphicsMode

-- The kernel's globals: `mainMemorySettings`, the display, and the processor's tables.
pub record System : Type 0 where
  pub main_memory_settings : MemorySettings
  pub screen : Screen
  pub processor : Processor

-- `InitializeSystem`, before its message.
unfoldable pub initialize_system : Linker → LoaderParams → Memory → Processor → System
initialize_system l parameters m c = record {
  main_memory_settings =
      initialize_memory parameters.memory_map_size parameters.memory_map_size parameters.memory_map
        parameters.memory_map_descriptor_version;
  screen = initialize_display parameters.gpu_array0 m;
  processor = initialize_isr l c;
}

-- "System Initialized\n"
abbrev pub initialized_text : List ℕ
initialized_text =
    b'S' ∷ b'y' ∷ b's' ∷ b't' ∷ b'e' ∷ b'm' ∷ b' ' ∷ b'I' ∷ b'n' ∷ b'i' ∷ b't' ∷ b'i' ∷ b'a' ∷ b'l'
    ∷ b'i' ∷ b'z' ∷ b'e' ∷ b'd' ∷ 10 ∷ []

-- The end of `InitializeSystem`.
unfoldable pub report_start : Floats → Bool → System → Option System
report_start F false system = some system
report_start F true system = do
  s ← print_debug_message F initialized_text system.screen
  some (record system { screen = s })

-- "ERROR"
abbrev pub error_text : List ℕ
error_text = b'E' ∷ b'R' ∷ b'R' ∷ b'O' ∷ b'R' ∷ []

-- `Abort`: the screen on which the processor halts. Without DEBUG_PIOUS the code is not printed, and only the
-- text of aarch64 compiles.
unfoldable pub abort : Floats → Bool → ℕ → Screen → Option Screen
abort F false error_code s = print_text F error_text s
abort F true error_code s = print_error_code F error_code [] s

-- Memory by bytes. The result of `CompareMemory` is an `int16_t`, as its pattern of 16 bits.
abbrev pub Bytes : Type 0
Bytes = ℕ → ℕ

unfoldable pub compare_memory : Bytes → ℕ → ℕ → ℕ → ℕ
compare_memory m addr1 addr2 zero = 0
compare_memory m addr1 addr2 (suc length) =
    let rest = compare_memory m addr1 addr2 length in
    if m addr1 == m addr2 then rest else (m addr2 + 2 ^ 16 - m addr1) % 2 ^ 16

unfoldable pub store : Bytes → ℕ → ℕ → Bytes
store m a v b = if b == a then v else m b

-- Each round stores a byte and moves both addresses on.
unfoldable pub copy_memory : Bytes → ℕ → ℕ → ℕ → Bytes
copy_memory m addr1 addr2 zero = m
copy_memory m addr1 addr2 (suc length) =
    copy_memory (store m addr1 (m addr2)) ((addr1 + 1) % 2 ^ 64) ((addr2 + 1) % 2 ^ 64) length
