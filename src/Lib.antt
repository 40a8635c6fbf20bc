-- ===== src/Lib.antt =====
-- Verification of PiousOS, a small operating system kernel with its boot loader for UEFI.
--
-- `efi_main` of the boot loader (src/bootloader/boot.c) sets up the graphics devices with `InitUEFI_GOP`;
-- `BootKernel` then loads the kernel's segments into free pages, maps them with `MapVirtualPages`, ends the
-- boot services and passes `LOADER_PARAMS` to the kernel. `kernel_main` (src/kernel/kernel.c) calls `InitializeSystem` (arch/kernel/*/system.c), which records the memory map
-- (src/kernel/memory.c), sets up the display (src/kernel/graphics.c) and the interrupt table
-- (arch/kernel/x86_64/ISR.c). All of them report through `PrintString`, which draws characters with
-- `PrintCharacter` and moves the text with `ScrollUp`; the handlers of the interrupts call `Abort`.
--
-- Files:
--   Base and its children: numbers, tests, lists, the counting loop and bit masks.
--   Kernel/Graphics/Font: `font8x8_basic` (inc/kernel/font_8x8.h).
--   Kernel/Graphics/Screen: `TextDisplaySettings` (inc/kernel/graphics.h), and `PrintCharacter`,
--     `ScrollUp`, `ColorScreen`, `InitializeDisplay` and the line feed of src/kernel/graphics.c. The state
--     is a `Screen`: the settings, and memory as 32-bit words by byte address.
--   Kernel/Graphics/{Scroll,Pixels,Cursor,Glyph,Blank}: proofs on scrolling, single pixels, the cursor,
--     the drawn glyph, and the blank screen.
--   Kernel/Print/Number: the numeric conversions of `PrintString`, each as the list of its characters.
--   Kernel/Print/Format: both passes of `PrintString` over the format, the arguments (`VaList`), and the
--     output on the screen.
--   Kernel/Print/Debug: `PrintDebugMessage` and `PrintErrorCode`; Kernel/Print/Reports: the proof that they
--     leave a valid display.
--   Kernel/Print/{Places,Characters,Numerals,Conversions,Octal,Loop,Ends,Texts}: proofs on digits, the
--     characters that a conversion prints, numerals, the conversions, the case `%o`, the loop, its end, and texts.
--   Kernel/Terminal: a text terminal as the abstract view of the display: cells, a cursor, and scrolling by a
--     row; Kernel/Terminal/{Shown,Drawn,Typed,Printed,Started}: what it means that a display shows it, and the
--     proofs that scrolling, characters, line feeds, formats and `InitializeDisplay` keep to it.
--   Kernel/Memory/Map: `MemorySettings` (inc/kernel/memory.h) and the functions of src/kernel/memory.c.
--   Kernel/Memory/{Walk,Found,Ram}: proofs on the walk over the descriptors, the lines it prints, and
--     the results.
--   Kernel/Interrupts/Gates: `IDT_GATE_STRUCT` (arch/kernel/x86_64/system.h), the setters of entries and
--     the handlers of arch/kernel/x86_64/ISR.c; Kernel/Interrupts/Setup: `InitializeISR`.
--   Kernel/Interrupts/{Vectors,Stacks}: proofs on the gates, and on the task state.
--   Kernel/System/Arch: `InitializeSystem`, `CompareMemory` and `CopyMemory` of
--     arch/kernel/x86_64/system.c, `Abort` of arch/kernel/aarch64/system.c, `LOADER_PARAMS`
--     (inc/bootloader/bootloader.h); Kernel/System/{Bytes,Start}: proofs on them. Kernel/System/Entry:
--     `kernel_main` of src/kernel/kernel.c and `InitializeDrivers` of src/kernel/drivers.c;
--     Kernel/System/{Idle,Greeted,Aborted}: the proofs that it gets to its idle loop, and of what the
--     display shows then and after `Abort`.
--   Boot/Search: `Compare`, `VerifyZeroMem`, `ActuallyFreeAddress` and `ActuallyFreeAddressByPage` of
--     src/bootloader/boot.c, on the firmware's answers (`MapCalls`) and the list of its descriptors;
--     Boot/{Blocks,FirstFit,Room}: proofs on the blocks and on the two searches.
--   Boot/Image/Firmware: the calls of the firmware in `BootKernel` (src/bootloader/boot.c), which is a
--     parameter with a state of its own, and the early returns; Boot/Image/Pages: the search for the pages
--     of the kernel's image; Boot/Image/Segments: the ELF headers (inc/bootloader/elf.h) as they stand in
--     memory, the bounds, the segments; Boot/Image/Handover: the kernel's file, `GetMemoryMap`, `ExitBootServices` and the
--     kernel's parameters. Boot/Image/{Post,Onward,Taken,Clean,Found}: postconditions, and the proofs on the
--     search; Boot/Image/{Inside,Loaded,Exited,Returned}: those on the other parts.
--   Boot/Graphics/Names: what `InitUEFI_GOP` (src/bootloader/boot.c) asks the firmware for the names of the
--     devices, and its Wall of Shame; Boot/Graphics/Drivers: its two methods for the names;
--     Boot/Graphics/Listed: the list of the devices, the option, and the whole of `InitUEFI_GOP`;
--     Boot/Graphics/{Answered,Managed,Credited,Screened,Wall}: proofs on the names.
--   Boot/Graphics/{Modes,Devices}: `InitUEFI_GOP` from the choice of the modes on: the menus and the search,
--     the entries of `GPUArray` as a list; Boot/Graphics/{Chosen,Configured,Size,Labels,Reported,Begun}: proofs
--     on the chosen modes, the configured devices, the labels, what the devices report, and on `InitUEFI_GOP` as a whole.
--   Boot/Main: `efi_main` (src/bootloader/boot.c), from the graphics devices to the kernel's entry point;
--     Boot/Main/Entered: the proof of when it gets there.
--   Startup: the call of the entry point as that of `kernel_main`, with the parameters as the kernel reads
--     them; Startup/Shown: the proof on the loader and the kernel together.
--   Boot/Paging/Tables: `MapVirtualPages` (src/bootloader/boot.c) on memory as 64-bit words;
--     Boot/Paging/Words: what the processor reads from them; Boot/Paging/{Entries,Found,Mapped,Kept,Ends}:
--     proofs on the entries, the walk, the mapped pages, the other ones, and the end of the calls.
--   Tests: runs at concrete inputs, and instances of the theorems.
--
-- Conventions: `debug` is whether DEBUG_PIOUS is defined; the Makefile defines it, and without it `Abort` of
-- x86_64 does not compile. A w-bit operation is written with `% 2 ^ w`,
-- also the negation of the least `int` or `long` in `PrintString`, which C leaves open. `none` is a fault or a loop that does not end:
-- a division by zero, a character outside the font, a read behind the end of a format, an argument that is
-- not there. Code that is given from outside is a parameter: floating point (`Floats`), the firmware's
-- headers and its memory map (`Efi`), the addresses that the linker chooses (`Linker`), the answers to the
-- boot loader's calls (`MapCalls`), and the calls themselves (`Firmware`, `BootCalls`, `GraphicsCalls`,
-- `NameCalls`, and `ZeroMem` in `MapVirtualPages`).
--
-- Fuel: the loops of `ScrollUp` have one more than the words of the scrolled area; the loop over the format
-- has the format's length, since a round takes at least one byte; the loop that counts the digits of an
-- integer has 65, more than a 64-bit number has digits to the base 8; that for a double has 400, more than
-- the 309 digits of the largest one; the walk over the memory map has one more than the bytes of the map.
-- The calls of `MapVirtualPages` by itself take fuel above the number of pages. The loops of the search for
-- pages take 2 ^ 64: each round of the search by piece has a higher address; those of the search by page
-- may run on. The menus take any fuel, since a user may press wrong keys for ever.
--
-- Not modelled: the messages of the boot loader, and that the code it jumps to is the kernel's; the
-- release of the pool in the searches for memory; assembly (arch/kernel/x86_64/ISR_asm.S and the stack
-- switch of `kernel_main`); the interrupts of aarch64, which are empty; the headers
-- inc/bootloader/elf.h and pe.h but for the fields that the loader reads.
pub mod Base
pub mod Boot
pub mod Kernel
pub mod Startup
