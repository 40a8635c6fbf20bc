-- ===== src/Kernel/Interrupts/Tests.antt =====
-- The interrupt table at concrete addresses.
use pious_os.Base.{◌+◌, ◌*◌, ◌%◌, ◌^◌, ◌<◌, ◌≡◌, arith}
use pious_os.Kernel.Interrupts.Gates.{Pusher}
use pious_os.Kernel.Interrupts.Setup.{Linker, Processor, initial_gdt_tss, initialize_isr}
use pious_os.Kernel.Interrupts.Vectors.{HasGate, number, initialize_isr-HasGate}
use pious_os.Kernel.Interrupts.Stacks.{stack_for, initialize_isr-stack_for}

-- each routine takes 64 bytes
abbrev linker : Linker
linker = record {
  pusher = λ p. (0xffff_8000_0000_0000 + 64 * number p) % 2 ^ 64;
  minimal_gdt = 0x1000;
  tss64 = 0xffff_8000_0001_2340;
  idt_data = 0x2000;
  nmi_stack = 0x1_0000;
  df_stack = 0x2_0000;
  mc_stack = 0x3_0000;
  bp_stack = 0x4_0000;
}

linker-lt : (p : Pusher) → linker.pusher p < 2 ^ 64
linker-lt p = omega arith

abbrev start : Processor
start = record {
  cr0 = 0x11;
  cr4 = 0x20;
  gdtr = record { limit = 0; base_address = 0 };
  idtr = record { limit = 0; base_address = 0 };
  task_register = 0;
  gdt_tss = initial_gdt_tss;
  code_segment = 0x38;
  data_segments = 0x30;
  tss64 = record {
    rsp0 = 0;
    rsp1 = 0;
    rsp2 = 0;
    ist0 = 0;
    ist1 = 0;
    ist2 = 0;
    ist3 = 0;
    ist4 = 0;
    ist5 = 0;
    ist6 = 0;
    ist7 = 0;
  };
  idt = λ v. record {
    offset1 = 0;
    segment_selector = 0;
    ist_and_zero = 0;
    misc = 0;
    offset2 = 0;
    offset3 = 0;
    reserved = 0;
  };
}

initialize_isr-HasGate_example :
    (p : Pusher) × HasGate linker 14 ((initialize_isr linker start).idt 14) p
initialize_isr-HasGate_example = initialize_isr-HasGate linker start 14 linker-lt (omega arith)

initialize_isr-stack_for_example :
    (stack_for (initialize_isr linker start) 2 ≡ 0)
    × (stack_for (initialize_isr linker start) 8 ≡ 0x2_1000)
    × (stack_for (initialize_isr linker start) 18 ≡ 0x2_1000)
    × (stack_for (initialize_isr linker start) 3 ≡ 0x3_1000)
initialize_isr-stack_for_example = initialize_isr-stack_for linker start linker-lt
