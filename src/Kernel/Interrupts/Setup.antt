-- ===== src/Kernel/Interrupts/Setup.antt =====
-- `InitializeISR` of arch/kernel/x86_64/ISR.c: control registers, tables, stacks and gates.
use pious_os.Base.{ℕ, ◌+◌, ◌-◌, ◌*◌, ◌/◌, ◌%◌, ◌^◌, for_range}
use Prim.Native.Nat.{bit_or}
use pious_os.Kernel.Interrupts.Gates.{
  Idt, Pusher, set_interrupt_entry, set_nmi_interrupt_entry, set_mc_interrupt_entry,
  set_bp_interrupt_entry, de_isr_pusher0, db_isr_pusher1, nmi_isr_pusher2, bp_isr_pusher3,
  of_isr_pusher4, br_isr_pusher5, ud_isr_pusher6, nm_isr_pusher7, df_exc_pusher8, cso_isr_pusher9,
  ts_exc_pusher10, np_exc_pusher11, ss_exc_pusher12, gp_exc_pusher13, pf_exc_pusher14,
  mf_isr_pusher16, ac_exc_pusher17, mc_isr_pusher18, xm_isr_pusher19, ve_isr_pusher20,
  sx_exc_pusher30, cpu_isr_pusher, user_isr_pusher,
}

-- `TSS64_STRUCT`, without its reserved fields
pub record Tss64 : Type 0 where
  pub rsp0 : ℕ
  pub rsp1 : ℕ
  pub rsp2 : ℕ
  pub ist0 : ℕ
  pub ist1 : ℕ
  pub ist2 : ℕ
  pub ist3 : ℕ
  pub ist4 : ℕ
  pub ist5 : ℕ
  pub ist6 : ℕ
  pub ist7 : ℕ

-- `TSS_LDT_ENTRY_STRUCT`, without its reserved fields
pub record TssLdtEntry : Type 0 where
  pub segment_limit1 : ℕ
  pub base_address1 : ℕ
  pub base_address2 : ℕ
  pub misc1 : ℕ
  pub segment_limit2_and_misc2 : ℕ
  pub base_address3 : ℕ
  pub base_address4 : ℕ

-- `DT_STRUCT`
pub record DtStruct : Type 0 where
  pub limit : ℕ
  pub base_address : ℕ

-- The addresses that the linker gives.
pub record Linker : Type 0 where
  pub pusher : Pusher → ℕ
  pub minimal_gdt : ℕ
  pub tss64 : ℕ
  pub idt_data : ℕ
  pub nmi_stack : ℕ
  pub df_stack : ℕ
  pub mc_stack : ℕ
  pub bp_stack : ℕ

-- What `InitializeISR` sets. `gdt_tss` is `MinimalGDT[3]` and `[4]`, and `data_segments` what the registers DS,
-- ES, FS, GS and SS are all set to.
pub record Processor : Type 0 where
  pub cr0 : ℕ
  pub cr4 : ℕ
  pub gdtr : DtStruct
  pub idtr : DtStruct
  pub task_register : ℕ
  pub code_segment : ℕ
  pub data_segments : ℕ
  pub gdt_tss : TssLdtEntry
  pub tss64 : Tss64
  pub idt : Idt

-- 0x0080890000000067 and 0
abbrev pub initial_gdt_tss : TssLdtEntry
initial_gdt_tss = record {
  segment_limit1 = 0x67;
  base_address1 = 0;
  base_address2 = 0;
  misc1 = 0x89;
  segment_limit2_and_misc2 = 0x80;
  base_address3 = 0;
  base_address4 = 0;
}

unfoldable pub set_tss_base : ℕ → TssLdtEntry → TssLdtEntry
set_tss_base tss e = record e {
  base_address1 = tss % 2 ^ 16;
  base_address2 = tss / 2 ^ 16 % 2 ^ 8;
  base_address3 = tss / 2 ^ 24 % 2 ^ 8;
  base_address4 = tss / 2 ^ 32 % 2 ^ 32;
}

-- `ltr` marks the task state as busy.
unfoldable pub set_busy : TssLdtEntry → TssLdtEntry
set_busy e = record e { misc1 = bit_or e.misc1 2 }

unfoldable pub set_stacks : Linker → Tss64 → Tss64
set_stacks l tss = record tss {
  ist1 = (l.nmi_stack + 2 ^ 12) % 2 ^ 64;
  ist2 = (l.df_stack + 2 ^ 12) % 2 ^ 64;
  ist3 = (l.mc_stack + 2 ^ 12) % 2 ^ 64;
  ist4 = (l.bp_stack + 2 ^ 12) % 2 ^ 64;
}

-- the predefined exceptions
unfoldable pub set_exceptions : (Pusher → ℕ) → Idt → Idt
set_exceptions pusher idt =
    let idt = set_interrupt_entry 0 (pusher de_isr_pusher0) idt in
    let idt = set_interrupt_entry 1 (pusher db_isr_pusher1) idt in
    let idt = set_nmi_interrupt_entry 2 (pusher nmi_isr_pusher2) idt in
    let idt = set_bp_interrupt_entry 3 (pusher bp_isr_pusher3) idt in
    let idt = set_interrupt_entry 4 (pusher of_isr_pusher4) idt in
    let idt = set_interrupt_entry 5 (pusher br_isr_pusher5) idt in
    let idt = set_interrupt_entry 6 (pusher ud_isr_pusher6) idt in
    let idt = set_interrupt_entry 7 (pusher nm_isr_pusher7) idt in
    let idt = set_mc_interrupt_entry 8 (pusher df_exc_pusher8) idt in
    let idt = set_interrupt_entry 9 (pusher cso_isr_pusher9) idt in
    let idt = set_interrupt_entry 10 (pusher ts_exc_pusher10) idt in
    let idt = set_interrupt_entry 11 (pusher np_exc_pusher11) idt in
    let idt = set_interrupt_entry 12 (pusher ss_exc_pusher12) idt in
    let idt = set_interrupt_entry 13 (pusher gp_exc_pusher13) idt in
    let idt = set_interrupt_entry 14 (pusher pf_exc_pusher14) idt in
    let idt = set_interrupt_entry 16 (pusher mf_isr_pusher16) idt in
    let idt = set_interrupt_entry 17 (pusher ac_exc_pusher17) idt in
    let idt = set_mc_interrupt_entry 18 (pusher mc_isr_pusher18) idt in
    let idt = set_interrupt_entry 19 (pusher xm_isr_pusher19) idt in
    let idt = set_interrupt_entry 20 (pusher ve_isr_pusher20) idt in
    set_interrupt_entry 30 (pusher sx_exc_pusher30) idt

-- the vectors that the processor reserves: 15, 21 to 29, and 31
unfoldable pub set_reserved : (Pusher → ℕ) → Idt → Idt
set_reserved pusher idt =
    let idt = set_interrupt_entry 15 (pusher (cpu_isr_pusher 15)) idt in
    let idt = for_range 9 21 (λ n. set_interrupt_entry n (pusher (cpu_isr_pusher n))) idt in
    set_interrupt_entry 31 (pusher (cpu_isr_pusher 31)) idt

-- the vectors from 32 to 255, each by a call of its own
unfoldable pub set_user : (Pusher → ℕ) → Idt → Idt
set_user pusher = for_range 224 32 (λ n. set_interrupt_entry n (pusher (user_isr_pusher n)))

unfoldable pub initialize_isr : Linker → Processor → Processor
initialize_isr l p = record {
  cr0 = bit_or p.cr0 (2 ^ 5);
  cr4 = bit_or p.cr4 (2 ^ 10);
  gdtr = record { limit = 5 * 8 - 1; base_address = l.minimal_gdt };
  idtr = record { limit = 256 * 16 - 1; base_address = l.idt_data };
  task_register = 0x18;
  gdt_tss = set_busy (set_tss_base l.tss64 p.gdt_tss);
  code_segment = 8;
  data_segments = 16;
  tss64 = set_stacks l p.tss64;
  idt = set_user l.pusher (set_reserved l.pusher (set_exceptions l.pusher p.idt));
}
