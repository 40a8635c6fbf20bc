-- ===== src/Kernel/Interrupts/Gates.antt =====
-- The gates of the interrupt table (arch/kernel/x86_64/ISR.c and system.h), and the handlers.
use pious_os.Base.{ℕ, ◌/◌, ◌%◌, ◌^◌, ◌==◌, if◌then◌else◌}

-- `IDT_GATE_STRUCT`
pub record IdtGate : Type 0 where
  pub offset1 : ℕ
  pub segment_selector : ℕ
  pub ist_and_zero : ℕ
  pub misc : ℕ
  pub offset2 : ℕ
  pub offset3 : ℕ
  pub reserved : ℕ

-- `IDT_data`
abbrev pub Idt : Type 0
Idt = ℕ → IdtGate

unfoldable pub set_gate : ℕ → IdtGate → Idt → Idt
set_gate isr_num gate idt v = if v == isr_num then gate else idt v

-- The entries that the setters write, by their interrupt stack and type.
unfoldable pub entry : ℕ → ℕ → ℕ → IdtGate
entry ist misc isr_addr = record {
  offset1 = isr_addr % 2 ^ 16;
  segment_selector = 0x08;
  ist_and_zero = ist;
  misc = misc;
  offset2 = isr_addr / 2 ^ 16 % 2 ^ 16;
  offset3 = isr_addr / 2 ^ 32 % 2 ^ 32;
  reserved = 0;
}

unfoldable pub set_interrupt_entry : ℕ → ℕ → Idt → Idt
set_interrupt_entry isr_num isr_addr = set_gate isr_num (entry 0 0x8e isr_addr)

unfoldable pub set_trap_entry : ℕ → ℕ → Idt → Idt
set_trap_entry isr_num isr_addr = set_gate isr_num (entry 0 0x8f isr_addr)

unfoldable pub set_unused_entry : ℕ → Idt → Idt
set_unused_entry isr_num = set_gate isr_num (entry 0 0x0e 0)

unfoldable pub set_nmi_interrupt_entry : ℕ → ℕ → Idt → Idt
set_nmi_interrupt_entry isr_num isr_addr = set_gate isr_num (entry 1 0x8e isr_addr)

unfoldable pub set_df_interrupt_entry : ℕ → ℕ → Idt → Idt
set_df_interrupt_entry isr_num isr_addr = set_gate isr_num (entry 2 0x8e isr_addr)

unfoldable pub set_mc_interrupt_entry : ℕ → ℕ → Idt → Idt
set_mc_interrupt_entry isr_num isr_addr = set_gate isr_num (entry 3 0x8e isr_addr)

unfoldable pub set_bp_interrupt_entry : ℕ → ℕ → Idt → Idt
set_bp_interrupt_entry isr_num isr_addr = set_gate isr_num (entry 4 0x8e isr_addr)

-- The routines of ISR_asm.S that `InitializeISR` enters into the table.
pub data Pusher : Type 0 where
  de_isr_pusher0 db_isr_pusher1 nmi_isr_pusher2 bp_isr_pusher3 of_isr_pusher4 br_isr_pusher5 :
      Pusher
  ud_isr_pusher6 nm_isr_pusher7 df_exc_pusher8 cso_isr_pusher9 ts_exc_pusher10 : Pusher
  np_exc_pusher11 ss_exc_pusher12 gp_exc_pusher13 pf_exc_pusher14 mf_isr_pusher16 : Pusher
  ac_exc_pusher17 mc_isr_pusher18 xm_isr_pusher19 ve_isr_pusher20 sx_exc_pusher30 : Pusher
  cpu_isr_pusher user_isr_pusher : ℕ → Pusher

-- The code with which the handler of each routine calls `Abort`.
unfoldable pub handler : Pusher → ℕ
handler de_isr_pusher0 = 0
handler db_isr_pusher1 = 1
handler nmi_isr_pusher2 = 2
handler bp_isr_pusher3 = 3
handler of_isr_pusher4 = 4
handler br_isr_pusher5 = 5
handler ud_isr_pusher6 = 6
handler nm_isr_pusher7 = 7
handler df_exc_pusher8 = 8
handler cso_isr_pusher9 = 9
handler ts_exc_pusher10 = 10
handler np_exc_pusher11 = 11
handler ss_exc_pusher12 = 12
handler gp_exc_pusher13 = 13
handler pf_exc_pusher14 = 14
handler mf_isr_pusher16 = 16
handler ac_exc_pusher17 = 17
handler mc_isr_pusher18 = 18
handler xm_isr_pusher19 = 19
handler ve_isr_pusher20 = 20
handler sx_exc_pusher30 = 30
handler (cpu_isr_pusher n) = 0xffff_ffff_ffff_ffff
handler (user_isr_pusher n) = 0xffff_ffff_ffff_ffff
