-- ===== src/Kernel/Interrupts/Stacks.antt =====
-- The task state that `InitializeISR` (arch/kernel/x86_64/ISR.c) sets up, as the processor reads it.
use pious_os.Base.{
  ℕ, ◌+◌, ◌-◌, ◌*◌, ◌%◌, ◌^◌, ◌<◌, ◌≡◌, ap, arith, ◌==◌, if◌then◌else◌, ◌&&◌, leb, Option, some,
  none,
}
use pious_os.Kernel.Interrupts.Gates.{Pusher}
use pious_os.Kernel.Interrupts.Setup.{
  Linker, Processor, Tss64, TssLdtEntry, initialize_isr, set_stacks,
}
use pious_os.Kernel.Interrupts.Vectors.{stack_of, initialize_isr-HasGate}

-- The quadword at a byte offset of the packed `TSS64_STRUCT`: 4 bytes are reserved before `RSP0`, and 8
-- before `IST0`.
abbrev pub tss_word : Tss64 → ℕ → ℕ
tss_word t offset =
    if offset == 4
    then t.rsp0
    else if offset == 12
    then t.rsp1
    else if offset == 20
    then t.rsp2
    else if offset == 36
    then t.ist0
    else if offset == 44
    then t.ist1
    else if offset == 52
    then t.ist2
    else if offset == 60
    then t.ist3
    else if offset == 68
    then t.ist4
    else if offset == 76
    then t.ist5
    else if offset == 84
    then t.ist6
    else if offset == 92
    then t.ist7
    else 0

-- The stack that the processor takes for a gate: it reads the pointer of stack `n`, from 1 to 7, 36 + 8 (n - 1)
-- bytes into the task state.
abbrev pub stack_for : Processor → ℕ → ℕ
stack_for c v = tss_word c.tss64 (36 + 8 * ((c.idt v).ist_and_zero - 1))

gate_stack :
    (l : Linker) (c : Processor)
    → ((p : Pusher) → l.pusher p < 2 ^ 64)
    → (v : ℕ) → v < 256
    → stack_for (initialize_isr l c) v ≡ tss_word (set_stacks l c.tss64) (36 + 8 * (stack_of v - 1))
unfolding initialize_isr
gate_stack l c a v h =
    let (p, g) = initialize_isr-HasGate l c v a h in
    ap (λ n. tss_word (set_stacks l c.tss64) (36 + 8 * (n - 1))) g.stack

-- The fields of the stacks stand one place behind those that the processor reads: the NMI runs on the
-- stack at `IST0`, which `InitializeISR` leaves as it was, the double fault and the machine check both on
-- `DF_stack`, and the breakpoint on `MC_stack`. The linker's addresses have 64 bits.
pub initialize_isr-stack_for :
    (l : Linker) (c : Processor)
    → ((p : Pusher) → l.pusher p < 2 ^ 64)
    → (stack_for (initialize_isr l c) 2 ≡ c.tss64.ist0)
      × (stack_for (initialize_isr l c) 8 ≡ (l.df_stack + 2 ^ 12) % 2 ^ 64)
      × (stack_for (initialize_isr l c) 18 ≡ (l.df_stack + 2 ^ 12) % 2 ^ 64)
      × (stack_for (initialize_isr l c) 3 ≡ (l.mc_stack + 2 ^ 12) % 2 ^ 64)
unfolding initialize_isr set_stacks
initialize_isr-stack_for l c a =
    let at = gate_stack l c a in
    (at 2 (omega arith), at 8 (omega arith), at 18 (omega arith), at 3 (omega arith))

-- the base address in a task state descriptor, as the processor puts it together
abbrev pub base_of : TssLdtEntry → ℕ
base_of e =
    e.base_address1 + e.base_address2 * 2 ^ 16 + e.base_address3 * 2 ^ 24 + e.base_address4 * 2 ^ 32

-- The task state descriptor that the task register selects: it is entry 3 of the table of eight-byte entries, all
-- of whose 16 bytes are below the limit.
abbrev pub selected : Processor → Option TssLdtEntry
selected c =
    if c.task_register == 8 * 3 && leb (c.task_register + 15) c.gdtr.limit
    then some c.gdt_tss
    else none
