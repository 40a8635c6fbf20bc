-- ===== src/Kernel/Interrupts/Vectors.antt =====
-- The interrupt table that `InitializeISR` (arch/kernel/x86_64/ISR.c) leaves: each vector has a gate to its
-- own routine.
use pious_os.Base.{
  tabulate-injective, ℕ, ◌+◌, ◌*◌, ◌^◌, ◌≤◌, ◌<◌, ◌≡◌, refl, ◌∙◌, ◌⊎◌, inl, inr, Bool, ◌&&◌, ◌||◌,
  ltb, leb, ◌==◌, if◌then◌else◌, arith, for_range, for_range_inv, List, [], ◌∷◌, get_or, Bool-cases,
  ==_iff, ltb→lt, ltb→ge, ap, false, true,
}
use pious_os.Kernel.Interrupts.Gates.{
  IdtGate, Idt, Pusher, entry, set_gate, set_interrupt_entry, set_nmi_interrupt_entry,
  set_mc_interrupt_entry, set_bp_interrupt_entry, handler, de_isr_pusher0, db_isr_pusher1,
  nmi_isr_pusher2, bp_isr_pusher3, of_isr_pusher4, br_isr_pusher5, ud_isr_pusher6, nm_isr_pusher7,
  df_exc_pusher8, cso_isr_pusher9, ts_exc_pusher10, np_exc_pusher11, ss_exc_pusher12,
  gp_exc_pusher13, pf_exc_pusher14, mf_isr_pusher16, ac_exc_pusher17, mc_isr_pusher18,
  xm_isr_pusher19, ve_isr_pusher20, sx_exc_pusher30, cpu_isr_pusher, user_isr_pusher,
}
use pious_os.Kernel.Interrupts.Setup.{
  Linker, Processor, initialize_isr, set_exceptions, set_reserved, set_user,
}

-- the address in a gate, as the processor puts it together
abbrev pub gate_target : IdtGate → ℕ
gate_target g = g.offset1 + g.offset2 * 2 ^ 16 + g.offset3 * 2 ^ 32

gate_target-entry : (ist misc a : ℕ) → a < 2 ^ 64 → gate_target (entry ist misc a) ≡ a
unfolding entry
gate_target-entry ist misc a h = omega arith

-- the number at the end of a routine's name
abbrev pub number : Pusher → ℕ
number de_isr_pusher0 = 0
number db_isr_pusher1 = 1
number nmi_isr_pusher2 = 2
number bp_isr_pusher3 = 3
number of_isr_pusher4 = 4
number br_isr_pusher5 = 5
number ud_isr_pusher6 = 6
number nm_isr_pusher7 = 7
number df_exc_pusher8 = 8
number cso_isr_pusher9 = 9
number ts_exc_pusher10 = 10
number np_exc_pusher11 = 11
number ss_exc_pusher12 = 12
number gp_exc_pusher13 = 13
number pf_exc_pusher14 = 14
number mf_isr_pusher16 = 16
number ac_exc_pusher17 = 17
number mc_isr_pusher18 = 18
number xm_isr_pusher19 = 19
number ve_isr_pusher20 = 20
number sx_exc_pusher30 = 30
number (cpu_isr_pusher n) = n
number (user_isr_pusher n) = n

-- the vectors below 32 that the processor gives no meaning
abbrev pub is_reserved : ℕ → Bool
is_reserved v = v == 15 || (leb 21 v && ltb v 30) || v == 31

-- the routines of the vectors below 32, in order
abbrev routines : List Pusher
routines =
    de_isr_pusher0
    ∷ db_isr_pusher1
    ∷ nmi_isr_pusher2
    ∷ bp_isr_pusher3
    ∷ of_isr_pusher4
    ∷ br_isr_pusher5
    ∷ ud_isr_pusher6
    ∷ nm_isr_pusher7
    ∷ df_exc_pusher8
    ∷ cso_isr_pusher9
    ∷ ts_exc_pusher10
    ∷ np_exc_pusher11
    ∷ ss_exc_pusher12
    ∷ gp_exc_pusher13
    ∷ pf_exc_pusher14
    ∷ cpu_isr_pusher 15
    ∷ mf_isr_pusher16
    ∷ ac_exc_pusher17
    ∷ mc_isr_pusher18
    ∷ xm_isr_pusher19
    ∷ ve_isr_pusher20
    ∷ cpu_isr_pusher 21
    ∷ cpu_isr_pusher 22
    ∷ cpu_isr_pusher 23
    ∷ cpu_isr_pusher 24
    ∷ cpu_isr_pusher 25
    ∷ cpu_isr_pusher 26
    ∷ cpu_isr_pusher 27
    ∷ cpu_isr_pusher 28
    ∷ cpu_isr_pusher 29
    ∷ sx_exc_pusher30
    ∷ cpu_isr_pusher 31
    ∷ []

abbrev routine : ℕ → Pusher
routine v = get_or routines v (cpu_isr_pusher v)

-- The interrupt stack that the gate of a vector names: 1 for the NMI, 4 for a breakpoint, 3 for a double
-- fault and a machine check, and none (0) for the others.
abbrev pub stack_of : ℕ → ℕ
stack_of v = if v == 2 then 1 else if v == 3 then 4 else if v == 8 || v == 18 then 3 else 0

module _ (pusher : Pusher → ℕ) (idt : Idt) where
  low_gate :
      (v : ℕ)
      → v < 32
      → set_reserved pusher (set_exceptions pusher idt) v
        ≡ entry (stack_of v) 0x8e (pusher (routine v))
  unfolding set_reserved set_exceptions set_gate set_interrupt_entry set_nmi_interrupt_entry
      set_mc_interrupt_entry set_bp_interrupt_entry for_range
  low_gate v h =
      tabulate-injective (set_reserved pusher (set_exceptions pusher idt))
        (λ v. entry (stack_of v) 0x8e (pusher (routine v))) 32 v refl h

  user_gate :
      (v : ℕ)
      → set_user pusher idt v
        ≡ (if leb 32 v && ltb v 256 then entry 0 0x8e (pusher (user_isr_pusher v)) else idt v)
  unfolding set_user set_interrupt_entry set_gate
  user_gate v =
      for_range_inv
        (λ k now.
          now v
          ≡ (if leb 32 v && ltb v k then entry 0 0x8e (pusher (user_isr_pusher v)) else idt v))
        (λ n. set_interrupt_entry n (pusher (user_isr_pusher n))) 256 224 32 idt (omega arith)
        (λ k now lo hi e. elim (Bool-cases (v == k)) [
          | inl here ↦ rw ((==_iff v k).0 here) (ground arith)
          | inr there ↦ rw (there, e) (ground arith)
        ])
        (ground arith)

number-routine : (v : ℕ) → v < 32 → number (routine v) ≡ v
number-routine v h = tabulate-injective (λ v. number (routine v)) (λ v. v) 32 v refl h

handler-routine :
    (v : ℕ) → v < 32 → handler (routine v) ≡ (if is_reserved v then 0xffff_ffff_ffff_ffff else v)
unfolding handler
handler-routine v h =
    tabulate-injective (λ v. handler (routine v))
      (λ v. if is_reserved v then 0xffff_ffff_ffff_ffff else v) 32 v refl h

-- A gate for a vector: present, an interrupt gate of the kernel's code segment, to a routine with the
-- vector's number. Its handler aborts with the number, or with 2 ^ 64 - 1 where the vector has no meaning to
-- the processor.
pub record HasGate (l : Linker) (v : ℕ) (g : IdtGate) (p : Pusher) : Type 0 where
  pub own : number p ≡ v
  pub target : gate_target g ≡ l.pusher p
  pub code_segment : g.segment_selector ≡ 8
  pub interrupt_gate : g.misc ≡ 0x8e
  pub stack : g.ist_and_zero ≡ stack_of v
  pub aborts :
      ((handler p ≡ v) × (v < 32) × (is_reserved v ≡ false))
      ⊎ ((handler p ≡ 0xffff_ffff_ffff_ffff) × ((32 ≤ v) ⊎ (is_reserved v ≡ true)))

module _ (l : Linker) (addresses : (p : Pusher) → l.pusher p < 2 ^ 64) (v : ℕ) where
  HasGate-low :
      (g : IdtGate)
      → v < 32
      → g ≡ entry (stack_of v) 0x8e (l.pusher (routine v))
      → HasGate l v g (routine v)
  unfolding entry
  HasGate-low g h e =
      let run : gate_target g ≡ l.pusher (routine v) =
        ap gate_target e
        ∙ gate_target-entry (stack_of v) 0x8e (l.pusher (routine v)) (addresses (routine v)) in
      record {
        own = number-routine v h;
        target = run;
        code_segment = ap (λ (t : IdtGate). t.segment_selector) e;
        interrupt_gate = ap (λ (t : IdtGate). t.misc) e;
        stack = ap (λ (t : IdtGate). t.ist_and_zero) e;
        aborts = ground (arith, handler-routine v h);
      }

  HasGate-user :
      (g : IdtGate)
      → 32 ≤ v
      → g ≡ entry 0 0x8e (l.pusher (user_isr_pusher v))
      → HasGate l v g (user_isr_pusher v)
  unfolding entry handler
  HasGate-user g h e =
      let run : gate_target g ≡ l.pusher (user_isr_pusher v) =
        ap gate_target e
        ∙ gate_target-entry 0 0x8e (l.pusher (user_isr_pusher v)) (addresses (user_isr_pusher v)) in
      record {
        own = refl;
        target = run;
        code_segment = ap (λ (t : IdtGate). t.segment_selector) e;
        interrupt_gate = ap (λ (t : IdtGate). t.misc) e;
        stack = ap (λ (t : IdtGate). t.ist_and_zero) e ∙ ground arith;
        aborts = inr (refl, inl h);
      }

-- After `InitializeISR` each of the 256 vectors has an interrupt gate to its own routine, for routines at
-- 64-bit addresses. The handler of an exception aborts with the vector's number, that of a reserved or user
-- vector with 2 ^ 64 - 1. The gates of 2, 3, 8 and 18 name the interrupt stacks 1, 4, 3 and 3.
pub initialize_isr-HasGate :
    (l : Linker) (c : Processor) (v : ℕ)
    → ((p : Pusher) → l.pusher p < 2 ^ 64)
    → v < 256
    → (p : Pusher) × HasGate l v ((initialize_isr l c).idt v) p
unfolding initialize_isr
initialize_isr-HasGate l c v addresses h = elim (Bool-cases (ltb v 32)) [
  | inl e ↦
      let low : v < 32 = ltb→lt v 32 e in
      (
        routine v,
        HasGate-low l addresses v _ low
            (user_gate l.pusher _ v ∙ (ground arith ∙ low_gate l.pusher c.idt v low)),
      )
  | inr e ↦
      let high : 32 ≤ v = ltb→ge v 32 e in
      (user_isr_pusher v, HasGate-user l addresses v _ high (user_gate l.pusher _ v ∙ ground arith))
]
