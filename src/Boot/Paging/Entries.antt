-- ===== src/Boot/Paging/Entries.antt =====
-- The last level of `MapVirtualPages` (src/bootloader/boot.c), and tables on different pages.
use pious_os.Base.{
  ℕ, zero, suc, ◌+◌, ◌*◌, ◌%◌, ◌^◌, ◌≤◌, ◌<◌, ◌≡◌, ◌≢◌, refl, sym, ◌∙◌, ◌⊎◌, inl, inr, false,
  Option, some, ltb, ◌==◌, arith, Bool-cases, ==_iff, ge→ltb, ltb→lt, ltb→ge,
}
use Prim.Native.Nat.{bit_or}
use mathlib.Core.Path.{subst}
use pious_os.Boot.Paging.Tables.{PageState, write, slot, write_entries}
use pious_os.Boot.Paging.Words.{IsPage, In, slot-In, write_same, write_other}

-- the entry for a page
abbrev pub entry_for : ℕ → ℕ → ℕ → ℕ
entry_for physical flags i = bit_or ((physical + i * 4096) % 2 ^ 64) flags

pub slot_ne :
    (table i k : ℕ) → IsPage table → i < 512 → k < 512 → i ≢ k → slot table i ≢ slot table k
slot_ne table i k p h h' ne e = ne (omega (arith, p.below, e))

-- Inside the page table, the loop writes one entry for each page, and nothing else.
pub write_entries_lem :
    (pml1 pml1i physical flags : ℕ) (remap : ℕ → PageState → Option PageState) (rounds i : ℕ)
    (s : PageState)
    → IsPage pml1
    → pml1i + i + rounds ≤ 512
    → (s' : PageState) × (write_entries pml1 pml1i physical flags remap rounds i s ≡ some s')
      × ((k : ℕ)
          → i ≤ k
          → k < i + rounds
          → s'.words (slot pml1 (pml1i + k)) ≡ entry_for physical flags k)
      × ((a : ℕ)
          → ((k : ℕ) → i ≤ k → k < i + rounds → a ≢ slot pml1 (pml1i + k))
          → s'.words a ≡ s.words a)
unfolding write_entries
write_entries_lem pml1 pml1i physical flags remap zero i s p h =
    (s, refl, λ k lo hi. absurd (omega arith), λ a ne. refl)
write_entries_lem pml1 pml1i physical flags remap (suc rounds) i s p h =
    let now = record s {
      words = write s.words (slot pml1 (pml1i + i)) (entry_for physical flags i);
    } in
    let (s', run, entries, others) =
      write_entries_lem pml1 pml1i physical flags remap rounds (i + 1) now p (omega arith) in
    let inside : ltb 511 (pml1i + i) ≡ false = ge→ltb 511 (pml1i + i) (omega arith) in
    let first : s'.words (slot pml1 (pml1i + i)) ≡ entry_for physical flags i =
      others (slot pml1 (pml1i + i)) (λ k lo hi.
        slot_ne pml1 (pml1i + i) (pml1i + k) p (omega arith) (omega arith) (omega arith))
      ∙ write_same s.words (slot pml1 (pml1i + i)) (entry_for physical flags i) in
    (
      s',
      rw inside run,
      λ k lo hi. elim (Bool-cases (k == i)) [
        | inl e ↦
            subst (λ k. s'.words (slot pml1 (pml1i + k)) ≡ entry_for physical flags k)
              (sym ((==_iff k i).0 e)) first
        | inr e ↦ entries k (ground arith) (omega arith)
      ],
      λ a ne.
          others a (λ k lo hi. ne k (omega arith) (omega arith))
          ∙ write_other s.words _ _ a (ne i (omega arith) (omega arith)),
    )

-- The four tables of a walk are different pages.
pub record Apart (t4 t3 t2 t1 : ℕ) : Type 0 where
  pub first : IsPage t4
  pub t43 : t4 ≢ t3
  pub t42 : t4 ≢ t2
  pub t41 : t4 ≢ t1
  pub t32 : t3 ≢ t2
  pub t31 : t3 ≢ t1
  pub t21 : t2 ≢ t1

pub outside : (p a : ℕ) → ¬ In p a → (a < p) ⊎ (p + 4096 ≤ a)
outside p a n = elim (Bool-cases (ltb a p)) [
  | inl e ↦ inl (ltb→lt a p e)
  | inr e ↦ elim (Bool-cases (ltb a (p + 4096))) [
    | inl e' ↦ absurd (n (ltb→ge a p e, ltb→lt a (p + 4096) e'))
    | inr e' ↦ inr (ltb→ge a (p + 4096) e')
  ]
]

pub apart_slot :
    (p q index : ℕ)
    → IsPage p
    → IsPage q
    → p ≢ q
    → index < 512
    → (slot p index < q) ⊎ (q + 4096 ≤ slot p index)
apart_slot p q index hp hq ne h =
    let at = slot-In p index hp h in omega (arith, at.0, at.1, hp.aligned, hq.aligned, ne)

pub apart_slot_ne :
    (p q i k : ℕ) → IsPage p → IsPage q → p ≢ q → i < 512 → k < 512 → slot p i ≢ slot q k
apart_slot_ne p q i k hp hq ne h h' e =
    ne (omega (arith, slot-In p i hp h, slot-In q k hq h', hp.aligned, hq.aligned, e))
