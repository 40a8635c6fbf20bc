-- ===== src/Kernel/System/Bytes.antt =====
-- `CompareMemory` and `CopyMemory` (arch/kernel/x86_64/system.c).
use pious_os.Base.{
  ℕ, zero, suc, ◌+◌, ◌-◌, ◌%◌, ◌^◌, ◌≤◌, ◌<◌, ◌≡◌, refl, ap, ◌∙◌, ◌↔◌, ◌⊎◌, inl, inr, false, ◌==◌,
  ◌&&◌, leb, ltb, if◌then◌else◌, arith, Bool-cases, ==_iff,
}
use pious_os.Kernel.System.Arch.{Bytes, compare_memory, store, copy_memory}

-- On bytes, `CompareMemory` only looks at the first of each block: it returns the difference of the two, in
-- 16 bits, or 0 for a length of 0. So it returns 0 exactly where that length is 0 or those bytes are the same.
pub compare_memory_lem :
    (m : Bytes) (addr1 addr2 length : ℕ)
    → m addr1 < 2 ^ 8
    → m addr2 < 2 ^ 8
    → (compare_memory m addr1 addr2 length
        ≡ (if length == 0 then 0 else (m addr2 + 2 ^ 16 - m addr1) % 2 ^ 16))
      × ((compare_memory m addr1 addr2 length ≡ 0) ↔ ((length ≡ 0) ⊎ (m addr1 ≡ m addr2)))
unfolding compare_memory
compare_memory_lem m addr1 addr2 zero p q = (refl, ground arith)
compare_memory_lem m addr1 addr2 (suc length) p q =
    let (rest, same) = compare_memory_lem m addr1 addr2 length p q in
    (ground (arith, rest), ground (arith, rest))

stored : (m : Bytes) (a v b : ℕ) → store m a v b ≡ (if b == a then v else m b)
unfolding store
stored m a v b = refl

-- The rest of the loop runs on the memory with the first byte stored.
copy_step :
    (m : Bytes) (addr1 addr2 length b : ℕ)
    → (addr1 ≤ addr2) ⊎ (addr2 + suc length ≤ addr1)
    → (if leb (suc addr1) b && ltb b (suc addr1 + length)
        then store m addr1 (m addr2) (suc addr2 + (b - suc addr1))
        else store m addr1 (m addr2) b)
      ≡ (if leb addr1 b && ltb b (addr1 + suc length) then m (addr2 + (b - addr1)) else m b)
copy_step m addr1 addr2 length b apart = elim (Bool-cases (b == addr1)) [
  | inl e ↦
      let at : b ≡ addr1 = (==_iff b addr1).0 e in
      let same : m (addr2 + (b - addr1)) ≡ m addr2 = ap m (omega arith) in
      rw (stored m addr1 (m addr2) b, e, same) (ground arith)
  | inr e ↦ elim (Bool-cases (leb (suc addr1) b && ltb b (suc addr1 + length))) [
    | inl inside ↦
        let same : m (suc addr2 + (b - suc addr1)) ≡ m (addr2 + (b - addr1)) =
          ap m (ground arith) in
        let apart_from : (suc addr2 + (b - suc addr1) == addr1) ≡ false = ground arith in
        rw (inside, stored m addr1 (m addr2) (suc addr2 + (b - suc addr1)), apart_from, same)
          (ground arith)
    | inr outside ↦ rw (outside, stored m addr1 (m addr2) b, e) (ground arith)
  ]
]

-- `CopyMemory(addr1, addr2, length)` leaves at `addr1` what stood at `addr2`, and changes no other byte, for
-- blocks inside the 64-bit addresses where the first does not begin behind the start of the second and
-- inside it.
pub copy_memory_lem :
    (m : Bytes) (addr1 addr2 length b : ℕ)
    → addr1 + length < 2 ^ 64
    → addr2 + length < 2 ^ 64
    → (addr1 ≤ addr2) ⊎ (addr2 + length ≤ addr1)
    → copy_memory m addr1 addr2 length b
      ≡ (if leb addr1 b && ltb b (addr1 + length) then m (addr2 + (b - addr1)) else m b)
unfolding copy_memory
copy_memory_lem m addr1 addr2 zero b p q apart = ground arith
copy_memory_lem m addr1 addr2 (suc length) b p q apart =
    let next1 : (addr1 + 1) % 2 ^ 64 ≡ suc addr1 = omega arith in
    let next2 : (addr2 + 1) % 2 ^ 64 ≡ suc addr2 = omega arith in
    rw (next1, next2)
      (copy_memory_lem (store m addr1 (m addr2)) (suc addr1) (suc addr2) length b (omega arith)
          (omega arith) (omega arith)
        ∙ copy_step m addr1 addr2 length b apart)
