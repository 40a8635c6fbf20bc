-- ===== src/Kernel/Memory/Walk.antt =====
-- The walk over the memory map in src/kernel/memory.c: it ends, and visits each descriptor once.
use pious_os.Base.{
  ℕ, zero, suc, ◌+◌, ◌*◌, ◌%◌, ◌^◌, ◌≤◌, ◌<◌, ◌≡◌, refl, ◌∙◌, inl, inr, true, false, Bool-cases,
  ltb→lt, ltb→ge, Option, some, ltb, arith, lt→ltb, ge→ltb,
}
use mathlib.Core.Path.{subst}
use pious_os.Kernel.Memory.Map.{Descriptor, Efi, MemorySettings, map_end, walk, walk_map}

-- The map holds `n` descriptors, the last one perhaps cut short, and does not wrap around.
pub record HasDescriptors (m : MemorySettings) (n : ℕ) : Type 0 where
  pub stride : 0 < m.mem_map_descriptor_size
  pub whole : m.mem_map_size ≤ n * m.mem_map_descriptor_size
  pub last : n * m.mem_map_descriptor_size < m.mem_map_size + m.mem_map_descriptor_size
  pub inside : m.mem_map + n * m.mem_map_descriptor_size < 2 ^ 64

-- the address of a descriptor
abbrev pub piece_at : MemorySettings → ℕ → ℕ
piece_at m i = m.mem_map + i * m.mem_map_descriptor_size

below_last : (s : ℕ) {i n size : ℕ} → i < n → n * s < size + s → i * s < size
below_last s h k = grind arith

at_or_behind : (s : ℕ) {i n size : ℕ} → i ≡ n → size ≤ n * s → size ≤ i * s
at_or_behind s h k = grind arith

step_inside : (s : ℕ) {i n : ℕ} → i < n → i * s + s ≤ n * s
step_inside s h = grind arith

module _ {ℓ κ} {State : Type ℓ} (Holds : ℕ → State → Type κ) (read : ℕ → Descriptor)
    (m : MemorySettings) (n : ℕ) (h : HasDescriptors m n)
    (body : Descriptor → State → Option State) where
  map_end_eq : map_end m ≡ m.mem_map + m.mem_map_size
  map_end_eq = omega (arith, h.whole, h.inside)

  in_map : (i : ℕ) → i < n → ltb (piece_at m i) (map_end m) ≡ true
  in_map i lt =
      lt→ltb _ _ (omega (arith, map_end_eq, below_last m.mem_map_descriptor_size lt h.last))

  behind_map : (i : ℕ) → i ≡ n → ltb (piece_at m i) (map_end m) ≡ false
  behind_map i e =
      ge→ltb _ _ (omega (arith, map_end_eq, at_or_behind m.mem_map_descriptor_size e h.whole))

  next_piece :
      (i piece : ℕ)
      → i < n
      → piece ≡ piece_at m i
      → (piece + m.mem_map_descriptor_size) % 2 ^ 64 ≡ piece_at m (suc i)
  next_piece i piece lt e = omega (arith, step_inside m.mem_map_descriptor_size lt, h.inside)

  walk_step :
      (fuel i piece : ℕ) (state : State) {next : State}
      → i < n
      → piece ≡ piece_at m i
      → body (read (piece_at m i)) state ≡ some next
      → walk read m.mem_map_descriptor_size (map_end m) body (suc fuel) piece state
        ≡ walk read m.mem_map_descriptor_size
            (map_end m)
            body
            fuel
            ((piece + m.mem_map_descriptor_size) % 2 ^ 64)
            next
  unfolding walk
  walk_step fuel i piece state inside here run = rw (here, in_map i inside, run) refl

  -- A walk whose body keeps an invariant returns, at the end of the map, a state with the invariant.
  walk_inv :
      (fuel i k piece : ℕ) (state : State)
      → piece ≡ piece_at m i
      → i + k ≡ n
      → k < fuel
      → ((at : ℕ) (now : State)
          → at < n
          → Holds at now
          → (next : State) × (body (read (piece_at m at)) now ≡ some next) × Holds (suc at) next)
      → Holds i state
      → (out : State) × (walk read m.mem_map_descriptor_size (map_end m) body fuel piece state
          ≡ some out)
        × Holds n out
  unfolding walk
  walk_inv zero i k piece state here ends enough keeps start = absurd (omega arith)
  walk_inv (suc fuel) i zero piece state here ends enough keeps start =
      let behind = behind_map i (omega arith) in
      (state, rw (here, behind) refl, subst (λ t. Holds t state) (omega arith) start)
  walk_inv (suc fuel) i (suc k) piece state here ends enough keeps start =
      let inside : i < n = omega arith in
      let (next, run, holds) = keeps i state inside start in
      let (out, rest, final) =
        walk_inv fuel (suc i) k ((piece + m.mem_map_descriptor_size) % 2 ^ 64) next
          (next_piece i piece inside here) (omega arith) (omega arith) keeps holds in
      (out, walk_step fuel i piece state inside here run ∙ rest, final)

too_many : (size : ℕ) {n s : ℕ} → 0 < s → size + 1 ≤ n → size + s ≤ n * s
too_many size {n} {s} p h =
    let more : size + 1 ≤ (size + 1) * s = grind arith in
    let all : (size + 1) * s ≤ n * s = grind arith in
    let part : size ≤ size * s = grind arith in omega arith

count_le : {n s size : ℕ} → 0 < s → n * s < size + s → n ≤ size
count_le {n} {s} {size} p q = elim (Bool-cases (ltb size n)) [
  | inl e ↦ absurd (omega (arith, too_many size {n = n} p (omega (arith, ltb→lt size n e)), q))
  | inr e ↦ ltb→ge size n e
]

-- The same for the loops over the whole map, which start at its first descriptor.
pub walk_map_inv {ℓ κ} :
    {State : Type ℓ} (Holds : ℕ → State → Type κ) (efi : Efi) (m : MemorySettings) (n : ℕ)
    (body : Descriptor → State → Option State) (state : State)
    → HasDescriptors m n
    → ((at : ℕ) (now : State)
        → at < n
        → Holds at now
        → (next : State) × (body (efi.read (piece_at m at)) now ≡ some next) × Holds (suc at) next)
    → Holds 0 state
    → (out : State) × (walk_map efi m body state ≡ some out) × Holds n out
walk_map_inv Holds efi m n body state h keeps start =
    walk_inv Holds efi.read m n h body (m.mem_map_size + 1) 0 n m.mem_map state (omega arith)
      (omega arith) (omega (arith, count_le h.stride h.last)) keeps start
