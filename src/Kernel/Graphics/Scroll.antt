-- ===== src/Kernel/Graphics/Scroll.antt =====
-- The two loops of `ScrollUp` in src/kernel/graphics.c: where they end, and what they leave.
use pious_os.Base.{
  ℕ, zero, suc, ◌+◌, ◌-◌, ◌*◌, ◌%◌, ◌^◌, ◌≤◌, ◌<◌, ◌≡◌, refl, ◌∙◌, ◌⊎◌, inl, inr, some, true, false,
  arith, ltb, ltb→lt, ltb→ge, Bool-cases, if◌then◌else◌,
}
use pious_os.Kernel.Graphics.Screen.{Memory, Screen, poke, copy_up, fill, scroll_up, area, text_row}

-- `out` is `m`, but that the `r` words from `a` on are those `4 * inc` bytes further up.
record Copied (m : Memory) (a r inc : ℕ) (out : Memory) : Type 0 where
  moved : (k : ℕ) → k < r → out (a + 4 * k) ≡ m (a + 4 * k + 4 * inc)
  kept : (b : ℕ) → b < a ⊎ (a + 4 * r ≤ b) → out b ≡ m b

-- `out` is `m`, but that the `r` words from `a` on hold `color`.
record Filled (m : Memory) (a r color : ℕ) (out : Memory) : Type 0 where
  colored : (k : ℕ) → k < r → out (a + 4 * k) ≡ color
  kept : (b : ℕ) → b < a ⊎ (a + 4 * r ≤ b) → out b ≡ m b

abbrev top : ℕ
top = 2 ^ 64

poke_ne : (m : Memory) (a v b : ℕ) → a < b ⊎ b < a → poke m a v b ≡ m b
unfolding poke
poke_ne m a v b h = ground arith

poke_self : (m : Memory) (a v : ℕ) → poke m a v a ≡ v
unfolding poke
poke_self m a v = ground arith

Copied-step :
    (m : Memory) (a r inc : ℕ) (out : Memory)
    → Copied (poke m a (m (a + 4 * inc))) (a + 4) r inc out
    → Copied m a (suc r) inc out
Copied-step m a r inc out c = record { moved = moved'; kept = kept' }
  where
    moved' : (k : ℕ) → k < suc r → out (a + 4 * k) ≡ m (a + 4 * k + 4 * inc)
    moved' zero h =
        let e : a + 4 * 0 ≡ a = omega arith in rw e (c.kept a (inl (omega arith)) ∙ poke_self m a _)
    moved' (suc k) h =
        let e : a + 4 * suc k ≡ a + 4 + 4 * k = omega arith in
        rw e (c.moved k (omega arith) ∙ poke_ne m a _ _ (inl (omega arith)))

    kept' : (b : ℕ) → b < a ⊎ (a + 4 * suc r ≤ b) → out b ≡ m b
    kept' b (inl h) = c.kept b (inl (omega arith)) ∙ poke_ne m a _ b (inr h)
    kept' b (inr h) = c.kept b (inr (omega arith)) ∙ poke_ne m a _ b (inl (omega arith))

Filled-step :
    (m : Memory) (a r color : ℕ) (out : Memory)
    → Filled (poke m a color) (a + 4) r color out
    → Filled m a (suc r) color out
Filled-step m a r color out c = record { colored = colored'; kept = kept' }
  where
    colored' : (k : ℕ) → k < suc r → out (a + 4 * k) ≡ color
    colored' zero h =
        let e : a + 4 * 0 ≡ a = omega arith in
        rw e (c.kept a (inl (omega arith)) ∙ poke_self m a color)
    colored' (suc k) h =
        let e : a + 4 * suc k ≡ a + 4 + 4 * k = omega arith in rw e (c.colored k (omega arith))

    kept' : (b : ℕ) → b < a ⊎ (a + 4 * suc r ≤ b) → out b ≡ m b
    kept' b (inl h) = c.kept b (inl (omega arith)) ∙ poke_ne m a color b (inr h)
    kept' b (inr h) = c.kept b (inr (omega arith)) ∙ poke_ne m a color b (inl (omega arith))

-- With more fuel than words the copying loop stops at its end mark, below 2 ^ 64.
copy_up_lem :
    (fuel a r inc end : ℕ) (m : Memory)
    → r < fuel
    → a + 4 * r ≡ end
    → end + 4 * inc < top
    → (out : Memory) × (copy_up fuel a end inc m ≡ some (end, out)) × Copied m a r inc out
unfolding copy_up
copy_up_lem zero a r inc end m f e t = absurd (omega arith)
copy_up_lem (suc fuel) a zero inc end m f e t =
    let e' : a ≡ end = omega arith in
    (m, ground arith, record { moved = λ k h. absurd (omega arith); kept = λ b h. refl })
copy_up_lem (suc fuel) a (suc r) inc end m f e t =
    let next : (a + 4) % top ≡ a + 4 = omega arith in
    let from : (a + 4 * inc) % top ≡ a + 4 * inc = omega arith in
    let (out, run, c) =
      copy_up_lem fuel (a + 4) r inc end (poke m a (m (a + 4 * inc))) (omega arith) (omega arith)
        t in
    (out, ground (arith, next, from, run), Copied-step m a r inc out c)

fill_lem :
    (fuel a r end color : ℕ) (m : Memory)
    → r < fuel
    → a + 4 * r ≡ end
    → end < top
    → (out : Memory) × (fill fuel a end color m ≡ some out) × Filled m a r color out
unfolding fill
fill_lem zero a r end color m f e t = absurd (omega arith)
fill_lem (suc fuel) a zero end color m f e t =
    (m, ground arith, record { colored = λ k h. absurd (omega arith); kept = λ b h. refl })
fill_lem (suc fuel) a (suc r) end color m f e t =
    let next : (a + 4) % top ≡ a + 4 = omega arith in
    let (out, run, c) =
      fill_lem fuel (a + 4) r end color (poke m a color) (omega arith) (omega arith) t in
    (out, ground (arith, next, run), Filled-step m a r color out c)

-- What a scroll makes of the framebuffer, in words of 4 bytes from its start.
pub record Scrolled (s : Screen) (out : Memory) : Type 0 where
  pub moved :
      (k : ℕ)
      → k + text_row s.settings < area s.settings.default_gpu.info
      → out (s.settings.default_gpu.frame_buffer_base + 4 * k)
        ≡ s.memory (s.settings.default_gpu.frame_buffer_base + 4 * (k + text_row s.settings))
  pub cleared :
      (k : ℕ)
      → k < area s.settings.default_gpu.info
      → area s.settings.default_gpu.info ≤ k + text_row s.settings
      → out (s.settings.default_gpu.frame_buffer_base + 4 * k) ≡ s.settings.background_color
  pub kept :
      (b : ℕ)
      → b < s.settings.default_gpu.frame_buffer_base
        ⊎ (s.settings.default_gpu.frame_buffer_base + 4 * area s.settings.default_gpu.info ≤ b)
      → out b ≡ s.memory b

-- The two loops, one behind the other.
Scrolled-intro :
    (s : Screen) (m out : Memory)
    → let base = s.settings.default_gpu.frame_buffer_base in
      let words = area s.settings.default_gpu.info in
      let inc = text_row s.settings in
      inc ≤ words
      → Copied s.memory base (words - inc) inc m
      → Filled m (base + 4 * (words - inc)) inc s.settings.background_color out
      → Scrolled s out
Scrolled-intro s m out fits c f = record {
  moved = λ k h.
      let e : base + 4 * (k + inc) ≡ base + 4 * k + 4 * inc = omega arith in
      rw e (f.kept _ (inl (omega arith)) ∙ c.moved k (omega arith));
  cleared = λ k h h'.
      let e : base + 4 * k ≡ base + 4 * (words - inc) + 4 * (k - (words - inc)) = omega arith in
      rw e (f.colored (k - (words - inc)) (omega arith));
  kept = λ b h. elim h [
    | inl lo ↦ f.kept b (inl (omega arith)) ∙ c.kept b (inl lo)
    | inr hi ↦ f.kept b (inr (omega arith)) ∙ c.kept b (inr (omega arith))
  ];
}
  where
    base : ℕ
    base = s.settings.default_gpu.frame_buffer_base

    words : ℕ
    words = area s.settings.default_gpu.info

    inc : ℕ
    inc = text_row s.settings

scroll_up_runs :
    (s : Screen) (end stop : ℕ) (m out : Memory)
    → let base = s.settings.default_gpu.frame_buffer_base in
      let words = area s.settings.default_gpu.info in
      let inc = text_row s.settings in
      (base + 4 * words + top - 4 * inc) % top ≡ end
      → (base + 4 * words) % top ≡ stop
      → copy_up (words + 1) base end inc s.memory ≡ some (end, m)
      → fill (words + 1) end stop s.settings.background_color m ≡ some out
      → scroll_up s ≡ some (record s { memory = out })
unfolding scroll_up
scroll_up_runs s end stop m out mark halt run run' = rw (mark, halt, run, run')

pub scroll_up_moves_text :
    (s : Screen)
    → text_row s.settings ≤ area s.settings.default_gpu.info
    → s.settings.default_gpu.frame_buffer_base + 4 * area s.settings.default_gpu.info < 2 ^ 64
    → (out : Memory) × (scroll_up s ≡ some (record s { memory = out })) × Scrolled s out
scroll_up_moves_text s fits below =
    let base = s.settings.default_gpu.frame_buffer_base in
    let words = area s.settings.default_gpu.info in
    let inc = text_row s.settings in
    let end : ℕ = base + 4 * (words - inc) in
    let stop : ℕ = base + 4 * words in
    let (m, run, c) =
      copy_up_lem (words + 1) base (words - inc) inc end s.memory (omega arith) refl
        (omega arith) in
    let (out, run', f) =
      fill_lem (words + 1) end inc stop s.settings.background_color m (omega arith) (omega arith)
        below in
    (
      out,
      scroll_up_runs s end stop m out (omega arith) (omega arith) run run',
      Scrolled-intro s m out fits c f,
    )

-- If a text row is no larger than the scrolled area and the area ends below 2 ^ 64, `ScrollUp`
-- returns. A word of the area then holds what stood one text row further on, or the background colour
-- where that is behind the area; an address outside the area and every setting are kept.
pub scroll_up_lem :
    (s : Screen) (k b : ℕ)
    → text_row s.settings ≤ area s.settings.default_gpu.info
    → s.settings.default_gpu.frame_buffer_base + 4 * area s.settings.default_gpu.info < 2 ^ 64
    → k < area s.settings.default_gpu.info
    → b < s.settings.default_gpu.frame_buffer_base
      ⊎ (s.settings.default_gpu.frame_buffer_base + 4 * area s.settings.default_gpu.info ≤ b)
    → (out : Memory) × (scroll_up s ≡ some (record s { memory = out }))
      × (out (s.settings.default_gpu.frame_buffer_base + 4 * k) ≡ (
          if ltb (k + text_row s.settings) (area s.settings.default_gpu.info)
          then s.memory (s.settings.default_gpu.frame_buffer_base + 4 * (k + text_row s.settings))
          else s.settings.background_color))
      × (out b ≡ s.memory b)
scroll_up_lem s k b fits below h outside =
    let (out, run, c) = scroll_up_moves_text s fits below in
    (out, run, word c (Bool-cases _), c.kept b outside)
  where
    word :
        {out : Memory}
        → Scrolled s out
        → (ltb (k + text_row s.settings) (area s.settings.default_gpu.info) ≡ true)
          ⊎ (ltb (k + text_row s.settings) (area s.settings.default_gpu.info) ≡ false)
        → out (s.settings.default_gpu.frame_buffer_base + 4 * k) ≡ (
            if ltb (k + text_row s.settings) (area s.settings.default_gpu.info)
            then s.memory (s.settings.default_gpu.frame_buffer_base + 4 * (k + text_row s.settings))
            else s.settings.background_color)
    word c (inl e) = rw e (c.moved k (ltb→lt _ _ e))
    word c (inr e) = rw e (c.cleared k h (ltb→ge _ _ e))
