-- ===== src/Boot/Graphics/Wall.antt =====
-- The Wall of Shame of `InitUEFI_GOP` (src/bootloader/boot.c), as a test on texts.
use pious_os.Base.{
  ℕ, ◌+◌, ◌*◌, ◌/◌, ◌%◌, ◌^◌, ◌≤◌, ◌<◌, ◌≡◌, ◌≢◌, refl, sym, ◌∙◌, ◌↔◌, ◌⊎◌, inl, inr, true, false,
  List, [], ◌∷◌, length, All, ltb, ◌==◌, if◌then◌else◌, ==_iff, Bool-cases, arith,
}
use mathlib.Core.Path.{subst}
use pious_os.Boot.Search.{compare}
use pious_os.Boot.Blocks.{compare_lem}
use pious_os.Boot.Graphics.Names.{on_wall}

-- the text is one of the texts
abbrev pub OneOf : List ℕ → List (List ℕ) → Type 0
OneOf text [] = ⊥
OneOf text (t ∷ texts) = (text ≡ t) ⊎ OneOf text texts

module _ (m : ℕ → ℕ) where
  abbrev pub byte : ℕ → ℕ → ℕ
  byte a i = m ((a + i) % 2 ^ 64)

  -- The characters stand in 16 bits each from the byte `i` on, with a zero behind them.
  abbrev pub Stored : ℕ → ℕ → List ℕ → Type 0
  Stored a i [] = (byte a i ≡ 0) × (byte a (i + 1) ≡ 0)
  Stored a i (c ∷ cs) = (byte a i ≡ c % 256) × (byte a (i + 1) ≡ c / 256) × Stored a (i + 2) cs

  -- the bytes from `i` on, `n` of them, are the same
  abbrev Agree : ℕ → ℕ → ℕ → ℕ → Type 0
  Agree a b i n = (k : ℕ) → i ≤ k → k < i + n → byte a k ≡ byte b k

  abbrev size : List ℕ → ℕ
  size cs = 2 * length cs + 2

  -- a string with its size, as `StrSize` counts it
  abbrev pub IsString : ((ℕ → ℕ) → ℕ → ℕ) → ℕ → List ℕ → Type 0
  IsString str_size a text =
      (str_size m a ≡ 2 * length text + 2) × Stored a 0 text × All (λ c. c ≢ 0) text

  pair_same :
      (a b i n : ℕ)
      → byte a i ≡ byte b i
      → byte a (i + 1) ≡ byte b (i + 1)
      → Agree a b (i + 2) n
      → Agree a b i (n + 2)
  pair_same a b i n first second more k lo hi = elim (Bool-cases (k == i)) [
    | inl e ↦ subst (λ j. byte a j ≡ byte b j) (sym ((==_iff k i).0 e)) first
    | inr e ↦ elim (Bool-cases (k == i + 1)) [
      | inl e' ↦ subst (λ j. byte a j ≡ byte b j) (sym ((==_iff k (i + 1)).0 e')) second
      | inr e' ↦ more k (ground arith) (omega arith)
    ]
  ]

  held_same : (a b i : ℕ) (cs : List ℕ) → Stored a i cs → Stored b i cs → Agree a b i (size cs)
  held_same a b i [] h h' =
      pair_same a b i 0 (h.0 ∙ sym h'.0) (h.1 ∙ sym h'.1) (λ k lo hi. absurd (omega arith))
  held_same a b i (c ∷ cs) h h' = λ k lo hi.
      pair_same a b i (size cs) (h.0 ∙ sym h'.0) (h.1 ∙ sym h'.1)
        (held_same a b (i + 2) cs h.2 h'.2) k lo (omega arith)

  smaller : List ℕ → List ℕ → ℕ
  smaller cs ds = if ltb (size cs) (size ds) then size cs else size ds

  smaller_self : (cs : List ℕ) → smaller cs cs ≡ size cs
  unfolding smaller
  smaller_self cs = ground arith

  same_held :
      (a b i : ℕ) (cs ds : List ℕ)
      → All (λ c. c ≢ 0) cs
      → All (λ c. c ≢ 0) ds
      → Stored a i cs
      → Stored b i ds
      → Agree a b i (smaller cs ds)
      → cs ≡ ds
  unfolding smaller
  same_held a b i [] [] nz nz' h h' e = refl
  same_held a b i [] (d ∷ ds) nz nz' h h' e = absurd (
      nz'.0 (
        omega (
          arith,
          h.0,
          h.1,
          h'.0,
          h'.1,
          e i (omega arith) (ground arith),
          e (i + 1) (omega arith) (ground arith),
        )))
  same_held a b i (c ∷ cs) [] nz nz' h h' e = absurd (
      nz.0 (
        omega (
          arith,
          h.0,
          h.1,
          h'.0,
          h'.1,
          e i (omega arith) (ground arith),
          e (i + 1) (omega arith) (ground arith),
        )))
  same_held a b i (c ∷ cs) (d ∷ ds) nz nz' h h' e =
      let one : c ≡ d = omega (
        arith,
        h.0,
        h.1,
        h'.0,
        h'.1,
        e i (omega arith) (ground arith),
        e (i + 1) (omega arith) (ground arith),
      ) in
      let more : cs ≡ ds =
        same_held a b (i + 2) cs ds nz.1 nz'.1 h.2 h'.2
          (λ k lo hi. e k (omega arith) (ground arith)) in
      cc

  module _ (str_size : (ℕ → ℕ) → ℕ → ℕ) where
    abbrev compared : ℕ → ℕ → ℕ
    compared one two =
        let a = str_size m one in
        let b = str_size m two in compare m one two (if ltb a b then a else b)

    compared-smaller :
        (one two : ℕ) (text text' : List ℕ)
        → IsString str_size one text
        → IsString str_size two text'
        → compared one two ≡ compare m one two (smaller text text')
    unfolding smaller
    compared-smaller one two text text' h h' = rw (h.0, h'.0) refl

    compared-eq :
        (one two : ℕ) (text text' : List ℕ)
        → IsString str_size one text
        → IsString str_size two text'
        → (compared one two == 0) ≡ false
        → text ≡ text'
    compared-eq one two text text' h h' e =
        let n = smaller text text' in
        let sized = compared-smaller one two text text' h h' in
        let ((to, from), either) = compare_lem m one two n in
        let equal : compare m one two n ≡ 1 = ground (arith, sized, either, e) in
        same_held one two 0 text text' h.2 h'.2 h.1 h'.1 (λ k lo hi. to equal k (omega (arith, hi)))

    eq-compared :
        (one two : ℕ) (text : List ℕ)
        → IsString str_size one text
        → IsString str_size two text
        → (compared one two == 0) ≡ false
    eq-compared one two text h h' =
        let sized = compared-smaller one two text text h h' in
        let n = smaller text text in
        let ((to, from), either) = compare_lem m one two n in
        let equal : compare m one two n ≡ 1 = from (λ k lo.
          held_same one two 0 text h.1 h'.1 k (omega arith)
            (omega (arith, lo, smaller_self text))) in
        ground (arith, sized, equal)

    -- the strings have these texts
    abbrev pub Strings : List ℕ → List (List ℕ) → Type 0
    Strings [] [] = Unit
    Strings [] (text ∷ texts) = ⊥
    Strings (string ∷ strings) [] = ⊥
    Strings (string ∷ strings) (text ∷ texts) =
        IsString str_size string text × Strings strings texts

    -- The test of a driver's name against the Wall of Shame finds it exactly if its text is one of the texts of
    -- the wall. The strings end with their only zero, which `StrSize` counts.
    pub on_wall_lem :
        (wall : List ℕ) (texts : List (List ℕ)) (name : ℕ) (text : List ℕ)
        → Strings wall texts
        → IsString str_size name text
        → (on_wall str_size m wall name ≡ true) ↔ OneOf text texts
    unfolding on_wall
    on_wall_lem [] [] name text h h' = (λ e. cc, λ e. absurd e)
    on_wall_lem [] (t ∷ texts) name text h h' = absurd h
    on_wall_lem (driver ∷ wall) [] name text h h' = absurd h
    on_wall_lem (driver ∷ wall) (t ∷ texts) name text h h' =
        let ih = on_wall_lem wall texts name text h.1 h' in
        elim (Bool-cases (compared name driver == 0)) [
          | inl e ↦ rw e (
            λ r. inr (ih.0 r),
            λ o. elim o [
              | inl same ↦
                  let found =
                    eq-compared name driver text h'
                      (subst (IsString str_size driver) (sym same) h.0) in
                  absurd (ground (arith, e, found))
              | inr more ↦ ih.1 more
            ],
          )
          | inr e ↦ rw e (λ r. inl (compared-eq name driver text t h' h.0 e), λ o. refl)
        ]
