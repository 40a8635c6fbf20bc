-- ===== src/Kernel/Terminal/Started.antt =====
-- What stands on the display of src/kernel/graphics.c after `InitializeDisplay`, and when `kernel_main` of
-- src/kernel/kernel.c is in its idle loop.
use pious_os.Base.{
  ℕ, ◌*◌, ◌^◌, ◌≤◌, ◌<◌, ◌≡◌, refl, ap, true, ltb, lt→ltb, some, List, arith, length, All,
}
use mathlib.Core.Path.{subst}
use pious_os.Kernel.Graphics.Screen.{
  Memory, Screen, GraphicsMode, TextDisplaySettings, color_screen, initialize_display, row_size,
  col_size, choose_scale, visible_pixels,
}
use pious_os.Kernel.Graphics.Pixels.{Fits, InFrame, pixel}
use pious_os.Kernel.Graphics.Blank.{color_screen_lem, initialize_display-IsValid}
use pious_os.Kernel.Graphics.Cursor.{IsValid, Moved, Moved-trans}
use pious_os.Kernel.Print.Format.{Action, Floats, VaList, print_string, count_arguments}
use pious_os.Kernel.Print.Loop.{Printable, expand}
use pious_os.Kernel.Terminal.{Terminal, blank, type_actions}
use pious_os.Kernel.Terminal.Shown.{in_frame}
use pious_os.Kernel.Terminal.Typed.{Shows}
use pious_os.Kernel.Terminal.Printed.{print_string-type_actions}

-- no characters, and the cursor in the first cell
abbrev pub blank_terminal : Terminal
blank_terminal = record { cells = λ i. blank 0; cursor = 0 }

-- A framebuffer of at least 64 by 64 pixels, without a back porch.
pub record IsWhole (g : GraphicsMode) : Type 0 where
  pub fits : Fits g
  pub no_porch : g.info.pixels_per_scan_line ≡ g.info.horizontal_resolution
  pub wide : 64 ≤ g.info.horizontal_resolution
  pub high : 64 ≤ g.info.vertical_resolution

line_room : (h w : ℕ) → 64 ≤ h → 32 * w ≤ h * w
line_room h w p = grind arith

line_fits : (h w : ℕ) → 64 ≤ h → w ≤ h * w
line_fits h w p = grind arith

module _ (g : GraphicsMode) (m : Memory) (w : IsWhole g) where
  abbrev opening : Screen
  opening = record {
    settings = record {
      default_gpu = g;
      font_color = 0x00ff_ffff;
      highlight_color = 0x0033_ff33;
      background_color = 0;
      scale = choose_scale (visible_pixels g.info);
      index = 0;
    };
    memory = m;
  }

  narrow : g.info.pixels_per_scan_line < 2 ^ 32
  narrow =
      let line = line_fits g.info.vertical_resolution g.info.pixels_per_scan_line w.high in
      omega (arith, line, w.fits.offsets)

  pixel-initialize_display :
      (y x : ℕ) → InFrame g y x → pixel g (initialize_display g m).memory y x ≡ 0
  unfolding initialize_display
  pixel-initialize_display y x f =
      let shown : ltb x g.info.horizontal_resolution ≡ true =
        lt→ltb _ _ (omega (arith, f.1, w.no_porch)) in
      let colored = color_screen_lem 0 opening y x w.fits (omega (arith, w.no_porch)) narrow f in
      rw shown at colored

  opening-IsValid : IsValid (initialize_display g m).settings
  opening-IsValid =
      let room = line_room g.info.vertical_resolution g.info.horizontal_resolution w.high in
      (initialize_display-IsValid g m w.fits (omega (arith, w.no_porch)) w.wide w.high
        (omega (arith, room, w.no_porch))).0

  -- `InitializeDisplay` shows a blank terminal.
  pub initialize_display-Shows : Shows (initialize_display g m) blank_terminal
  unfolding initialize_display color_screen
  initialize_display-Shows = record {
    valid = opening-IsValid;
    no_porch = w.no_porch;
    grid = record {
      drawn = λ i y x h hy hx.
          pixel-initialize_display _ _
            (in_frame (initialize_display g m).settings opening-IsValid i y x h hy hx);
      margin = λ y x h f. pixel-initialize_display y x f;
    };
    cursor = refl;
  }

-- the terminal after the actions, in a colour and in that of texts
abbrev pub typed_in : ℕ → TextDisplaySettings → List Action → Terminal → Terminal
typed_in ink d acts =
    type_actions (row_size d) (col_size d) d.background_color ink d.background_color acts

abbrev pub typed : TextDisplaySettings → List Action → Terminal → Terminal
typed d acts = typed_in d.font_color d acts

typed_in-Moved :
    (ink : ℕ) (d d' : TextDisplaySettings) (acts : List Action) (t : Terminal) (u : Screen)
    → Moved d d'
    → Shows u (typed_in ink d' acts t)
    → Shows u (typed_in ink d acts t)
unfolding row_size col_size
typed_in-Moved ink d d' acts t u moved h = subst (λ k. Shows u (typed_in ink k acts t)) moved h

-- A call of `PrintString` on the settings' background.
pub print_string-typed_in :
    (F : Floats) (ink : ℕ) (d : TextDisplaySettings) (str : List ℕ) (args : VaList F) (n : ℕ)
    (acts : List Action) (s : Screen) (t : Terminal)
    → count_arguments str 0 ≡ some n
    → expand F (length str) str args ≡ some acts
    → All Printable acts
    → Moved d s.settings
    → Shows s t
    → (u : Screen) × (print_string F str ink s.settings.background_color args s ≡ some u)
      × Shows u (typed_in ink d acts t)
      × Moved d u.settings
print_string-typed_in F ink d str args n acts s t counted e p moved h =
    let (u, run, shown, moved') =
      print_string-type_actions F ink s.settings.background_color str args n acts s t counted e p
        h in
    (
      u,
      run,
      typed_in-Moved ink d s.settings acts t u moved shown,
      Moved-trans d s.settings u.settings moved moved',
    )

-- One in the colour of texts.
pub print_string-typed :
    (F : Floats) (d : TextDisplaySettings) (str : List ℕ) (args : VaList F) (n : ℕ)
    (acts : List Action) (s : Screen) (t : Terminal)
    → count_arguments str 0 ≡ some n
    → expand F (length str) str args ≡ some acts
    → All Printable acts
    → Moved d s.settings
    → Shows s t
    → (u : Screen) × (print_string F str s.settings.font_color s.settings.background_color args s
        ≡ some u)
      × Shows u (typed d acts t)
      × Moved d u.settings
print_string-typed F d str args n acts s t counted e p moved h =
    let (u, run, shown, moved') =
      print_string-typed_in F s.settings.font_color d str args n acts s t counted e p moved h in
    let ink = ap (λ (k : TextDisplaySettings). k.font_color) moved in
    (u, run, subst (λ i. Shows u (typed_in i d acts t)) ink shown, moved')
