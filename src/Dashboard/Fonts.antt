-- ===== src/Dashboard/Fonts.antt =====
-- The struct Fonts of main.cpp: the fonts of the dashboard, found at one of several places.
pub mod Loading
use tensor_sched.Prelude.{
  ℕ, suc, ◌+◌, ◌<◌, ◌≤◌, Bool, true, false, ◌&&◌, List, [], ◌∷◌, Option, none, some, ◌≡◌, refl, ap,
  ◌∙◌, arith, if◌then◌else◌, Bool-cases, inl, inr,
}
use Prim.Native.String.{String}
use tensor_sched.Dashboard.Sdl.{Sdl, Resource, Makes, Returns, given, same}

-- A null pointer is `none`.
pub record Fonts : Type 0 where
  pub large : Option ℕ
  pub medium : Option ℕ
  pub small : Option ℕ
  pub tiny : Option ℕ
  pub mono : Option ℕ
  pub title : Option ℕ

abbrev pub no_fonts : Fonts
no_fonts = record {
  large = none;
  medium = none;
  small = none;
  tiny = none;
  mono = none;
  title = none;
}

abbrev pub is_set : Option ℕ → Bool
is_set none = false
is_set (some f) = true

abbrev pub sans_paths : List String
sans_paths =
    "fonts/Rajdhani-Regular.ttf" ∷ "/usr/share/fonts/truetype/dejavu/DejaVuSans.ttf"
    ∷ "/usr/share/fonts/truetype/liberation/LiberationSans-Regular.ttf"
    ∷ "/usr/share/fonts/truetype/ubuntu/Ubuntu-R.ttf"
    ∷ "/usr/share/fonts/truetype/freefont/FreeSans.ttf" ∷ []

abbrev pub mono_paths : List String
mono_paths =
    "fonts/JetBrainsMono-Regular.ttf" ∷ "/usr/share/fonts/truetype/dejavu/DejaVuSansMono.ttf"
    ∷ "/usr/share/fonts/truetype/liberation/LiberationMono-Regular.ttf"
    ∷ "/usr/share/fonts/truetype/ubuntu/UbuntuMono-R.ttf"
    ∷ "/usr/share/fonts/truetype/freefont/FreeMono.ttf" ∷ []

-- `safe`.
abbrev pub safe : Fonts → Option ℕ → Option ℕ
safe f (some font) = some font
safe f none = if is_set f.small then f.small else if is_set f.medium then f.medium else f.tiny

module _ {W : Type 0} (lib : Sdl W) where
  open lib use {open_font, close_font, out, font_makes, font_returns}

  -- `load` overwrites all six pointers, whatever stood there.
  unfoldable pub load : String → String → W → Bool × Fonts × W
  load sans mono_path w =
      let (large, w) = open_font sans 20 w in
      let (medium, w) = open_font sans 14 w in
      let (small, w) = open_font sans 12 w in
      let (tiny, w) = open_font sans 10 w in
      let (title, w) = open_font sans 28 w in
      let (mono, w) = open_font mono_path 11 w in
      (
        is_set large && is_set medium && is_set small && is_set title && is_set mono,
        record {
          large = large;
          medium = medium;
          small = small;
          tiny = tiny;
          mono = mono;
          title = title;
        },
        w,
      )

  -- `fc`, which nulls the pointer too.
  abbrev pub close_one : Option ℕ → W → W
  close_one none w = w
  close_one (some f) w = close_font f w

  unfoldable pub close : Fonts → W → Fonts × W
  close f w = (
    no_fonts,
    close_one f.mono (
        close_one f.title
          (close_one f.tiny (close_one f.small (close_one f.medium (close_one f.large w))))),
  )

  -- The inner loop of `loadSystem`, and the outer one.
  unfoldable pub load_with : String → List String → Fonts → W → Bool × Fonts × W
  load_with sans [] f w = (false, f, w)
  load_with sans (m ∷ ms) f w =
      let (loaded, g, w₁) = load sans m w in
      let (h, w₂) = close g w₁ in
      let rest = load_with sans ms h w₂ in if loaded then (true, g, w₁) else rest

  unfoldable pub load_any : List String → List String → Fonts → W → Bool × Fonts × W
  load_any [] ms f w = (false, f, w)
  load_any (s ∷ ss) ms f w =
      let (loaded, g, w₁) = load_with s ms f w in
      let rest = load_any ss ms g w₁ in if loaded then (true, g, w₁) else rest

  unfoldable pub load_system : Fonts → W → Bool × Fonts × W
  load_system f w = let (h, w₁) = close f w in load_any sans_paths mono_paths h w₁
