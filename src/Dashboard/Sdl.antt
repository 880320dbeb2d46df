-- ===== src/Dashboard/Sdl.antt =====
-- What main.cpp uses of SDL and SDL_ttf: the calls that make something which has to be given back.
-- They are a parameter, with what their documentation says. `W` is the state of the libraries.
use tensor_sched.Prelude.Balance
use tensor_sched.Prelude.{ℕ, Bool, true, false, Option, none, some, ◌==◌}
use Prim.Native.String.{String}
use mathlib.Core.Option as Option

-- What can be out: an initialised library, a window, a renderer, an open font.
pub data Resource : Type 0 where
  sdl ttf : Resource
  window renderer font : ℕ → Resource

abbrev pub same : Resource → Resource → Bool
same Resource.sdl Resource.sdl = true
same Resource.ttf Resource.ttf = true
same (Resource.window a) (Resource.window b) = a == b
same (Resource.renderer a) (Resource.renderer b) = a == b
same (Resource.font a) (Resource.font b) = a == b
same _ _ = false

abbrev pub given : Option Resource → Resource → ℕ
given = Balance.given same

abbrev pub Makes : {W : Type 0} → (W → Resource → ℕ) → Option Resource → W → W → Type 0
Makes = Balance.Makes same

abbrev pub Returns : {W : Type 0} → (W → Resource → ℕ) → Resource → W → W → Type 0
Returns = Balance.Returns same

abbrev pub when : Bool → Resource → Option Resource
when true r = some r
when false r = none

pub record Sdl (W : Type 0) : Type 0 where
  -- How often a resource is out.
  pub out : W → Resource → ℕ
  pub sdl_init : W → Bool × W
  pub sdl_quit : W → W
  pub ttf_init : W → Bool × W
  pub ttf_quit : W → W
  pub create_window : W → Option ℕ × W
  pub destroy_window : ℕ → W → W
  pub create_renderer : ℕ → W → Option ℕ × W
  pub destroy_renderer : ℕ → W → W
  pub open_font : String → ℕ → W → Option ℕ × W
  pub close_font : ℕ → W → W
  pub sdl_init_makes : (w : W) → Makes out (when (sdl_init w).0 Resource.sdl) w (sdl_init w).1
  pub sdl_quit_returns : (w : W) → Returns out Resource.sdl w (sdl_quit w)
  pub ttf_init_makes : (w : W) → Makes out (when (ttf_init w).0 Resource.ttf) w (ttf_init w).1
  pub ttf_quit_returns : (w : W) → Returns out Resource.ttf w (ttf_quit w)
  pub window_makes :
      (w : W) → Makes out (Option.map Resource.window (create_window w).0) w (create_window w).1
  pub window_returns : (a : ℕ) (w : W) → Returns out (Resource.window a) w (destroy_window a w)
  pub renderer_makes :
      (a : ℕ) (w : W)
      → Makes out (Option.map Resource.renderer (create_renderer a w).0) w (create_renderer a w).1
  pub renderer_returns :
      (a : ℕ) (w : W) → Returns out (Resource.renderer a) w (destroy_renderer a w)
  pub font_makes :
      (path : String) (size : ℕ) (w : W)
      → Makes out (Option.map Resource.font (open_font path size w).0) w (open_font path size w).1
  pub font_returns : (a : ℕ) (w : W) → Returns out (Resource.font a) w (close_font a w)
