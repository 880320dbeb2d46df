-- ===== src/Dashboard/Startup.antt =====
-- `main` of main.cpp, from `SDL_Init` to its return: what it sets up, and what it gives back on each
-- way out.
pub mod Cleanup
use tensor_sched.Prelude.{
  ℕ, suc, ◌+◌, ◌≤◌, ◌<◌, Bool, true, false, not, Option, none, some, ◌≡◌, ◌⊎◌, refl, ap, arith,
  if◌then◌else◌, ◌==◌, Bool-cases, Option-cases, inl, inr,
}
use mathlib.Core.Option as Option
use tensor_sched.Dashboard.Sdl.{Sdl, Resource, Makes, Returns, given, same, when}
use tensor_sched.Dashboard.Fonts.{Fonts, no_fonts, load_system, close}
use tensor_sched.Dashboard.Fonts.Loading.{held, load_system-held, close-out}

-- `run renderer fonts` is the scheduler's life and the loop of frames.
module _ {W : Type 0} (lib : Sdl W) (run : ℕ → Fonts → W → W) where
  open lib use {
    out, sdl_init, sdl_quit, ttf_init, ttf_quit, create_window, destroy_window, create_renderer,
    destroy_renderer,
  }

  abbrev pub with_fonts : ℕ → ℕ → Fonts → W → ℕ × W
  with_fonts window renderer fonts w =
      let (closed, w₁) = close lib fonts (run renderer fonts w) in
      (0, sdl_quit (ttf_quit (destroy_window window (destroy_renderer renderer w₁))))

  -- Whether the fonts could be loaded matters only for the message.
  abbrev pub with_renderer : ℕ → ℕ → W → ℕ × W
  with_renderer window renderer w =
      let (loaded, fonts, w₁) = load_system lib no_fonts w in with_fonts window renderer fonts w₁

  abbrev pub with_window : ℕ → W → ℕ × W
  with_window window w =
      let (made, w₁) = create_renderer window w in
      elim made [
        | none ↦ (1, sdl_quit (ttf_quit (destroy_window window w₁)))
        | some renderer ↦ with_renderer window renderer w₁
      ]

  abbrev pub with_ttf : W → ℕ × W
  with_ttf w =
      let (made, w₁) = create_window w in
      elim made [ none ↦ (1, sdl_quit (ttf_quit w₁)) | some window ↦ with_window window w₁ ]

  abbrev pub with_sdl : W → ℕ × W
  with_sdl w = let (ok, w₁) = ttf_init w in if not ok then (1, sdl_quit w₁) else with_ttf w₁

  -- The exit code, and the libraries after.
  unfoldable pub main : W → ℕ × W
  main w = let (ok, w₁) = sdl_init w in if not ok then (1, w₁) else with_sdl w₁
