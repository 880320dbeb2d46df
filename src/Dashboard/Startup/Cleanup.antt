-- ===== src/Dashboard/Startup/Cleanup.antt =====
-- `main` gives back what it has taken, on every way out.
use tensor_sched.Prelude.Balance
use tensor_sched.Prelude.{ℕ, ◌+◌, some, ◌≡◌, refl, ap, arith, Bool-cases, Option-cases, inl, inr}
use mathlib.Core.Option as Option
use tensor_sched.Dashboard.Sdl.{Sdl, Resource, given, same, when}
use tensor_sched.Dashboard.Fonts.{Fonts, no_fonts, load_system, close}
use tensor_sched.Dashboard.Fonts.Loading.{held, load_system-held, close-out}
use tensor_sched.Dashboard.Startup.{main, with_sdl, with_ttf, with_window, with_renderer}

module _ {W : Type 0} (lib : Sdl W) (run : ℕ → Fonts → W → W) where
  open lib use {
    out, sdl_init, sdl_quit, ttf_init, ttf_quit, create_window, destroy_window, create_renderer,
    destroy_renderer,
  }

  abbrev is_one : Resource → Resource → ℕ
  is_one made = given (some made)

  abbrev Over : W → (Resource → ℕ) → W → Type 0
  Over = Balance.Over same out

  abbrev sdl_extra : Resource → ℕ
  sdl_extra r = is_one Resource.sdl r + 0

  abbrev ttf_extra : Resource → ℕ
  ttf_extra r = is_one Resource.ttf r + sdl_extra r

  abbrev window_extra : ℕ → Resource → ℕ
  window_extra a r = is_one (Resource.window a) r + ttf_extra r

  abbrev renderer_extra : ℕ → ℕ → Resource → ℕ
  renderer_extra a b r = is_one (Resource.renderer b) r + window_extra a r

  abbrev Even : W → W → Type 0
  Even = Balance.Even same out

  sdl_quit-Even : (u w : W) → Over u sdl_extra w → Even u (sdl_quit w)
  sdl_quit-Even u w h r = omega (
    arith,
    Balance.returned-Over same out Resource.sdl u w (sdl_quit w) (λ r. 0) refl
        (lib.sdl_quit_returns w) h r,
  )

  ttf_quit-Even : (u w : W) → Over u ttf_extra w → Even u (sdl_quit (ttf_quit w))
  ttf_quit-Even u w h = sdl_quit-Even u (ttf_quit w) (
      Balance.returned-Over same out Resource.ttf u w (ttf_quit w) sdl_extra refl
        (lib.ttf_quit_returns w) h)

  destroy_window-Even :
      (a : ℕ) (u w : W)
      → Over u (window_extra a) w
      → Even u (sdl_quit (ttf_quit (destroy_window a w)))
  destroy_window-Even a u w h = ttf_quit-Even u (destroy_window a w) (
      Balance.returned-Over same out (Resource.window a) u w (destroy_window a w) ttf_extra
        (ground arith) (lib.window_returns a w) h)

  destroy_renderer-Even :
      (a b : ℕ) (u w : W)
      → Over u (renderer_extra a b) w
      → Even u (sdl_quit (ttf_quit (destroy_window a (destroy_renderer b w))))
  destroy_renderer-Even a b u w h = destroy_window-Even a u (destroy_renderer b w) (
      Balance.returned-Over same out (Resource.renderer b) u w (destroy_renderer b w)
        (window_extra a) (ground arith) (lib.renderer_returns b w) h)

  module _ (kept : (b : ℕ) (f : Fonts) (w : W) (r : Resource) → out (run b f w) r ≡ out w r) where
    with_renderer-Even :
        (a b : ℕ) (u w : W) → Over u (renderer_extra a b) w → Even u (with_renderer lib run a b w).1
    with_renderer-Even a b u w h =
        destroy_renderer-Even a b u (close lib fonts w₂).1
          (λ r. omega (arith, h r, l r, kept b fonts w₁ r, c r))
      where
        fonts : Fonts
        fonts = (load_system lib no_fonts w).1

        w₁ : W
        w₁ = (load_system lib no_fonts w).2

        w₂ : W
        w₂ = run b fonts w₁

        l : (r : Resource) → held fonts r + out w r ≡ out w₁ r
        l r = omega (arith, (load_system-held lib no_fonts w (λ r. omega arith)).0 r)

        c : (r : Resource) → held fonts r + out (close lib fonts w₂).1 r ≡ out w₂ r
        c = close-out lib fonts w₂ (λ r. omega (arith, l r, kept b fonts w₁ r))

    with_window-Even :
        (a : ℕ) (u w : W) → Over u (window_extra a) w → Even u (with_window lib run a w).1
    with_window-Even a u w h = elim (Option-cases (create_renderer a w).0) [
      | inl e ↦
          rw (e, with_window)
            (destroy_window-Even a u _ (
              Balance.missing-Over same out _ u w _ (window_extra a)
                (ap (Option.map Resource.renderer) e) (lib.renderer_makes a w) h))
      | inr (b, e) ↦
          rw (e, with_window)
            (with_renderer-Even a b u _ (
              Balance.made-Over same out (Resource.renderer b) _ u w _ (window_extra a)
                (ap (Option.map Resource.renderer) e) (lib.renderer_makes a w) h))
    ]

    with_ttf-Even : (u w : W) → Over u ttf_extra w → Even u (with_ttf lib run w).1
    with_ttf-Even u w h = elim (Option-cases (create_window w).0) [
      | inl e ↦
          rw (e, with_ttf)
            (ttf_quit-Even u _ (
              Balance.missing-Over same out _ u w _ ttf_extra (ap (Option.map Resource.window) e)
                (lib.window_makes w) h))
      | inr (a, e) ↦
          rw (e, with_ttf)
            (with_window-Even a u _ (
              Balance.made-Over same out (Resource.window a) _ u w _ ttf_extra
                (ap (Option.map Resource.window) e) (lib.window_makes w) h))
    ]

    with_sdl-Even : (u w : W) → Over u sdl_extra w → Even u (with_sdl lib run w).1
    with_sdl-Even u w h = elim (Bool-cases (ttf_init w).0) [
      | inl e ↦ rw e (
          with_ttf-Even u _ (
            Balance.made-Over same out Resource.ttf _ u w _ sdl_extra
              (ap (λ b. when b Resource.ttf) e) (lib.ttf_init_makes w) h))
      | inr e ↦ rw e (
          sdl_quit-Even u _ (
            Balance.missing-Over same out _ u w _ sdl_extra (ap (λ b. when b Resource.ttf) e)
              (lib.ttf_init_makes w) h))
    ]

    -- However far the start-up comes, `main` gives back all that it has taken: where the run in
    -- between leaves nothing out that was not, as many of each library, window, renderer and font are
    -- out when it returns as when it was called.
    pub main-Even : (w : W) → Even w (main lib run w).1
    unfolding main
    main-Even w = elim (Bool-cases (sdl_init w).0) [
      | inl e ↦ rw e (
          with_sdl-Even w _ (
            Balance.made-Over same out Resource.sdl _ w w _ (λ r. 0)
              (ap (λ b. when b Resource.sdl) e) (lib.sdl_init_makes w) (λ r. omega arith)))
      | inr e ↦ rw e (λ r. omega (
        arith,
        Balance.missing-Over same out _ w w _ (λ r. 0) (ap (λ b. when b Resource.sdl) e)
            (lib.sdl_init_makes w) (λ r. omega arith) r,
      ))
    ]
