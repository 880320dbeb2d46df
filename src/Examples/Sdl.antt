-- ===== src/Examples/Sdl.antt =====
-- main.cpp over libraries that count what they give, and hand out a number only once.
use tensor_sched.Prelude.{
  ℕ, suc, ◌+◌, ◌-◌, Bool, true, false, Option, none, some, ◌≡◌, refl, ap, arith, if◌then◌else◌,
  Bool-cases, inl, inr,
}
use mathlib.Core.Option as Option
use tensor_sched.Dashboard.Sdl.{Sdl, Resource, Makes, Returns, same}
use tensor_sched.Dashboard.Fonts.{no_fonts, load_system}
use tensor_sched.Dashboard.Fonts.Loading.{load_system-held}
use tensor_sched.Dashboard.Startup.{main}
use tensor_sched.Dashboard.Startup.Cleanup.{main-Even}

record World : Type 0 where
  next : ℕ
  out : Resource → ℕ

abbrev take_out : Resource → World → World
take_out made w = record { next = suc w.next; out = λ r. (if same made r then 1 else 0) + w.out r }

abbrev give_back : Resource → World → World
give_back gone w = record w { out = λ r. w.out r - (if same gone r then 1 else 0) }

same_eq : (a b : Resource) → same a b ≡ true → a ≡ b
same_eq Resource.sdl b e = ground arith
same_eq Resource.ttf b e = ground arith
same_eq (Resource.window x) b e = ground arith
same_eq (Resource.renderer x) b e = ground arith
same_eq (Resource.font x) b e = ground arith

give_back-Returns : (gone : Resource) (w : World) → Returns (λ w. w.out) gone w (give_back gone w)
give_back-Returns gone w m r = elim (Bool-cases (same gone r)) [
  | inl e ↦ rw e (omega (arith, ap w.out (same_eq gone r e)))
  | inr e ↦ rw e (omega arith)
]

abbrev draw : Bool → World → Option ℕ × World
draw true w = (some w.next, take_out (Resource.renderer w.next) w)
draw false w = (none, w)

draw-Makes :
    (b : Bool) (w : World)
    → Makes (λ w. w.out) (Option.map Resource.renderer (draw b w).0) w (draw b w).1
draw-Makes true w r = refl
draw-Makes false w r = omega arith

-- Every font can be opened; the renderer only where `drawable`.
abbrev libraries : Bool → Sdl World
libraries drawable = record {
  out = λ w. w.out;
  sdl_init = λ w. (true, take_out Resource.sdl w);
  sdl_quit = give_back Resource.sdl;
  ttf_init = λ w. (true, take_out Resource.ttf w);
  ttf_quit = give_back Resource.ttf;
  create_window = λ w. (some w.next, take_out (Resource.window w.next) w);
  destroy_window = λ a. give_back (Resource.window a);
  create_renderer = λ a w. draw drawable w;
  destroy_renderer = λ a. give_back (Resource.renderer a);
  open_font = λ path size w. (some w.next, take_out (Resource.font w.next) w);
  close_font = λ a. give_back (Resource.font a);
  sdl_init_makes = λ w r. refl;
  sdl_quit_returns = give_back-Returns Resource.sdl;
  ttf_init_makes = λ w r. refl;
  ttf_quit_returns = give_back-Returns Resource.ttf;
  window_makes = λ w r. refl;
  window_returns = λ a. give_back-Returns (Resource.window a);
  renderer_makes = λ a w. draw-Makes drawable w;
  renderer_returns = λ a. give_back-Returns (Resource.renderer a);
  font_makes = λ path size w r. refl;
  font_returns = λ a. give_back-Returns (Resource.font a);
}

abbrev at_first : World
at_first = record { next = 0; out = λ r. 0 }

load_system-held_example : (load_system (libraries true) no_fonts at_first).0 ≡ true
load_system-held_example =
    (load_system-held (libraries true) no_fonts at_first (λ r. omega arith)).3
      "/usr/share/fonts/truetype/ubuntu/Ubuntu-R.ttf"
      "/usr/share/fonts/truetype/freefont/FreeMono.ttf" 3 4 refl refl (λ size w. refl)
      (λ size w. refl)

-- The renderer cannot be made.
main-Even_example : (main (libraries false) (λ a f w. w) at_first).1.out (Resource.window 2) ≡ 0
main-Even_example =
    main-Even (libraries false) (λ a f w. w) (λ a f w r. refl) at_first (Resource.window 2)
