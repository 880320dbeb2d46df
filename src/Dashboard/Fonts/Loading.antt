-- ===== src/Dashboard/Fonts/Loading.antt =====
-- What `loadSystem` opens and closes.
use tensor_sched.Prelude.{
  ℕ, zero, suc, ◌+◌, ◌≤◌, Bool, true, false, List, [], ◌∷◌, Option, none, some, ◌≡◌, refl, ap,
  arith, Bool-cases, inl, inr, get_elem?,
}
use Prim.Native.String.{String}
use mathlib.Core.Option as Option
use tensor_sched.Dashboard.Sdl.{Sdl, Resource, given}
use tensor_sched.Dashboard.Fonts.{
  Fonts, no_fonts, is_set, load, close_one, close, load_with, load_any, load_system, sans_paths,
  mono_paths,
}

abbrev one : Option ℕ → Resource → ℕ
one o = given (Option.map Resource.font o)

-- How often the struct holds a resource.
abbrev pub held : Fonts → Resource → ℕ
held f r =
    one f.large r + one f.medium r + one f.small r + (one f.tiny r + one f.title r + one f.mono r)

-- The fonts that `load` asks for.
abbrev pub IsReady : Fonts → Type 0
IsReady f =
    (is_set f.large ≡ true)
    × (is_set f.medium ≡ true)
    × (is_set f.small ≡ true)
    × (is_set f.title ≡ true)
    × (is_set f.mono ≡ true)

module _ {W : Type 0} (lib : Sdl W) where
  open lib use {open_font, close_font, out, font_makes, font_returns}

  close_one-out :
      (o : Option ℕ) (w : W)
      → ((r : Resource) → one o r ≤ out w r)
      → (r : Resource) → one o r + out (close_one lib o w) r ≡ out w r
  close_one-out none w le r = omega arith
  close_one-out (some f) w le r = font_returns f w (ground (arith, le (Resource.font f))) r

  pub close-out :
      (f : Fonts) (w : W)
      → ((r : Resource) → held f r ≤ out w r)
      → (r : Resource) → held f r + out (close lib f w).1 r ≡ out w r
  unfolding close
  close-out f w le r = omega (arith, c₁ r, c₂ r, c₃ r, c₄ r, c₅ r, c₆ r)
    where
      w₁ : W
      w₁ = close_one lib f.large w

      w₂ : W
      w₂ = close_one lib f.medium w₁

      w₃ : W
      w₃ = close_one lib f.small w₂

      w₄ : W
      w₄ = close_one lib f.tiny w₃

      w₅ : W
      w₅ = close_one lib f.title w₄

      c₁ : (r : Resource) → one f.large r + out w₁ r ≡ out w r
      c₁ = close_one-out f.large w (λ r. omega (arith, le r))

      c₂ : (r : Resource) → one f.medium r + out w₂ r ≡ out w₁ r
      c₂ = close_one-out f.medium w₁ (λ r. omega (arith, le r, c₁ r))

      c₃ : (r : Resource) → one f.small r + out w₃ r ≡ out w₂ r
      c₃ = close_one-out f.small w₂ (λ r. omega (arith, le r, c₁ r, c₂ r))

      c₄ : (r : Resource) → one f.tiny r + out w₄ r ≡ out w₃ r
      c₄ = close_one-out f.tiny w₃ (λ r. omega (arith, le r, c₁ r, c₂ r, c₃ r))

      c₅ : (r : Resource) → one f.title r + out w₅ r ≡ out w₄ r
      c₅ = close_one-out f.title w₄ (λ r. omega (arith, le r, c₁ r, c₂ r, c₃ r, c₄ r))

      c₆ : (r : Resource) → one f.mono r + out (close lib f w).1 r ≡ out w₅ r
      c₆ = close_one-out f.mono w₅ (λ r. omega (arith, le r, c₁ r, c₂ r, c₃ r, c₄ r, c₅ r))

  -- What a call of `load`, or a loop of it that starts without fonts, gives from `w`.
  record Loads (w : W) (res : Bool × Fonts × W) : Type 0 where
    books : (r : Resource) → held res.1 r + out w r ≡ out res.2 r
    ready : res.0 ≡ true → IsReady res.1

  load-Loads : (sans mono_path : String) (w : W) → Loads w (load lib sans mono_path w)
  unfolding load
  load-Loads sans mono_path w = record {
    books = λ r. omega (
      arith,
      font_makes sans 20 w r,
      font_makes sans 14 w₁ r,
      font_makes sans 12 w₂ r,
      font_makes sans 10 w₃ r,
      font_makes sans 28 w₄ r,
      font_makes mono_path 11 w₅ r,
    );
    ready = λ e. ground arith;
  }
    where
      w₁ : W
      w₁ = (open_font sans 20 w).1

      w₂ : W
      w₂ = (open_font sans 14 w₁).1

      w₃ : W
      w₃ = (open_font sans 12 w₂).1

      w₄ : W
      w₄ = (open_font sans 10 w₃).1

      w₅ : W
      w₅ = (open_font sans 28 w₄).1

  -- A failed `load` is undone by the `close` after it.
  undone :
      (w : W) (res : Bool × Fonts × W)
      → Loads w res
      → (r : Resource) → out (close lib res.1 res.2).1 r ≡ out w r
  undone w res l r =
      omega (arith, l.books r, close-out res.1 res.2 (λ r. omega (arith, l.books r)) r)

  -- A loop ends with what it has loaded, or with no fonts.
  abbrev Ends : W → Bool × Fonts × W → Type 0
  Ends w res = Loads w res × (res.0 ≡ false → res.1 ≡ no_fonts)

  Ends-later :
      (v w : W) (res : Bool × Fonts × W)
      → ((r : Resource) → out v r ≡ out w r)
      → Ends v res
      → Ends w res
  Ends-later v w res e (l, n) =
      (record { books = λ r. omega (arith, l.books r, e r); ready = l.ready }, n)

  nothing-Ends : (w : W) → Ends w (false, no_fonts, w)
  nothing-Ends w = (record { books = λ r. omega arith; ready = λ e. cc }, λ e. refl)

  load_with-Ends :
      (sans : String) (ms : List String) (w : W) → Ends w (load_with lib sans ms no_fonts w)
  unfolding load_with close
  load_with-Ends sans [] w = nothing-Ends w
  load_with-Ends sans (m ∷ ms) w =
      let l = load-Loads sans m w in
      let w₂ = (close lib (load lib sans m w).1 (load lib sans m w).2).1 in
      elim (Bool-cases (load lib sans m w).0) [
        | inl e ↦ rw e (record { books = l.books; ready = λ _. l.ready e }, λ q. cc)
        | inr e ↦ rw e (
            Ends-later w₂ w (load_with lib sans ms no_fonts w₂) (undone w (load lib sans m w) l)
              (load_with-Ends sans ms w₂))
      ]

  load_any-Ends : (ss ms : List String) (w : W) → Ends w (load_any lib ss ms no_fonts w)
  unfolding load_any
  load_any-Ends [] ms w = nothing-Ends w
  load_any-Ends (s ∷ ss) ms w =
      let (l, nothing) = load_with-Ends s ms w in
      let r = load_with lib s ms no_fonts w in
      elim (Bool-cases r.0) [
        | inl e ↦ rw e (record { books = l.books; ready = λ _. l.ready e }, λ q. cc)
        | inr e ↦
            rw (e, nothing e)
              (Ends-later r.2 w (load_any lib ss ms no_fonts r.2)
                (λ x. omega (arith, l.books x, ap (λ f. held f x) (nothing e)))
                (load_any-Ends ss ms r.2))
      ]

  -- A path that every attempt opens.
  abbrev pub CanOpen : String → Type 0
  CanOpen path = (size : ℕ) (w : W) → is_set (open_font path size w).0 ≡ true

  load-CanOpen : (s m : String) (w : W) → CanOpen s → CanOpen m → (load lib s m w).0 ≡ true
  unfolding load
  load-CanOpen s m w a b = rw (a 20 w, a 14 _, a 12 _, a 28 _, b 11 _)

  load_with-CanOpen :
      (s m : String) (ms : List String) (i : ℕ) (f : Fonts) (w : W)
      → get_elem? ms i ≡ some m
      → CanOpen s
      → CanOpen m
      → (load_with lib s ms f w).0 ≡ true
  unfolding load_with
  load_with-CanOpen s m [] i f w e a b = cc
  load_with-CanOpen s m (n ∷ ms) zero f w e a b =
      let same_path : n ≡ m = cc in rw (same_path, load-CanOpen s m w a b)
  load_with-CanOpen s m (n ∷ ms) (suc i) f w e a b = elim (Bool-cases (load lib s n w).0) [
    | inl l ↦ rw l
    | inr l ↦ rw l (load_with-CanOpen s m ms i _ _ e a b)
  ]

  load_any-CanOpen :
      (s m : String) (ss ms : List String) (i j : ℕ) (f : Fonts) (w : W)
      → get_elem? ss i ≡ some s
      → get_elem? ms j ≡ some m
      → CanOpen s
      → CanOpen m
      → (load_any lib ss ms f w).0 ≡ true
  unfolding load_any
  load_any-CanOpen s m [] ms i j f w e g a b = cc
  load_any-CanOpen s m (t ∷ ss) ms zero j f w e g a b =
      let same_path : t ≡ s = cc in rw (same_path, load_with-CanOpen s m ms j f w g a b)
  load_any-CanOpen s m (t ∷ ss) ms (suc i) j f w e g a b =
      elim (Bool-cases (load_with lib t ms f w).0) [
        | inl l ↦ rw l
        | inr l ↦ rw l (load_any-CanOpen s m ss ms i j _ _ e g a b)
      ]

  -- When the struct holds no font that is not open, `loadSystem` loses none and keeps none too many:
  -- the fonts that are open change by those that the struct holds before and after. Where it returns
  -- true every font but `tiny` is there, and where it returns false the struct is empty. It returns
  -- true whenever one of its five sans paths and one of its five mono paths can always be opened.
  pub load_system-held :
      (f : Fonts) (w : W)
      → ((r : Resource) → held f r ≤ out w r)
      → let (loaded, g, v) = load_system lib f w in
        ((r : Resource) → held g r + out w r ≡ held f r + out v r)
        × (loaded ≡ true → IsReady g)
        × (loaded ≡ false → g ≡ no_fonts)
        × ((s m : String) (i j : ℕ)
            → get_elem? sans_paths i ≡ some s
            → get_elem? mono_paths j ≡ some m
            → CanOpen s
            → CanOpen m
            → loaded ≡ true)
  unfolding load_system close
  load_system-held f w le =
      let v = (close lib f w).1 in
      let (l, nothing) = load_any-Ends sans_paths mono_paths v in
      (
        λ r. omega (arith, l.books r, close-out f w le r),
        l.ready,
        nothing,
        λ s m i j e g a b. load_any-CanOpen s m sans_paths mono_paths i j no_fonts v e g a b,
      )
