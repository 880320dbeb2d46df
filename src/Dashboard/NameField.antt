-- ===== src/Dashboard/NameField.antt =====
-- The text field of the form in main.cpp: its text and the focus, under the events of the main loop.
use tensor_sched.Prelude.{
  ◌≤◌, Bool, true, false, List, [], ◌∷◌, ◌++◌, ◌≡◌, refl, arith, length, length-append, ℤ, pos,
  ◌≤ℤ◌, leb_ℤ, ltb, ◌&&◌, if◌then◌else◌, All, All-append,
}

-- The keys that the loop tells apart.
pub data Key : Type 0 where
  backspace tab enter other_key : Key

-- A click is inside the field or not; a typed byte is a signed `char`.
pub data FieldEvent : Type 0 where
  key_down : Key → FieldEvent
  text_input : ℤ → FieldEvent
  mouse_down : (inside : Bool) → FieldEvent

-- `name_buf` up to its terminator, and whether `focused` is 0.
pub record NameField : Type 0 where
  pub name_buf : List ℤ
  pub is_focused : Bool

abbrev pub drop_last : List ℤ → List ℤ
drop_last [] = []
drop_last (c ∷ []) = []
drop_last (c ∷ d ∷ cs) = c ∷ drop_last (d ∷ cs)

unfoldable pub press : Key → NameField → NameField
press Key.backspace f = if f.is_focused then record f { name_buf = drop_last f.name_buf } else f
press Key.tab f = if f.is_focused then record f { is_focused = false } else f
press Key.enter f = if f.is_focused then record f { is_focused = false } else f
press Key.other_key f = f

unfoldable pub type_char : ℤ → NameField → NameField
type_char c f =
    if f.is_focused
    then (if ltb (length f.name_buf) 58 && leb_ℤ (pos 32) c
        then record f { name_buf = f.name_buf ++ (c ∷ []) }
        else f)
    else f

abbrev pub click : Bool → NameField → NameField
click inside f = record f { is_focused = inside }

unfoldable pub on_event : FieldEvent → NameField → NameField
unfolding press type_char
on_event (FieldEvent.key_down k) f = press k f
on_event (FieldEvent.text_input c) f = type_char c f
on_event (FieldEvent.mouse_down inside) f = click inside f

abbrev pub on_events : List FieldEvent → NameField → NameField
on_events [] f = f
on_events (e ∷ es) f = on_events es (on_event e f)

-- The text and its terminator leave a byte of the buffer, and no byte is a control character.
pub record Fits (f : NameField) : Type 0 where
  pub room : length f.name_buf ≤ 58
  pub printable : All (λ c. pos 32 ≤ℤ c) f.name_buf

drop_last-le : (cs : List ℤ) → length (drop_last cs) ≤ length cs
drop_last-le [] = omega arith
drop_last-le (c ∷ []) = omega arith
drop_last-le (c ∷ d ∷ cs) = omega (arith, drop_last-le (d ∷ cs))

All-drop_last {κ} : (P : ℤ → Type κ) (cs : List ℤ) → All P cs → All P (drop_last cs)
All-drop_last P [] a = tt
All-drop_last P (c ∷ []) a = tt
All-drop_last P (c ∷ d ∷ cs) a = (a.0, All-drop_last P (d ∷ cs) a.1)

Fits-if : (b : Bool) (f g : NameField) → (b ≡ true → Fits f) → Fits g → Fits (if b then f else g)
Fits-if true f g u v = u refl
Fits-if false f g u v = v

unfocused-Fits : (f : NameField) (b : Bool) → Fits f → Fits (record f { is_focused = b })
unfocused-Fits f b v = record { room = v.room; printable = v.printable }

pub press-Fits : (k : Key) (f : NameField) → Fits f → Fits (press k f)
unfolding press
press-Fits Key.backspace f v = Fits-if f.is_focused _ f shorter v
  where
    shorter : f.is_focused ≡ true → Fits (record f { name_buf = drop_last f.name_buf })
    shorter e = record {
      room = omega (arith, v.room, drop_last-le f.name_buf);
      printable = All-drop_last (λ c. pos 32 ≤ℤ c) f.name_buf v.printable;
    }
press-Fits Key.tab f v = Fits-if f.is_focused _ f (λ e. unfocused-Fits f false v) v
press-Fits Key.enter f v = Fits-if f.is_focused _ f (λ e. unfocused-Fits f false v) v
press-Fits Key.other_key f v = v

typed-Fits :
    (c : ℤ) (f : NameField)
    → Fits f
    → (ltb (length f.name_buf) 58 && leb_ℤ (pos 32) c) ≡ true
    → Fits (record f { name_buf = f.name_buf ++ (c ∷ []) })
typed-Fits c f v e = record {
  room = ground (arith, e, length-append f.name_buf (c ∷ []));
  printable = All-append (λ d. pos 32 ≤ℤ d) f.name_buf (c ∷ []) v.printable (ground (arith, e), tt);
}

pub type_char-Fits : (c : ℤ) (f : NameField) → Fits f → Fits (type_char c f)
unfolding type_char
type_char-Fits c f v = Fits-if f.is_focused _ f (λ e. Fits-if _ _ f (typed-Fits c f v) v) v

on_event-Fits : (e : FieldEvent) (f : NameField) → Fits f → Fits (on_event e f)
unfolding on_event
on_event-Fits (FieldEvent.key_down k) f v = press-Fits k f v
on_event-Fits (FieldEvent.text_input c) f v = type_char-Fits c f v
on_event-Fits (FieldEvent.mouse_down inside) f v = record { room = v.room; printable = v.printable }

-- Whatever is typed, pressed and clicked, a text of at most 58 printable bytes stays one, so it
-- and its terminator stay in the buffer of 60 bytes.
pub on_events-Fits : (es : List FieldEvent) (f : NameField) → Fits f → Fits (on_events es f)
on_events-Fits [] f v = v
on_events-Fits (e ∷ es) f v = on_events-Fits es (on_event e f) (on_event-Fits e f v)
