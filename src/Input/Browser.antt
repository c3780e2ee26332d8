-- ===== src/Input/Browser.antt =====
-- apps/controlis-app/src-tauri/src/input_map.rs: what the viewer's window sends for the events of
-- the browser. An f32 is a value of the type parameter, with `clamp(0.0, 1.0)` as an argument.
use controlis.Prelude.{
  ℕ, ◌+◌, ◌-◌, ◌*◌, ◌≡◌, refl, ◌∙◌, sym, ap, Bool, true, false, ◌&&◌, Option, none, some, All, List,
  [], ◌∷◌, leb, if◌then◌else◌, arith, ok, ◌==◌, nat_eq, str_beq, codes, is_digit,
  to_ascii_lowercase, inl, inr, Bool-cases,
}
use controlis.Protocol.Message.{
  MouseButton, left, right, middle, PointerAction, press, release, KeyCode, unicode, enter, escape,
  backspace, tab, space, delete, home, end, page_up, page_down, arrow_up, arrow_down, arrow_left,
  arrow_right, shift, control, alt, meta, caps_lock, function, ControlMessage, mouse_move,
  mouse_button, mouse_wheel, key_event, text,
}
use controlis.Input.Enigo
use controlis.Input.Keysym.{mapped}
use controlis.Input.{to_key, function_key}

pub data UiInputEvent (F : Type 0) : Type 0 where
  move : F → F → UiInputEvent F
  button : ℕ → Bool → UiInputEvent F
  wheel : F → F → UiInputEvent F
  key : List ℕ → Bool → UiInputEvent F
  text_run : List ℕ → UiInputEvent F

abbrev pub action : Bool → PointerAction
action pressed = if pressed then press else release

abbrev pub map_button : ℕ → Option MouseButton
map_button b =
    if b == 0
    then some left
    else if b == 1
    then some middle
    else if b == 2
    then some right
    else none

-- `parse::<u8>()`: an optional plus sign and at least one digit, with no value above 255.
unfoldable pub parse_digits : ℕ → List ℕ → Option ℕ
parse_digits value [] = if leb value 255 then some value else none
parse_digits value (c ∷ cs) =
    let rest = parse_digits (value * 10 + (c - b'0')) cs in if is_digit c then rest else none

unfoldable pub parse_u8 : List ℕ → Option ℕ
parse_u8 [] = none
parse_u8 (c ∷ []) = if is_digit c then some (c - b'0') else none
parse_u8 (c ∷ d ∷ cs) = if c == b'+' then parse_digits 0 (d ∷ cs) else parse_digits 0 (c ∷ d ∷ cs)

-- `key.strip_prefix('F').and_then(..)`
abbrev pub function_number : List ℕ → Option ℕ
function_number [] = none
function_number (c ∷ cs) = if c == b'F' then parse_u8 cs else none

abbrev pub single : List ℕ → Option KeyCode
single (c ∷ []) = some (unicode (to_ascii_lowercase c))
single _ = none

abbrev pub unnamed : List ℕ → Option ℕ → Option KeyCode
unnamed s none = single s
unnamed s (some n) = if leb 1 n && leb n 12 then some (function n) else none

-- The arms of `map_key` with a fixed key.
abbrev pub named : List (List ℕ × KeyCode)
named =
    (codes "Enter", enter)
    ∷ (codes "Escape", escape)
    ∷ (codes "Backspace", backspace)
    ∷ (codes "Tab", tab)
    ∷ (codes " ", space)
    ∷ (codes "Spacebar", space)
    ∷ (codes "Delete", delete)
    ∷ (codes "Home", home)
    ∷ (codes "End", end)
    ∷ (codes "PageUp", page_up)
    ∷ (codes "PageDown", page_down)
    ∷ (codes "ArrowUp", arrow_up)
    ∷ (codes "ArrowDown", arrow_down)
    ∷ (codes "ArrowLeft", arrow_left)
    ∷ (codes "ArrowRight", arrow_right)
    ∷ (codes "Shift", shift)
    ∷ (codes "Control", control)
    ∷ (codes "Alt", alt)
    ∷ (codes "AltGraph", alt)
    ∷ (codes "Meta", meta)
    ∷ (codes "OS", meta)
    ∷ (codes "CapsLock", caps_lock)
    ∷ []

unfoldable pub first_arm : List (List ℕ × KeyCode) → List ℕ → Option KeyCode
first_arm [] s = unnamed s (function_number s)
first_arm ((name, code) ∷ arms) s = if str_beq name s then some code else first_arm arms s

unfoldable pub map_key : List ℕ → Option KeyCode
map_key s = first_arm named s

abbrev is_empty : List ℕ → Bool
is_empty [] = true
is_empty (c ∷ cs) = false

module _ {F : Type 0} (clamp : F → F) where
  abbrev button_message : Bool → Option MouseButton → Option (ControlMessage F)
  button_message pressed none = none
  button_message pressed (some b) = some (mouse_button b (action pressed))

  abbrev key_message : Bool → Option KeyCode → Option (ControlMessage F)
  key_message pressed none = none
  key_message pressed (some k) = some (key_event k (action pressed))

  unfoldable pub to_control_message : UiInputEvent F → Option (ControlMessage F)
  to_control_message (move x y) = some (mouse_move (clamp x) (clamp y))
  to_control_message (button b pressed) = button_message pressed (map_button b)
  to_control_message (wheel dx dy) = some (mouse_wheel dx dy)
  to_control_message (key k pressed) = key_message pressed (map_key k)
  to_control_message (text_run t) = if is_empty t then none else some (text t)

-- What the host's injector can press.
abbrev pub Pressable : KeyCode → Type 0
Pressable k = (mapped : Enigo.Key) × (to_key k ≡ ok mapped)

function-mapped : (n : ℕ) → (leb 1 n && leb n 12) ≡ true → mapped (to_key (function n)) ≡ true
unfolding to_key function_key
function-mapped n h = ground arith

single-mapped : (s : List ℕ) (k : KeyCode) → single s ≡ some k → mapped (to_key k) ≡ true
unfolding to_key
single-mapped [] k e = absurd (cc)
single-mapped (c ∷ []) k e = ap (λ (k : KeyCode). mapped (to_key k)) (the_key c k e)
  where
    the_key : (c : ℕ) (k : KeyCode) → single (c ∷ []) ≡ some k → k ≡ unicode (to_ascii_lowercase c)
    the_key c k e = cc
single-mapped (c ∷ d ∷ s) k e = absurd (cc)

unnamed-mapped :
    (s : List ℕ) (o : Option ℕ) (k : KeyCode) → unnamed s o ≡ some k → mapped (to_key k) ≡ true
unnamed-mapped s none k e = single-mapped s k e
unnamed-mapped s (some n) k e = elim (Bool-cases (leb 1 n && leb n 12)) [
  | inl inside ↦
      ap (λ (k : KeyCode). mapped (to_key k)) (sym (the_key (rw inside at e)))
      ∙ function-mapped n inside
  | inr outside ↦ absurd (no_key (rw outside at e))
]
  where
    the_key : some (function n) ≡ some k → function n ≡ k
    the_key e = cc

    no_key : ◌≡◌ {A = Option KeyCode} none (some k) → ⊥
    no_key e = cc

first_arm-mapped :
    (arms : List (List ℕ × KeyCode)) (s : List ℕ) (k : KeyCode)
    → All (λ a. mapped (to_key a.1) ≡ true) arms
    → first_arm arms s ≡ some k
    → mapped (to_key k) ≡ true
unfolding first_arm
first_arm-mapped [] s k a e = unnamed-mapped s (function_number s) k e
first_arm-mapped ((name, code) ∷ arms) s k a e = elim (Bool-cases (str_beq name s)) [
  | inl same ↦ ap (λ (k : KeyCode). mapped (to_key k)) (sym (the_key (rw same at e))) ∙ a.0
  | inr other ↦ first_arm-mapped arms s k a.1 (rw other at e)
]
  where
    the_key : some code ≡ some k → code ≡ k
    the_key e = cc

named-mapped : All (λ a. mapped (to_key a.1) ≡ true) named
unfolding to_key
named-mapped = (
  refl,
  (
    refl,
    (
      refl,
      (
        refl,
        (
          refl,
          (
            refl,
            (
              refl,
              (
                refl,
                (
                  refl,
                  (
                    refl,
                    (
                      refl,
                      (
                        refl,
                        (
                          refl,
                          (
                            refl,
                            (refl, (refl, (refl, (refl, (refl, (refl, (refl, (refl, tt)))))))),
                          ),
                        ),
                      ),
                    ),
                  ),
                ),
              ),
            ),
          ),
        ),
      ),
    ),
  ),
)

-- Every key that the viewer's window sends is one that the host's injector can press: no name of a
-- browser's key is sent to be refused there.
pub to_key-map_key : (s : List ℕ) (k : KeyCode) → map_key s ≡ some k → mapped (to_key k) ≡ true
unfolding map_key
to_key-map_key s k e = first_arm-mapped named s k named-mapped e
