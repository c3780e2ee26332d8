-- ===== src/Input.antt =====
-- crates/input/src/enigo_backend.rs: `EnigoInjector`, with the two sets of what it holds down. The
-- sets are lists; the desktop below it is a parameter.
pub mod Enigo
pub mod Held
pub mod Keysym
pub mod Browser
pub mod Coords
pub mod Eis
use controlis.Prelude.{
  ℕ, zero, suc, ◌^◌, ◌-◌, Bool, true, false, not, ◌&&◌, ◌||◌, List, [], ◌∷◌, Result, ok, err, codes,
  decimal, ◌++◌, ◌==◌, nat_eq, if◌then◌else◌, Eq,
}
use controlis.Protocol.Message.{
  ℤ, pos, negsuc, MouseButton, left, right, middle, PointerAction, press, release, KeyCode, unicode,
  enter, escape, backspace, tab, space, delete, home, end, page_up, page_down, arrow_up, arrow_down,
  arrow_left, arrow_right, shift, control, alt, meta, caps_lock, function,
}
use controlis.Input.Enigo
use controlis.Input.Enigo.{Desktop}

pub data InputError : Type 0 where
  init : List ℕ → InputError
  inject : List ℕ → InputError

-- A number for each key, to compare keys by.
abbrev pub key_index : KeyCode → ℕ × ℕ
key_index (unicode c) = (0, c)
key_index (function n) = (1, n)
key_index enter = (2, 0)
key_index escape = (2, 1)
key_index backspace = (2, 2)
key_index tab = (2, 3)
key_index space = (2, 4)
key_index delete = (2, 5)
key_index home = (2, 6)
key_index end = (2, 7)
key_index page_up = (2, 8)
key_index page_down = (2, 9)
key_index arrow_up = (2, 10)
key_index arrow_down = (2, 11)
key_index arrow_left = (2, 12)
key_index arrow_right = (2, 13)
key_index shift = (2, 14)
key_index control = (2, 15)
key_index alt = (2, 16)
key_index meta = (2, 17)
key_index caps_lock = (2, 18)

abbrev pub key_beq : KeyCode → KeyCode → Bool
key_beq j k = ((key_index j).0 == (key_index k).0) && ((key_index j).1 == (key_index k).1)

abbrev pub button_beq : MouseButton → MouseButton → Bool
button_beq left left = true
button_beq right right = true
button_beq middle middle = true
button_beq _ _ = false

-- `HashSet` over the equality `eq`.
module _ {A : Type 0} (eq : A → A → Bool) where
  abbrev pub held : A → List A → Bool
  held a [] = false
  held a (x ∷ xs) = eq x a || held a xs

  abbrev pub hold : A → List A → List A
  hold a xs = if held a xs then xs else a ∷ xs

  abbrev pub let_go : A → List A → List A
  let_go a [] = []
  let_go a (x ∷ xs) = let rest = let_go a xs in if eq x a then rest else x ∷ rest

  abbrev pub track : PointerAction → A → List A → List A
  track press a xs = hold a xs
  track release a xs = let_go a xs

abbrev pub to_direction : PointerAction → Enigo.Direction
to_direction press = Enigo.press
to_direction release = Enigo.release

abbrev pub to_button : MouseButton → Enigo.Button
to_button left = Enigo.left
to_button right = Enigo.right
to_button middle = Enigo.middle

unfoldable pub function_key : ℕ → Result Enigo.Key InputError
function_key n =
    if n == 1
    then ok Enigo.f1
    else if n == 2
    then ok Enigo.f2
    else if n == 3
    then ok Enigo.f3
    else if n == 4
    then ok Enigo.f4
    else if n == 5
    then ok Enigo.f5
    else if n == 6
    then ok Enigo.f6
    else if n == 7
    then ok Enigo.f7
    else if n == 8
    then ok Enigo.f8
    else if n == 9
    then ok Enigo.f9
    else if n == 10
    then ok Enigo.f10
    else if n == 11
    then ok Enigo.f11
    else if n == 12
    then ok Enigo.f12
    else err (inject (codes "unsupported function key F" ++ decimal n))

unfoldable pub to_key : KeyCode → Result Enigo.Key InputError
to_key (unicode c) = ok (Enigo.unicode c)
to_key enter = ok Enigo.return
to_key escape = ok Enigo.escape
to_key backspace = ok Enigo.backspace
to_key tab = ok Enigo.tab
to_key space = ok Enigo.space
to_key delete = ok Enigo.delete
to_key home = ok Enigo.home
to_key end = ok Enigo.end
to_key page_up = ok Enigo.page_up
to_key page_down = ok Enigo.page_down
to_key arrow_up = ok Enigo.up_arrow
to_key arrow_down = ok Enigo.down_arrow
to_key arrow_left = ok Enigo.left_arrow
to_key arrow_right = ok Enigo.right_arrow
to_key shift = ok Enigo.shift
to_key control = ok Enigo.control
to_key alt = ok Enigo.alt
to_key meta = ok Enigo.meta
to_key caps_lock = ok Enigo.caps_lock
to_key (function n) = function_key n

pub record EnigoInjector (S : Type 0) : Type 0 where
  pub enigo : S
  pub held_keys : List KeyCode
  pub held_buttons : List MouseButton

abbrev pub Injected : Type 0 → Type 0
Injected S = EnigoInjector S × Result (Unit {0}) InputError

-- `-n` on an i32, which leaves the least one as it is.
abbrev pub negate : ℤ → ℤ
negate (pos zero) = pos zero
negate (pos (suc n)) = negsuc n
negate (negsuc n) = if n == 2 ^ 31 - 1 then negsuc n else pos (suc n)

abbrev pub is_zero : ℤ → Bool
is_zero (pos zero) = true
is_zero _ = false

module _ {S : Type 0} (d : Desktop S) where
  abbrev pub new : S → EnigoInjector S
  new s = record { enigo = s; held_keys = []; held_buttons = [] }

  abbrev pub answered : EnigoInjector S → S × Result (Unit {0}) (List ℕ) → Injected S
  answered i (s, ok _) = (record i { enigo = s }, ok tt)
  answered i (s, err e) = (record i { enigo = s }, err (inject e))

  -- A call, with the error wrapped.
  abbrev pub perform : EnigoInjector S → Enigo.Call → Injected S
  perform i c = answered i (d.call i.enigo c)

  unfoldable pub move_pointer : EnigoInjector S → ℤ → ℤ → Injected S
  move_pointer i x y = perform i (Enigo.move_mouse x y)

  abbrev pub tracked_button : MouseButton → PointerAction → Injected S → Injected S
  tracked_button b a (i, ok _) =
      (record i { held_buttons = track button_beq a b i.held_buttons }, ok tt)
  tracked_button b a (i, err e) = (i, err e)

  unfoldable pub mouse_button : EnigoInjector S → MouseButton → PointerAction → Injected S
  mouse_button i b a = tracked_button b a (perform i (Enigo.button (to_button b) (to_direction a)))

  abbrev pub scrolled : Injected S → ℤ → Enigo.Axis → Injected S
  scrolled (i, err e) steps axis = (i, err e)
  scrolled (i, ok _) steps axis =
      if is_zero steps then (i, ok tt) else perform i (Enigo.scroll steps axis)

  -- On the deltas rounded to an i32.
  unfoldable pub mouse_wheel : EnigoInjector S → ℤ → ℤ → Injected S
  mouse_wheel i steps_x steps_y =
      scrolled (scrolled (i, ok tt) steps_x Enigo.horizontal) (negate steps_y) Enigo.vertical

  abbrev pub tracked_key : KeyCode → PointerAction → Injected S → Injected S
  tracked_key k a (i, ok _) = (record i { held_keys = track key_beq a k i.held_keys }, ok tt)
  tracked_key k a (i, err e) = (i, err e)

  abbrev pub key_of :
      EnigoInjector S → KeyCode → PointerAction → Result Enigo.Key InputError → Injected S
  key_of i k a (err e) = (i, err e)
  key_of i k a (ok mapped) = tracked_key k a (perform i (Enigo.key mapped (to_direction a)))

  unfoldable pub key : EnigoInjector S → KeyCode → PointerAction → Injected S
  key i k a = key_of i k a (to_key k)

  unfoldable pub text : EnigoInjector S → List ℕ → Injected S
  text i t = perform i (Enigo.text t)

  abbrev release_key : S → Result Enigo.Key InputError → S
  release_key s (ok mapped) = (d.call s (Enigo.key mapped Enigo.release)).0
  release_key s (err e) = s

  -- The two loops of `release_all`.
  unfoldable pub release_keys : S → List KeyCode → S
  release_keys s [] = s
  release_keys s (k ∷ ks) = release_keys (release_key s (to_key k)) ks

  unfoldable pub release_buttons : S → List MouseButton → S
  release_buttons s [] = s
  release_buttons s (b ∷ bs) =
      release_buttons (d.call s (Enigo.button (to_button b) Enigo.release)).0 bs

  unfoldable pub release_all : EnigoInjector S → EnigoInjector S
  release_all i = record {
    enigo = release_buttons (release_keys i.enigo i.held_keys) i.held_buttons;
    held_keys = [];
    held_buttons = [];
  }
