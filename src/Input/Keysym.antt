-- ===== src/Input/Keysym.antt =====
-- crates/wayland-portal/src/backend/keysym.rs: the keysyms of the portal's backend.
use controlis.Prelude.{
  ℕ, ◌+◌, ◌-◌, ◌^◌, ◌<◌, ◌≡◌, refl, Bool, true, false, ◌&&◌, Option, none, some, leb, ltb,
  if◌then◌else◌, arith, Result, ok, err, nat_eq,
}
use controlis.Protocol.Message.{
  KeyCode, unicode, enter, escape, backspace, tab, space, delete, home, end, page_up, page_down,
  arrow_up, arrow_down, arrow_left, arrow_right, shift, control, alt, meta, caps_lock, function,
}
use controlis.Input.{InputError, to_key, function_key}

abbrev pub unicode_keysym : ℕ → ℕ
unicode_keysym c = if leb c 0x7f then c else 0x0100_0000 + c

-- `i32::try_from(..).ok()`
abbrev pub try_from : ℕ → Option ℕ
try_from sym = if ltb sym (2 ^ 31) then some sym else none

unfoldable pub to_keysym : KeyCode → Option ℕ
to_keysym (unicode c) = try_from (unicode_keysym c)
to_keysym enter = try_from 0xff0d
to_keysym escape = try_from 0xff1b
to_keysym backspace = try_from 0xff08
to_keysym tab = try_from 0xff09
to_keysym space = try_from 0x0020
to_keysym delete = try_from 0xffff
to_keysym home = try_from 0xff50
to_keysym end = try_from 0xff57
to_keysym page_up = try_from 0xff55
to_keysym page_down = try_from 0xff56
to_keysym arrow_left = try_from 0xff51
to_keysym arrow_up = try_from 0xff52
to_keysym arrow_right = try_from 0xff53
to_keysym arrow_down = try_from 0xff54
to_keysym shift = try_from 0xffe1
to_keysym control = try_from 0xffe3
to_keysym alt = try_from 0xffe9
to_keysym meta = try_from 0xffeb
to_keysym caps_lock = try_from 0xffe5
to_keysym (function n) = if leb 1 n && leb n 12 then try_from (0xffbe + (n - 1)) else none

-- A `char` is below 0x110000.
abbrev pub IsKey : KeyCode → Type 0
IsKey (unicode c) = c < 0x110000
IsKey _ = Unit

abbrev pub mapped : {A : Type 0} → Result A InputError → Bool
mapped (ok a) = true
mapped (err e) = false

abbrev pub present : {A : Type 0} → Option A → Bool
present (some a) = true
present none = false

function_agrees : (n : ℕ) → present (to_keysym (function n)) ≡ mapped (to_key (function n))
unfolding to_keysym to_key function_key
function_agrees n = ground arith

-- The two backends take the same keys: a key, with a character below 0x110000, has a keysym for
-- the portal exactly if it has a key of `enigo`.
pub to_keysym-to_key : (k : KeyCode) → IsKey k → present (to_keysym k) ≡ mapped (to_key k)
unfolding to_keysym to_key
to_keysym-to_key (unicode c) h = ground arith
to_keysym-to_key (function n) h = function_agrees n
to_keysym-to_key _ h = refl
