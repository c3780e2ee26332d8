-- ===== src/Input/Enigo.antt =====
-- The crate `enigo` as crates/input/src/enigo_backend.rs uses it: the calls, and the values that
-- stand in them. What a call does to the desktop is a parameter.
use controlis.Prelude.{ℕ, List, Result}
use controlis.Protocol.Message.{ℤ}

pub data Direction : Type 0 where
  press release : Direction

pub data Button : Type 0 where
  left right middle : Button

pub data Axis : Type 0 where
  horizontal vertical : Axis

pub data Key : Type 0 where
  unicode : ℕ → Key
  return escape backspace tab space delete home end page_up page_down : Key
  up_arrow down_arrow left_arrow right_arrow shift control alt meta caps_lock : Key
  f1 f2 f3 f4 f5 f6 f7 f8 f9 f10 f11 f12 : Key

pub data Call : Type 0 where
  move_mouse : ℤ → ℤ → Call
  button : Button → Direction → Call
  scroll : ℤ → Axis → Call
  key : Key → Direction → Call
  text : List ℕ → Call

-- A desktop `S` answers each call with its new state and either success or an error's text.
pub record Desktop (S : Type 0) : Type 0 where
  pub call : S → Call → S × Result (Unit {0}) (List ℕ)
