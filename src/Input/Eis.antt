-- ===== src/Input/Eis.antt =====
-- crates/wayland-portal/src/backend/eis_input.rs: the client of an EIS server as a state machine. Seats
-- and devices are numbers; an f64 is a value of the type parameter, with its cast as an argument;
-- `reis` and `xkbcommon` are libraries, and what is sent to the server is a list of requests.
pub mod Handle
pub mod Flush
pub mod Devices
pub mod Order
use controlis.Prelude.{
  ℕ, zero, suc, ◌+◌, ◌-◌, ◌≡◌, Bool, true, false, not, ◌&&◌, ◌||◌, Option, none, some, List, [],
  ◌∷◌, ◌++◌, codes, if◌then◌else◌, ◌==◌, nat_eq, str_eq, lookup, insert,
}
use Prim.Native.Nat.{bit_or}

pub data InputCmd (F : Type 0) : Type 0 where
  motion : F → F → InputCmd F
  button : ℕ → Bool → InputCmd F
  axis : F → F → InputCmd F
  key : ℕ → Bool → InputCmd F

-- `disconnected` and `handshake_done` stand for `disconnect` and the whole answer to the handshake.
pub data Request (F : Type 0) : Type 0 where
  handshake_done : List (List ℕ) → Request F
  ping_done : ℕ → Request F
  bind : ℕ → ℕ → Request F
  start_emulating : ℕ → ℕ → ℕ → Request F
  stop_emulating : ℕ → ℕ → Request F
  motion_absolute : ℕ → F → F → Request F
  button_state : ℕ → ℕ → Bool → Request F
  scroll : ℕ → F → F → Request F
  key_state : ℕ → ℕ → Bool → Request F
  frame : ℕ → ℕ → ℕ → Request F
  disconnected : Request F

pub record PointerDevice : Type 0 where
  pub device : ℕ
  pub absolute : Bool
  pub has_button : Bool
  pub has_scroll : Bool
  pub emulating : Bool

pub record KeyboardDevice : Type 0 where
  pub device : ℕ
  pub emulating : Bool

-- `sent` are the requests.
pub record State (F : Type 0) : Type 0 where
  pub connected : Bool
  pub seats : List (ℕ × List (List ℕ × ℕ))
  pub devices : List (ℕ × List (List ℕ))
  pub pointer : Option PointerDevice
  pub keyboard : Option KeyboardDevice
  pub keymap : Option (List (ℕ × ℕ))
  pub last_serial : ℕ
  pub sequence : ℕ
  pub running : Bool
  pub pending : List (InputCmd F)
  pub sent : List (Request F)

-- The events of the server that are looked at, and those of the channel. `keymap_loaded` holds the
-- keysyms of every keycode, or none if the keymap does not load.
pub data Event (F : Type 0) : Type 0 where
  handshake_version connection_other unhandled read_failed shutdown : Event F
  handshake_connection : ℕ → Event F
  connection_seat : ℕ → Event F
  connection_ping : ℕ → Event F
  seat_capability : ℕ → ℕ → List ℕ → Event F
  seat_done : ℕ → Event F
  seat_device : ℕ → ℕ → Event F
  device_interface : ℕ → List ℕ → Event F
  device_done : ℕ → Event F
  device_resumed : ℕ → ℕ → Event F
  device_paused : ℕ → ℕ → Event F
  keymap_loaded : Option (List (ℕ × List ℕ)) → Event F
  input : InputCmd F → Event F

abbrev pub interfaces : List (List ℕ)
interfaces =
    codes "ei_callback"
    ∷ codes "ei_connection"
    ∷ codes "ei_seat"
    ∷ codes "ei_device"
    ∷ codes "ei_pingpong"
    ∷ codes "ei_pointer"
    ∷ codes "ei_pointer_absolute"
    ∷ codes "ei_button"
    ∷ codes "ei_scroll"
    ∷ codes "ei_keyboard"
    ∷ []

abbrev pub wanted_caps : List (List ℕ)
wanted_caps =
    codes "ei_pointer_absolute" ∷ codes "ei_button" ∷ codes "ei_scroll" ∷ codes "ei_keyboard" ∷ []

abbrev pub evdev_offset : ℕ
evdev_offset = 8

abbrev pub is_some : {A : Type 0} → Option A → Bool
is_some none = false
is_some (some a) = true

abbrev or_mask : Option ℕ → ℕ → ℕ
or_mask none mask = mask
or_mask (some m) mask = bit_or mask m

-- The mask of the wanted capabilities that the seat has.
unfoldable pub bind_mask : List (List ℕ × ℕ) → List (List ℕ) → ℕ → ℕ
unfolding lookup
bind_mask caps [] mask = mask
bind_mask caps (name ∷ names) mask = bind_mask caps names (or_mask (lookup name caps) mask)

abbrev pub has : List (List ℕ) → List ℕ → Bool
has [] name = false
has (x ∷ xs) name = (x == name) || has xs name

-- `entry(sym).or_insert(raw.saturating_sub(EVDEV_OFFSET))` for the keysyms of a keycode.
abbrev or_insert : ℕ → ℕ → Option ℕ → List (ℕ × ℕ) → List (ℕ × ℕ)
or_insert sym code (some old) m = m
or_insert sym code none m = insert sym code m

unfoldable pub add_syms : ℕ → List ℕ → List (ℕ × ℕ) → List (ℕ × ℕ)
unfolding insert lookup
add_syms raw [] m = m
add_syms raw (sym ∷ syms) m =
    add_syms raw syms (or_insert sym (raw - evdev_offset) (lookup sym m) m)

unfoldable pub reverse_keymap : List (ℕ × List ℕ) → List (ℕ × ℕ) → List (ℕ × ℕ)
unfolding add_syms
reverse_keymap [] m = m
reverse_keymap ((raw, syms) ∷ keys) m = reverse_keymap keys (add_syms raw syms m)

abbrev pub pointer_ready : Option PointerDevice → Bool
pointer_ready none = false
pointer_ready (some p) = p.emulating

abbrev pub keyboard_ready : Option KeyboardDevice → Bool
keyboard_ready none = false
keyboard_ready (some k) = k.emulating

abbrev pub is_key : {F : Type 0} → InputCmd F → Bool
is_key (key keysym pressed) = true
is_key _ = false

-- Whether commands for the keyboard, or for the pointer, are applied at once.
abbrev pub ready : {F : Type 0} → State F → Bool → Bool
ready s true = is_some s.keymap && keyboard_ready s.keyboard
ready s false = pointer_ready s.pointer

abbrev pub can_apply : {F : Type 0} → State F → InputCmd F → Bool
can_apply s c = ready s (is_key c)

abbrev pub keysym_code : Option (List (ℕ × ℕ)) → ℕ → Option ℕ
keysym_code none keysym = none
keysym_code (some m) keysym = lookup keysym m

module _ {F : Type 0} (as_f32 : F → F) where
  abbrev pub if_some : Bool → Request F → List (Request F)
  if_some true r = r ∷ []
  if_some false r = []

  abbrev pub pointed : Option PointerDevice → InputCmd F → ℕ → ℕ → List (Request F)
  pointed none c serial time = []
  pointed (some p) (motion x y) serial time =
      if_some p.absolute (motion_absolute p.device (as_f32 x) (as_f32 y))
      ++ (frame p.device serial time ∷ [])
  pointed (some p) (button code pressed) serial time =
      if_some p.has_button (button_state p.device code pressed) ++ (frame p.device serial time ∷ [])
  pointed (some p) (axis dx dy) serial time =
      if_some p.has_scroll (scroll p.device (as_f32 dx) (as_f32 dy))
      ++ (frame p.device serial time ∷ [])
  pointed (some p) (key keysym pressed) serial time = []

  abbrev pub typed : Option KeyboardDevice → Option ℕ → Bool → ℕ → ℕ → List (Request F)
  typed (some k) (some code) pressed serial time =
      key_state k.device code pressed ∷ frame k.device serial time ∷ []
  typed _ _ pressed serial time = []

  unfoldable pub requests : State F → InputCmd F → ℕ → List (Request F)
  unfolding lookup
  requests s (key keysym pressed) time =
      typed s.keyboard (keysym_code s.keymap keysym) pressed s.last_serial time
  requests s c time = pointed s.pointer c s.last_serial time

  unfoldable pub apply : State F → InputCmd F → ℕ → State F
  unfolding requests
  apply s c time = record s { sent = s.sent ++ requests s c time }

  abbrev offered : Bool → State F → InputCmd F → ℕ → State F
  offered true s c time = apply s c time
  offered false s c time = record s { pending = s.pending ++ (c ∷ []) }

  unfoldable pub on_input : State F → InputCmd F → ℕ → State F
  unfolding apply
  on_input s c time = offered (can_apply s c) s c time

  -- The loop of `flush_pending` on what was taken out.
  unfoldable pub flush_from : State F → List (InputCmd F) → ℕ → State F
  unfolding apply
  flush_from s [] time = s
  flush_from s (c ∷ cs) time = flush_from (offered (can_apply s c) s c time) cs time

  unfoldable pub flush_pending : State F → ℕ → State F
  unfolding flush_from
  flush_pending s time = flush_from (record s { pending = [] }) s.pending time
