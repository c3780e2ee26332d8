-- ===== src/Input/Eis/Handle.antt =====
-- crates/wayland-portal/src/backend/eis_input.rs: the handling of events, and the end.
use controlis.Prelude.{
  ℕ, ◌+◌, ◌%◌, ◌^◌, Bool, true, false, not, ◌&&◌, ◌||◌, Option, none, some, List, [], ◌∷◌, ◌++◌,
  codes, if◌then◌else◌, ◌==◌, nat_eq, str_eq, lookup, insert,
}
use controlis.Input.Eis.{
  Request, handshake_done, ping_done, bind, start_emulating, stop_emulating, disconnected,
  PointerDevice, KeyboardDevice, State, Event, handshake_version, unhandled, connection_other,
  read_failed, shutdown, handshake_connection, connection_seat, connection_ping, seat_capability,
  seat_done, seat_device, device_interface, device_done, device_resumed, device_paused,
  keymap_loaded, input, interfaces, wanted_caps, bind_mask, has, reverse_keymap, on_input,
  flush_pending,
}

module _ {F : Type 0} (as_f32 : F → F) where
  abbrev pub sending : State F → Request F → State F
  sending s r = record s { sent = s.sent ++ (r ∷ []) }

  abbrev pub with_capability : ℕ → ℕ → List ℕ → Option (List (List ℕ × ℕ)) → State F → State F
  with_capability seat mask name none s = s
  with_capability seat mask name (some caps) s = record s {
    seats = insert seat (insert name mask caps) s.seats;
  }

  abbrev pub bound : ℕ → Option (List (List ℕ × ℕ)) → State F → State F
  bound seat none s = s
  bound seat (some caps) s =
      let mask = bind_mask caps wanted_caps 0 in
      if not (mask == 0) then sending s (bind seat mask) else s

  abbrev pub with_interface : ℕ → List ℕ → Option (List (List ℕ)) → State F → State F
  with_interface device name none s = s
  with_interface device name (some names) s = record s {
    devices = insert device (name ∷ names) s.devices;
  }

  abbrev pub pointer_of : ℕ → List (List ℕ) → State F → State F
  pointer_of device names s =
      let absolute = has names (codes "ei_pointer_absolute") in
      let has_button = has names (codes "ei_button") in
      let has_scroll = has names (codes "ei_scroll") in
      if absolute || has_button || has_scroll
      then record s {
        pointer = some (record {
          device = device;
          absolute = absolute;
          has_button = has_button;
          has_scroll = has_scroll;
          emulating = false;
        });
      }
      else s

  unfoldable pub finish_device : ℕ → Option (List (List ℕ)) → State F → State F
  finish_device device none s = s
  finish_device device (some names) s =
      if has names (codes "ei_keyboard")
      then record s { keyboard = some (record { device = device; emulating = false }) }
      else pointer_of device names s

  -- Whether the device is there and does not emulate yet.
  abbrev pub pointer_starts : Option PointerDevice → ℕ → Bool
  pointer_starts none device = false
  pointer_starts (some p) device = (p.device == device) && not p.emulating

  abbrev pub keyboard_starts : Option KeyboardDevice → ℕ → Bool
  keyboard_starts none device = false
  keyboard_starts (some k) device = (k.device == device) && not k.emulating

  abbrev pub pointer_set : Option PointerDevice → Bool → Option PointerDevice
  pointer_set none on = none
  pointer_set (some p) on = some (record p { emulating = on })

  abbrev pub keyboard_set : Option KeyboardDevice → Bool → Option KeyboardDevice
  keyboard_set none on = none
  keyboard_set (some k) on = some (record k { emulating = on })

  abbrev pub start_pointer : Bool → ℕ → State F → State F
  start_pointer false device s = s
  start_pointer true device s = record s {
    pointer = pointer_set s.pointer true;
    sent = s.sent ++ (start_emulating device s.last_serial s.sequence ∷ []);
  }

  abbrev pub start_keyboard : Bool → ℕ → State F → State F
  start_keyboard false device s = s
  start_keyboard true device s = record s {
    keyboard = keyboard_set s.keyboard true;
    sent = s.sent ++ (start_emulating device s.last_serial s.sequence ∷ []);
  }

  abbrev pub then_flush : Bool → State F → ℕ → State F
  then_flush false s time = s
  then_flush true s time =
      flush_pending as_f32 (record s { sequence = (s.sequence + 1) % 2 ^ 32 }) time

  unfoldable pub resume : ℕ → State F → ℕ → State F
  unfolding flush_pending
  resume device s time =
      let p = pointer_starts s.pointer device in
      let k = keyboard_starts s.keyboard device in
      then_flush (p || k) (start_keyboard k device (start_pointer p device s)) time

  abbrev pub pointer_at : Option PointerDevice → ℕ → Bool
  pointer_at none device = false
  pointer_at (some p) device = p.device == device

  abbrev pub keyboard_at : Option KeyboardDevice → ℕ → Bool
  keyboard_at none device = false
  keyboard_at (some k) device = k.device == device

  unfoldable pub pause : ℕ → State F → State F
  pause device s = record s {
    pointer = if pointer_at s.pointer device then pointer_set s.pointer false else s.pointer;
    keyboard = if keyboard_at s.keyboard device then keyboard_set s.keyboard false else s.keyboard;
  }

  unfoldable pub load_keymap : Option (List (ℕ × List ℕ)) → State F → ℕ → State F
  unfolding reverse_keymap flush_pending
  load_keymap none s time = s
  load_keymap (some keys) s time =
      flush_pending as_f32 (record s { keymap = some (reverse_keymap keys []) }) time

  -- `handle`, `on_readable` where reading fails, and the channel of commands; with the time in
  -- microseconds at which commands are applied.
  unfoldable pub handle : State F → Event F → ℕ → State F
  unfolding finish_device resume pause load_keymap on_input lookup insert bind_mask
  handle s read_failed time = record s { running = false }
  handle s shutdown time = record s { running = false }
  handle s handshake_version time = sending s (handshake_done interfaces)
  handle s unhandled time = s
  handle s connection_other time = record s { connected = true }
  handle s (handshake_connection serial) time = record s { last_serial = serial }
  handle s (connection_seat seat) time = record s {
    connected = true;
    seats = insert seat [] s.seats;
  }
  handle s (connection_ping ping) time = sending (record s { connected = true }) (ping_done ping)
  handle s (seat_capability seat mask name) time =
      with_capability seat mask name (lookup seat s.seats) s
  handle s (seat_done seat) time = bound seat (lookup seat s.seats) s
  handle s (seat_device seat device) time = record s { devices = insert device [] s.devices }
  handle s (device_interface device name) time =
      with_interface device name (lookup device s.devices) s
  handle s (device_done device) time = finish_device device (lookup device s.devices) s
  handle s (device_resumed device serial) time =
      resume device (record s { last_serial = serial }) time
  handle s (device_paused device serial) time = pause device (record s { last_serial = serial })
  handle s (keymap_loaded keys) time = load_keymap keys s time
  handle s (input c) time = on_input as_f32 s c time

  abbrev stop_pointer : Option PointerDevice → ℕ → List (Request F)
  stop_pointer none serial = []
  stop_pointer (some p) serial = if p.emulating then stop_emulating p.device serial ∷ [] else []

  abbrev stop_keyboard : Option KeyboardDevice → ℕ → List (Request F)
  stop_keyboard none serial = []
  stop_keyboard (some k) serial = if k.emulating then stop_emulating k.device serial ∷ [] else []

  unfoldable pub teardown : State F → State F
  teardown s = record s {
    pointer = pointer_set s.pointer false;
    keyboard = keyboard_set s.keyboard false;
    sent =
        s.sent
        ++ (stop_pointer s.pointer s.last_serial
            ++ (stop_keyboard s.keyboard s.last_serial
                ++ (if s.connected then disconnected ∷ [] else [])));
  }

  -- What one `dispatch` takes, in its order.
  unfoldable pub handle_batch : State F → List (Event F × ℕ) → State F
  unfolding handle
  handle_batch s [] = s
  handle_batch s ((e, time) ∷ es) = handle_batch (handle s e time) es

  -- The loop of `run`, which looks at the flag before each `dispatch`.
  unfoldable pub handle_all : State F → List (List (Event F × ℕ)) → State F
  unfolding handle_batch
  handle_all s [] = s
  handle_all s (batch ∷ more) = elim s.running [
    | false ↦ s
    | true ↦ handle_all (handle_batch s batch) more
  ]

  unfoldable pub run : State F → List (List (Event F × ℕ)) → State F
  unfolding handle_all teardown
  run s batches = teardown (handle_all s batches)
