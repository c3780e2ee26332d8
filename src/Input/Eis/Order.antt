-- ===== src/Input/Eis/Order.antt =====
-- The order of commands (crates/wayland-portal/src/backend/eis_input.rs): what is queued while a device
-- is not ready is applied later, in order.
use controlis.Prelude.{
  ℕ, lookup, nat_eq, ◌≡◌, refl, sym, ap, ◌∙◌, Bool, true, false, All, List, [], ◌∷◌, ◌++◌,
}
use controlis.Input.Eis.{
  InputCmd, State, Event, handshake_version, unhandled, connection_other, read_failed, shutdown,
  handshake_connection, connection_seat, connection_ping, seat_capability, seat_done, seat_device,
  device_interface, device_done, device_resumed, device_paused, keymap_loaded, input, can_apply,
  on_input, ping_done, handshake_done, interfaces,
}
use controlis.Input.Eis.Handle.{
  handle, handle_batch, handle_all, resume, pause, load_keymap, finish_device, with_capability,
  with_interface, bound, sending,
}
use controlis.Input.Eis.Flush.{
  keys_by, keys_by-append, taken, Idle, append_nil, append_assoc, offered-taken, Keeps,
}
use controlis.Input.Eis.Devices.{
  pause-Keeps, finish_device-Keeps, resume-Keeps, load_keymap-Keeps, with_capability-Keeps,
  bound-Keeps, sending-Keeps, IsMap, with_interface-Keeps,
}

module _ {F : Type 0} (as_f32 : F → F) (m : List (ℕ × ℕ)) where
  -- What one event lets in.
  abbrev lets_in : Event F → List (InputCmd F)
  lets_in (input c) = c ∷ []
  lets_in _ = []

  -- The only keymap that loads is this one.
  abbrev pub Loads : Event F → Type 0
  Loads (keymap_loaded keys) = IsMap as_f32 m keys
  Loads _ = Unit

  abbrev pub AllLoad : List (Event F × ℕ) → Type 0
  AllLoad es = All (λ (e : Event F × ℕ). Loads (e.0)) es

  kept :
      (s t : State F)
      → Keeps as_f32 m s t
      → (taken as_f32 m t ≡ taken as_f32 m s ++ keys_by {F = F} m []) × Idle as_f32 m t
  kept s t (e, idle) = (e ∙ sym (append_nil (taken as_f32 m s)), idle)

  handle-taken :
      (s : State F) (e : Event F) (time : ℕ)
      → Loads e
      → Idle as_f32 m s
      → (taken as_f32 m (handle as_f32 s e time) ≡ taken as_f32 m s ++ keys_by m (lets_in e))
        × Idle as_f32 m (handle as_f32 s e time)
  unfolding handle on_input
  handle-taken s (input c) time loads idle =
      offered-taken as_f32 m (can_apply s c) s c time refl idle
  handle-taken s (device_resumed device serial) time loads idle =
      kept s (resume as_f32 device (record s { last_serial = serial }) time)
        (resume-Keeps as_f32 m device (record s { last_serial = serial }) time idle)
  handle-taken s (device_paused device serial) time loads idle =
      kept s (pause as_f32 device (record s { last_serial = serial }))
        (pause-Keeps as_f32 m device (record s { last_serial = serial }) idle)
  handle-taken s (keymap_loaded keys) time loads idle =
      kept s (load_keymap as_f32 keys s time) (load_keymap-Keeps as_f32 m keys s time loads idle)
  handle-taken s (device_done device) time loads idle =
      kept s (finish_device as_f32 device (lookup device s.devices) s)
        (finish_device-Keeps as_f32 m device (lookup device s.devices) s idle)
  handle-taken s (seat_capability seat mask name) time loads idle =
      kept s (with_capability as_f32 seat mask name (lookup seat s.seats) s)
        (with_capability-Keeps as_f32 m seat mask name (lookup seat s.seats) s idle)
  handle-taken s (seat_done seat) time loads idle =
      kept s (bound as_f32 seat (lookup seat s.seats) s)
        (bound-Keeps as_f32 m seat (lookup seat s.seats) s idle)
  handle-taken s (device_interface device name) time loads idle =
      kept s (with_interface as_f32 device name (lookup device s.devices) s)
        (with_interface-Keeps as_f32 m device name (lookup device s.devices) s idle)
  handle-taken s (seat_device seat device) time loads idle =
      (sym (append_nil (taken as_f32 m s)), idle)
  handle-taken s (connection_seat seat) time loads idle =
      (sym (append_nil (taken as_f32 m s)), idle)
  handle-taken s (connection_ping ping) time loads idle =
      kept s (sending as_f32 (record s { connected = true }) (ping_done ping))
        (sending-Keeps as_f32 m (record s { connected = true }) (ping_done ping) refl idle)
  handle-taken s (handshake_connection serial) time loads idle =
      (sym (append_nil (taken as_f32 m s)), idle)
  handle-taken s handshake_version time loads idle =
      kept s (sending as_f32 s (handshake_done interfaces))
        (sending-Keeps as_f32 m s (handshake_done interfaces) refl idle)
  handle-taken s unhandled time loads idle = (sym (append_nil (taken as_f32 m s)), idle)
  handle-taken s connection_other time loads idle = (sym (append_nil (taken as_f32 m s)), idle)
  handle-taken s read_failed time loads idle = (sym (append_nil (taken as_f32 m s)), idle)
  handle-taken s shutdown time loads idle = (sym (append_nil (taken as_f32 m s)), idle)

  abbrev batch_in : List (Event F × ℕ) → List (InputCmd F)
  batch_in [] = []
  batch_in ((e, time) ∷ es) = lets_in e ++ batch_in es

  -- The commands that come in while the loop runs.
  abbrev pub heard : State F → List (List (Event F × ℕ)) → List (InputCmd F)
  heard s [] = []
  heard s (batch ∷ more) = elim s.running [
    | false ↦ []
    | true ↦ batch_in batch ++ heard (handle_batch as_f32 s batch) more
  ]

  joined :
      (s t u : State F) (now later : List (InputCmd F))
      → taken as_f32 m t ≡ taken as_f32 m s ++ keys_by m now
      → taken as_f32 m u ≡ taken as_f32 m t ++ keys_by m later
      → taken as_f32 m u ≡ taken as_f32 m s ++ keys_by m (now ++ later)
  joined s t u now later one all =
      all
      ∙ ap (λ rest. rest ++ keys_by m later) one
      ∙ append_assoc (taken as_f32 m s) (keys_by m now) (keys_by m later)
      ∙ ap (λ rest. taken as_f32 m s ++ rest) (sym (keys_by-append m now later))

  handle_batch-taken :
      (s : State F) (es : List (Event F × ℕ))
      → AllLoad es
      → Idle as_f32 m s
      → (taken as_f32 m (handle_batch as_f32 s es) ≡ taken as_f32 m s ++ keys_by m (batch_in es))
        × Idle as_f32 m (handle_batch as_f32 s es)
  unfolding handle_batch
  handle_batch-taken s [] loads idle = (sym (append_nil (taken as_f32 m s)), idle)
  handle_batch-taken s ((e, time) ∷ es) (load, loads) idle =
      let t = handle as_f32 s e time in
      let (one, idle_one) = handle-taken s e time load idle in
      let (all, idle_all) = handle_batch-taken t es loads idle_one in
      (joined s t (handle_batch as_f32 t es) (lets_in e) (batch_in es) one all, idle_all)

  handled :
      (b : Bool) (s : State F) (now : List (InputCmd F)) (t u : State F) (later : List (InputCmd F))
      → Idle as_f32 m s
      → taken as_f32 m t ≡ taken as_f32 m s ++ keys_by m now
      → (taken as_f32 m u ≡ taken as_f32 m t ++ keys_by m later) × Idle as_f32 m u
      → (taken as_f32 m (elim b [ false ↦ s | true ↦ u ])
          ≡ taken as_f32 m s ++ keys_by m (elim b [ false ↦ [] | true ↦ now ++ later ]))
        × Idle as_f32 m (elim b [ false ↦ s | true ↦ u ])
  handled false s now t u later idle one more = (sym (append_nil (taken as_f32 m s)), idle)
  handled true s now t u later idle one (all, idle_all) = (joined s t u now later one all, idle_all)

  -- Whatever the order in which seats, devices, the keymap, pauses and commands come while the client
  -- runs, the key states that it sends, followed by those that wait, are those of the keys that came
  -- in and that the keymap has: none is lost, doubled or overtaken by another, and none waits for a
  -- keyboard that is ready. No other keymap loads, and none waits so at the start.
  pub handle_all-taken :
      (s : State F) (batches : List (List (Event F × ℕ)))
      → All AllLoad batches
      → Idle as_f32 m s
      → (taken as_f32 m (handle_all as_f32 s batches)
          ≡ taken as_f32 m s ++ keys_by m (heard s batches))
        × Idle as_f32 m (handle_all as_f32 s batches)
  unfolding handle_all
  handle_all-taken s [] loads idle = (sym (append_nil (taken as_f32 m s)), idle)
  handle_all-taken s (batch ∷ more) (load, loads) idle =
      let t = handle_batch as_f32 s batch in
      let (one, idle_one) = handle_batch-taken s batch load idle in
      handled s.running s (batch_in batch) t (handle_all as_f32 t more) (heard t more) idle one
        (handle_all-taken t more loads idle_one)
