-- ===== src/Input/Eis/Devices.antt =====
-- The changes of seats, devices and keymaps, which let no command in
-- (crates/wayland-portal/src/backend/eis_input.rs).
use controlis.Prelude.{
  ℕ, ◌+◌, ◌%◌, ◌^◌, codes, ◌==◌, nat_eq, ◌≡◌, refl, ap, ◌++◌, ◌∙◌, ◌∷◌, inl, inr, Bool, true, false,
  not, ◌&&◌, ◌||◌, Option, none, some, List, [], if◌then◌else◌, arith,
}
use controlis.Input.Eis.{
  KeyboardDevice, is_some, keyboard_ready, has, reverse_keymap, State, Request, start_emulating,
  flush_pending, bind, bind_mask, wanted_caps,
}
use controlis.Input.Eis.Handle.{
  resume, pause, load_keymap, finish_device, then_flush, start_keyboard, start_pointer,
  pointer_starts, keyboard_starts, pointer_of, keyboard_set, keyboard_at, with_capability,
  with_interface, bound, sending,
}
use controlis.Input.Eis.Flush.{
  typed_keys, keys_by, typed_keys-other, Idle, flush_pending-taken, Keeps, and_false,
}

module _ {F : Type 0} (as_f32 : F → F) (m : List (ℕ × ℕ)) where
  -- After a request that is no key, and then a flush.
  started :
      (s t : State F) (time : ℕ)
      → typed_keys t.sent ≡ typed_keys s.sent
      → t.pending ≡ s.pending
      → t.keymap ≡ s.keymap
      → Idle as_f32 m s
      → Keeps as_f32 m s (flush_pending as_f32 t time)
  started s t time sent waiting map idle =
      let (same, after) =
        flush_pending-taken as_f32 m t time
          (elim idle.1 [ inl e ↦ inl (map ∙ e) | inr e ↦ inr (map ∙ e) ]) in
      (
        same
            ∙ ap (λ rest. rest ++ keys_by m t.pending) sent
            ∙ ap (λ rest. typed_keys s.sent ++ keys_by m rest) waiting,
        after,
      )

  resumed-Keeps :
      (p q : Bool) (device : ℕ) (s : State F) (time : ℕ)
      → Idle as_f32 m s
      → Keeps as_f32 m s (
          then_flush as_f32
            (p || q)
            (start_keyboard as_f32 q device (start_pointer as_f32 p device s))
            time)
  resumed-Keeps false false device s time idle = (refl, idle)
  resumed-Keeps true true device s time idle =
      started s
        (let t = start_keyboard as_f32 true device (start_pointer as_f32 true device s) in
          record t { sequence = (t.sequence + 1) % 2 ^ 32 })
        time
        (typed_keys-other (s.sent ++ (start_emulating device s.last_serial s.sequence ∷ []))
            (start_emulating device s.last_serial s.sequence) refl
          ∙ typed_keys-other s.sent (start_emulating device s.last_serial s.sequence) refl)
        refl refl idle
  resumed-Keeps true false device s time idle =
      started s
        (let t = start_pointer as_f32 true device s in
          record t { sequence = (t.sequence + 1) % 2 ^ 32 })
        time (typed_keys-other s.sent (start_emulating device s.last_serial s.sequence) refl) refl
        refl idle
  resumed-Keeps false true device s time idle =
      started s
        (let t = start_keyboard as_f32 true device s in
          record t { sequence = (t.sequence + 1) % 2 ^ 32 })
        time (typed_keys-other s.sent (start_emulating device s.last_serial s.sequence) refl) refl
        refl idle

  weaker_keyboard :
      (b at : Bool) (o : Option KeyboardDevice)
      → (b && keyboard_ready (if at then keyboard_set as_f32 o false else o)) ≡ true
      → (b && keyboard_ready o) ≡ true
  weaker_keyboard b false o e = e
  weaker_keyboard b true none e = e
  weaker_keyboard b true (some d) e = ground (arith, e)

  pub pause-Keeps :
      (device : ℕ) (s : State F) → Idle as_f32 m s → Keeps as_f32 m s (pause as_f32 device s)
  unfolding pause
  pause-Keeps device s idle = (
    refl,
    (
      λ h.
          idle.0 (
            weaker_keyboard (is_some s.keymap) (keyboard_at as_f32 s.keyboard device) s.keyboard h),
      idle.1,
    ),
  )

  either-Keeps :
      (b : Bool) (s t u : State F)
      → Keeps as_f32 m s t
      → Keeps as_f32 m s u
      → Keeps as_f32 m s (if b then t else u)
  either-Keeps true s t u one other = one
  either-Keeps false s t u one other = other

  pub finish_device-Keeps :
      (device : ℕ) (names : Option (List (List ℕ))) (s : State F)
      → Idle as_f32 m s
      → Keeps as_f32 m s (finish_device as_f32 device names s)
  unfolding finish_device
  finish_device-Keeps device none s idle = (refl, idle)
  finish_device-Keeps device (some names) s idle =
      let a = has names (codes "ei_pointer_absolute") in
      let b = has names (codes "ei_button") in
      let c = has names (codes "ei_scroll") in
      either-Keeps (has names (codes "ei_keyboard")) s
        (record s { keyboard = some (record { device = device; emulating = false }) })
        (pointer_of as_f32 device names s)
        (refl, (λ h. absurd (and_false (is_some s.keymap) h), idle.1))
        (either-Keeps (a || b || c) s
          (record s {
            pointer = some (record {
              device = device;
              absolute = a;
              has_button = b;
              has_scroll = c;
              emulating = false;
            });
          })
          s (refl, idle) (refl, idle))

  pub resume-Keeps :
      (device : ℕ) (s : State F) (time : ℕ)
      → Idle as_f32 m s
      → Keeps as_f32 m s (resume as_f32 device s time)
  unfolding resume
  resume-Keeps device s time idle =
      resumed-Keeps (pointer_starts as_f32 s.pointer device)
        (keyboard_starts as_f32 s.keyboard device) device s time idle

  -- What is loaded, if it loads, is the keymap.
  abbrev pub IsMap : Option (List (ℕ × List ℕ)) → Type 0
  IsMap none = Unit
  IsMap (some keys) = reverse_keymap keys [] ≡ m

  pub load_keymap-Keeps :
      (keys : Option (List (ℕ × List ℕ))) (s : State F) (time : ℕ)
      → IsMap keys
      → Idle as_f32 m s
      → Keeps as_f32 m s (load_keymap as_f32 keys s time)
  unfolding load_keymap
  load_keymap-Keeps none s time same idle = (refl, idle)
  load_keymap-Keeps (some keys) s time same idle =
      flush_pending-taken as_f32 m (record s { keymap = some (reverse_keymap keys []) }) time
        (inr (ap some same))

  pub with_capability-Keeps :
      (seat mask : ℕ) (name : List ℕ) (caps : Option (List (List ℕ × ℕ))) (s : State F)
      → Idle as_f32 m s
      → Keeps as_f32 m s (with_capability as_f32 seat mask name caps s)
  with_capability-Keeps seat mask name none s idle = (refl, idle)
  with_capability-Keeps seat mask name (some caps) s idle = (refl, idle)

  -- A request that is no key.
  pub sending-Keeps :
      (s : State F) (r : Request F)
      → typed_keys (r ∷ []) ≡ []
      → Idle as_f32 m s
      → Keeps as_f32 m s (sending as_f32 s r)
  sending-Keeps s r other idle =
      (ap (λ rest. rest ++ keys_by m s.pending) (typed_keys-other s.sent r other), idle)

  pub bound-Keeps :
      (seat : ℕ) (caps : Option (List (List ℕ × ℕ))) (s : State F)
      → Idle as_f32 m s
      → Keeps as_f32 m s (bound as_f32 seat caps s)
  bound-Keeps seat none s idle = (refl, idle)
  bound-Keeps seat (some caps) s idle =
      let mask = bind_mask caps wanted_caps 0 in
      either-Keeps (not (mask == 0)) s (sending as_f32 s (bind seat mask)) s
        (sending-Keeps s (bind seat mask) refl idle) (refl, idle)

  pub with_interface-Keeps :
      (device : ℕ) (name : List ℕ) (names : Option (List (List ℕ))) (s : State F)
      → Idle as_f32 m s
      → Keeps as_f32 m s (with_interface as_f32 device name names s)
  with_interface-Keeps device name none s idle = (refl, idle)
  with_interface-Keeps device name (some names) s idle = (refl, idle)
