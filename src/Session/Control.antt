-- ===== src/Session/Control.antt =====
-- crates/session-host/src/session.rs: `control_loop`, over the sequence of what its `select!` takes.
use controlis.Prelude.{
  ℕ, ◌≡◌, refl, ◌∙◌, sym, ap, ◌⊎◌, inl, inr, true, Option, none, some, Bool-cases, List, [], ◌∷◌,
  ◌++◌, codes, if◌then◌else◌, arith, ◌==◌, nat_eq, nat_beq_iff,
}
use controlis.Protocol.Message.{
  ℤ, MonitorInfo, ControlMessage, mouse_move, select_monitor, mouse_button, mouse_wheel, key_event,
  text, ping, pong, disconnect, resize,
}
use controlis.Input.Coords.{Floats, normalized_to_pixel}
use controlis.Session.{HostCommand, approve, decline, stop}
use controlis.Session.Injection.{InputAction, move, button, wheel, key_action, text_action}

-- What one turn of the loop takes: a command, or none when the channel is closed, or a message, or
-- none when `recv` fails.
pub data Turn (F : Type 0) : Type 0 where
  command : Option HostCommand → Turn F
  message : Option (ControlMessage F) → Turn F

-- The state of the loop: the active monitor and the id that the capture thread reads, what was
-- sent to the viewer and to the injection thread.
pub record Control (F : Type 0) : Type 0 where
  pub active : MonitorInfo
  pub active_id : ℕ
  pub sent : List (ControlMessage F)
  pub inputs : List InputAction

-- `monitors.iter().find(|m| m.id == monitor_id)`
unfoldable pub find_monitor : List MonitorInfo → ℕ → Option MonitorInfo
find_monitor [] id = none
find_monitor (m ∷ ms) id = if m.id == id then some m else find_monitor ms id

-- The rounding of the wheel's deltas is done by the injector.
module _ {F : Type 0} (floats : Floats F) (rounded : F → ℤ) (monitors : List MonitorInfo) where
  abbrev inject : Control F → InputAction → Control F
  inject c a = record c { inputs = c.inputs ++ (a ∷ []) }

  abbrev reply : Control F → ControlMessage F → Control F
  reply c m = record c { sent = c.sent ++ (m ∷ []) }

  abbrev pointed : Control F → ℤ × ℤ → Control F
  pointed c (x, y) = inject c (move x y)

  abbrev selected : Control F → ℕ → Option MonitorInfo → Control F
  selected c id none = c
  selected c id (some m) =
      reply (record c { active = m; active_id = id }) (resize m.width_px m.height_px)

  -- A turn ends the loop with a reason, or the loop goes on.
  unfoldable pub turn : Control F → Turn F → Control F × Option (List ℕ)
  turn c (command (some stop)) = (c, some (codes "host ended the session"))
  turn c (command none) = (c, some (codes "host ended the session"))
  turn c (command (some _)) = (c, none)
  turn c (message none) = (c, some (codes "connection lost"))
  turn c (message (some (mouse_move x y))) = (
    pointed c (
        normalized_to_pixel floats x y c.active.origin_x c.active.origin_y c.active.width_px
          c.active.height_px),
    none,
  )
  turn c (message (some (select_monitor id))) = (selected c id (find_monitor monitors id), none)
  turn c (message (some (mouse_button b a))) = (inject c (button b a), none)
  turn c (message (some (mouse_wheel x y))) = (inject c (wheel (rounded x) (rounded y)), none)
  turn c (message (some (key_event k a))) = (inject c (key_action k a), none)
  turn c (message (some (text t))) = (inject c (text_action t), none)
  turn c (message (some (ping nonce))) = (reply c (pong nonce), none)
  turn c (message (some (disconnect reason))) = (c, some (codes "viewer disconnected: " ++ reason))
  turn c (message (some _)) = (c, none)

  abbrev pub go_on :
      Control F × Option (List ℕ)
      → (Control F → Control F × Option (List ℕ))
      → Control F × Option (List ℕ)
  go_on (c, some reason) more = (c, some reason)
  go_on (c, none) more = more c

  -- The reason is none while the loop still runs after these turns.
  unfoldable pub control_loop : Control F → List (Turn F) → Control F × Option (List ℕ)
  control_loop c [] = (c, none)
  control_loop c (t ∷ ts) = go_on (turn c t) (λ c. control_loop c ts)

  abbrev pub OneOf : MonitorInfo → List MonitorInfo → Type 0
  OneOf m [] = ⊥
  OneOf m (x ∷ xs) = (x ≡ m) ⊎ OneOf m xs

  -- The capture thread reads the id of the monitor by which pointers are placed, and that monitor
  -- is one that was announced.
  pub record Agreed (c : Control F) : Type 0 where
    pub announced : OneOf c.active monitors
    pub followed : c.active_id ≡ c.active.id

  found-OneOf :
      (ms : List MonitorInfo) (id : ℕ) (m : MonitorInfo)
      → find_monitor ms id ≡ some m
      → OneOf m ms × (id ≡ m.id)
  unfolding find_monitor
  found-OneOf [] id m e = absurd (cc)
  found-OneOf (x ∷ ms) id m e = elim (Bool-cases (x.id == id)) [
    | inl here ↦
        let same : x ≡ m = the_one (rw here at e) in
        (inl same, sym (number here) ∙ ap (λ (m : MonitorInfo). m.id) same)
    | inr other ↦ let (w, n) = found-OneOf ms id m (rw other at e) in (inr w, n)
  ]
    where
      the_one : some x ≡ some m → x ≡ m
      the_one e = cc

      number : (x.id == id) ≡ true → x.id ≡ id
      number t = ground (arith, nat_beq_iff x.id id)

  selected-Agreed :
      (c : Control F) (id : ℕ) (o : Option MonitorInfo)
      → find_monitor monitors id ≡ o
      → Agreed c
      → Agreed (selected c id o)
  selected-Agreed c id none e g = g
  selected-Agreed c id (some m) e g =
      let (w, n) = found-OneOf monitors id m e in record { announced = w; followed = n }

  turn-Agreed : (c : Control F) (t : Turn F) → Agreed c → Agreed (turn c t).0
  unfolding turn
  turn-Agreed c (message (some (select_monitor id))) g =
      selected-Agreed c id (find_monitor monitors id) refl g
  turn-Agreed c (message (some _)) g = record { announced = g.announced; followed = g.followed }
  turn-Agreed c (message none) g = g
  turn-Agreed c (command (some stop)) g = g
  turn-Agreed c (command (some approve)) g = g
  turn-Agreed c (command (some decline)) g = g
  turn-Agreed c (command none) g = g

  go_on-Agreed :
      (x : Control F × Option (List ℕ)) (more : Control F → Control F × Option (List ℕ))
      → Agreed x.0
      → ((c : Control F) → Agreed c → Agreed (more c).0)
      → Agreed (go_on x more).0
  go_on-Agreed (c, some reason) more g k = g
  go_on-Agreed (c, none) more g k = k c g

  -- Through all of a session's turns the monitor by which pointers are placed is one that was
  -- announced, and it is the one whose id the capture thread reads, if it is so at the start.
  pub control_loop-Agreed :
      (c : Control F) (ts : List (Turn F)) → Agreed c → Agreed (control_loop c ts).0
  unfolding control_loop
  control_loop-Agreed c [] g = g
  control_loop-Agreed c (t ∷ ts) g =
      go_on-Agreed (turn c t) (λ c. control_loop c ts) (turn-Agreed c t g)
        (λ c g. control_loop-Agreed c ts g)
