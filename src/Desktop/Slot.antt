-- ===== src/Desktop/Slot.antt =====
-- apps/controlis-app/src-tauri/src/commands/viewer.rs: the session that the window holds, its input,
-- and the pumps of events and of frames.
use controlis.Prelude.{
  ℕ, suc, ◌<◌, ◌≡◌, refl, sym, ap, All, ◌⊎◌, inl, inr, Bool, true, false, Option, none, some, List,
  [], ◌∷◌, ◌++◌, map, codes, arith, nat_eq, Result, ok, err,
}
use controlis.Protocol.Message.{ControlMessage, select_monitor, disconnect}
use controlis.Codec.{RgbaFrame, CodecError}
use controlis.Codec.Jpeg.{Jpeg, encode_jpeg}
use controlis.Input.Browser.{UiInputEvent, to_control_message}
use controlis.Session.Viewer.Tasks.{
  ViewerEvent, frame_ready, resized, monitors_updated, disconnected, failed,
}
use controlis.Desktop.Connect.{MonitorUi, monitor_ui}

-- `ui_failed` is the variant `Error`.
pub data ViewerUiEvent : Type 0 where
  ui_resized : ℕ → ℕ → ViewerUiEvent
  ui_monitors_updated : List MonitorUi → ViewerUiEvent
  ui_disconnected : List ℕ → ViewerUiEvent
  ui_failed : List ℕ → ViewerUiEvent

-- `pump_events`: what the window is sent, by whether each send succeeds. It ends with the flag of
-- the frame pump set, whichever way it ends.
unfoldable pub pump_events : List (ViewerEvent × Bool) → List ViewerUiEvent
pump_events [] = []
pump_events ((frame_ready, delivered) ∷ rest) = pump_events rest
pump_events ((disconnected reason, delivered) ∷ rest) = ui_disconnected reason ∷ []
pump_events ((resized w h, true) ∷ rest) = ui_resized w h ∷ pump_events rest
pump_events ((resized w h, false) ∷ rest) = ui_resized w h ∷ []
pump_events ((monitors_updated ms, true) ∷ rest) =
    ui_monitors_updated (map monitor_ui ms) ∷ pump_events rest
pump_events ((monitors_updated ms, false) ∷ rest) = ui_monitors_updated (map monitor_ui ms) ∷ []
pump_events ((failed message, true) ∷ rest) = ui_failed message ∷ pump_events rest
pump_events ((failed message, false) ∷ rest) = ui_failed message ∷ []

-- Nothing is sent after the end of the session.
abbrev pub EndsLast : List ViewerUiEvent → Type 0
EndsLast [] = Unit
EndsLast (ui_disconnected reason ∷ rest) = rest ≡ []
EndsLast (_ ∷ rest) = EndsLast rest

-- The window is told of the end of its session at most once and hears nothing after it, in whatever
-- order the three tasks of the viewer send their events, two of which may tell the end.
pub pump_events-EndsLast : (events : List (ViewerEvent × Bool)) → EndsLast (pump_events events)
unfolding pump_events
pump_events-EndsLast [] = tt
pump_events-EndsLast ((frame_ready, delivered) ∷ rest) = pump_events-EndsLast rest
pump_events-EndsLast ((disconnected reason, delivered) ∷ rest) = refl
pump_events-EndsLast ((resized w h, true) ∷ rest) = pump_events-EndsLast rest
pump_events-EndsLast ((resized w h, false) ∷ rest) = tt
pump_events-EndsLast ((monitors_updated ms, true) ∷ rest) = pump_events-EndsLast rest
pump_events-EndsLast ((monitors_updated ms, false) ∷ rest) = tt
pump_events-EndsLast ((failed message, true) ∷ rest) = pump_events-EndsLast rest
pump_events-EndsLast ((failed message, false) ∷ rest) = tt

-- What the window is told by an event, if anything.
abbrev pub told : ViewerEvent → List ViewerUiEvent
told frame_ready = []
told (resized w h) = ui_resized w h ∷ []
told (monitors_updated ms) = ui_monitors_updated (map monitor_ui ms) ∷ []
told (disconnected reason) = ui_disconnected reason ∷ []
told (failed message) = ui_failed message ∷ []

abbrev pub told_all : List (ViewerEvent × Bool) → List ViewerUiEvent
told_all [] = []
told_all ((e, delivered) ∷ rest) = told e ++ told_all rest

-- Not the end, and delivered.
abbrev pub GoesOn : ViewerEvent × Bool → Type 0
GoesOn (disconnected reason, delivered) = ⊥
GoesOn (_, delivered) = delivered ≡ true

-- Up to the first event of the end on the channel that the viewer's three tasks share, the window is
-- told of all but the frames, in order, and then of the end: once, and of nothing after it, whatever
-- the tasks still send. The window takes what it is sent before the end.
pub pump_events-disconnected :
    (before after : List (ViewerEvent × Bool)) (reason : List ℕ) (delivered : Bool)
    → All GoesOn before
    → pump_events (before ++ ((disconnected reason, delivered) ∷ after))
      ≡ told_all before ++ (ui_disconnected reason ∷ [])
unfolding pump_events
pump_events-disconnected [] after reason delivered h = refl
pump_events-disconnected ((frame_ready, b) ∷ rest) after reason delivered (h, more) =
    pump_events-disconnected rest after reason delivered more
pump_events-disconnected ((disconnected r, b) ∷ rest) after reason delivered (h, more) = absurd h
pump_events-disconnected ((resized w h, true) ∷ rest) after reason delivered (e, more) =
    ap (λ out. ui_resized w h ∷ out) (pump_events-disconnected rest after reason delivered more)
pump_events-disconnected ((monitors_updated ms, true) ∷ rest) after reason delivered (e, more) =
    ap (λ out. ui_monitors_updated (map monitor_ui ms) ∷ out)
      (pump_events-disconnected rest after reason delivered more)
pump_events-disconnected ((failed message, true) ∷ rest) after reason delivered (e, more) =
    ap (λ out. ui_failed message ∷ out) (pump_events-disconnected rest after reason delivered more)
pump_events-disconnected ((resized w h, false) ∷ rest) after reason delivered (e, more) =
    absurd (cc (e))
pump_events-disconnected ((monitors_updated ms, false) ∷ rest) after reason delivered (e, more) =
    absurd (cc (e))
pump_events-disconnected ((failed message, false) ∷ rest) after reason delivered (e, more) =
    absurd (cc (e))

-- One turn of the frame pump: the flag, what is in the slot, and whether the send succeeds.
pub record Look : Type 0 where
  pub stop : Bool
  pub frame : Option RgbaFrame
  pub delivered : Bool

module _ (j : Jpeg) where
  -- `codec::encode_rgba_to_jpeg`
  abbrev pub encode_rgba_to_jpeg : RgbaFrame → Result (List ℕ) CodecError
  encode_rgba_to_jpeg f = encode_jpeg j f.data_bytes f.width f.height

  abbrev pushed : List (List ℕ) → Bool → Result (List ℕ) CodecError → List (List ℕ)
  pushed later delivered (err e) = later
  pushed later true (ok jpeg) = jpeg ∷ later
  pushed later false (ok jpeg) = jpeg ∷ []

  abbrev looked : List (List ℕ) → Bool → Bool → Option RgbaFrame → List (List ℕ)
  looked later true delivered frame = []
  looked later false delivered none = later
  looked later false delivered (some f) = pushed later delivered (encode_rgba_to_jpeg f)

  -- The loop of `spawn_frame_pump`: the images that the window is sent.
  unfoldable pub frame_pump : List Look → List (List ℕ)
  frame_pump [] = []
  frame_pump (l ∷ ls) = looked (frame_pump ls) l.stop l.delivered l.frame

-- A session has a number; `sent` is what its input channel was given.
pub record ActiveViewer (F : Type 0) : Type 0 where
  pub session : ℕ
  pub sent : List (ControlMessage F)

-- `stopped` holds the sessions whose `stop_frames` is set, and `sent` what those were given.
pub record ViewerSlot (F : Type 0) : Type 0 where
  pub active : Option (ActiveViewer F)
  pub next : ℕ
  pub stopped : List ℕ
  pub given : List (ℕ × List (ControlMessage F))

-- A call of a command; `connecting` is what `connect_viewer` does before it waits for the network, and
-- `started` what it does in the end if that succeeds, whatever was called meanwhile.
pub data Call (F : Type 0) : Type 0 where
  started connecting disconnect_call : Call F
  input_call : UiInputEvent F → Call F
  select_call : ℕ → Call F

nat_cases : (n m : ℕ) → n < suc m → (n ≡ m) ⊎ (n < m)
nat_cases n m h = ground (arith, h)

module _ {F : Type 0} (clamp : F → F) where
  -- `take()` and the `Drop` of what it gives.
  abbrev drop_viewer : Option (ActiveViewer F) → ViewerSlot F → ViewerSlot F
  drop_viewer none s = s
  drop_viewer (some v) s = record s {
    active = none;
    stopped = v.session ∷ s.stopped;
    given = (v.session, v.sent) ∷ s.given;
  }

  abbrev to_active : Option (ActiveViewer F) → Option (ControlMessage F) → Option (ActiveViewer F)
  to_active none m = none
  to_active (some v) none = some v
  to_active (some v) (some m) = some (record v { sent = v.sent ++ (m ∷ []) })

  abbrev send_to : ViewerSlot F → Option (ControlMessage F) → ViewerSlot F
  send_to s m = record s { active = to_active s.active m }

  -- `*slot = Some(..)`, when what was there is dropped.
  abbrev filled : ViewerSlot F → ViewerSlot F
  filled s = record s { active = some (record { session = s.next; sent = [] }); next = suc s.next }

  -- `drop(slot.take())`, before the network is asked.
  abbrev take_session : ViewerSlot F → ViewerSlot F
  take_session s = drop_viewer s.active s

  -- The new session in the slot, when the network has answered; what stands there by then is dropped.
  abbrev set_session : ViewerSlot F → ViewerSlot F
  set_session s = filled (drop_viewer s.active s)

  unfoldable pub call : ViewerSlot F → Call F → ViewerSlot F
  unfolding to_control_message
  call s started = set_session s
  call s connecting = take_session s
  call s disconnect_call =
      let told = send_to s (some (disconnect (codes "viewer closed"))) in
      drop_viewer told.active told
  call s (input_call event) = send_to s (to_control_message clamp event)
  call s (select_call id) = send_to s (some (select_monitor id))

  unfoldable pub calls : ViewerSlot F → List (Call F) → ViewerSlot F
  unfolding call
  calls s [] = s
  calls s (c ∷ cs) = calls (call s c) cs

  abbrev pub OneOf : ℕ → List ℕ → Type 0
  OneOf n [] = ⊥
  OneOf n (x ∷ xs) = (x ≡ n) ⊎ OneOf n xs

  abbrev IsActive : ℕ → Option (ActiveViewer F) → Type 0
  IsActive n none = ⊥
  IsActive n (some v) = v.session ≡ n

  -- Every session but the one that the slot holds has its frame pump stopped.
  abbrev pub Accounted : ViewerSlot F → Type 0
  Accounted s = (n : ℕ) → n < s.next → IsActive n s.active ⊎ OneOf n s.stopped

  Stopped : ViewerSlot F → Type 0
  Stopped s = (n : ℕ) → n < s.next → OneOf n s.stopped

  drop-Stopped :
      (a : Option (ActiveViewer F)) (s : ViewerSlot F)
      → ((n : ℕ) → n < s.next → IsActive n a ⊎ OneOf n s.stopped)
      → Stopped (drop_viewer a s)
  unfolding Stopped
  drop-Stopped none s known n h = elim (known n h) [ inl e ↦ absurd e | inr w ↦ w ]
  drop-Stopped (some v) s known n h = elim (known n h) [ inl e ↦ inl e | inr w ↦ inr w ]

  drop-Accounted :
      (a : Option (ActiveViewer F)) (s : ViewerSlot F)
      → Stopped (drop_viewer a s)
      → Accounted (drop_viewer a s)
  unfolding Stopped
  drop-Accounted a s known n h = inr (known n h)

  sent-IsActive :
      (n : ℕ) (a : Option (ActiveViewer F)) (m : Option (ControlMessage F))
      → IsActive n a
      → IsActive n (to_active a m)
  sent-IsActive n none m e = e
  sent-IsActive n (some v) none e = e
  sent-IsActive n (some v) (some m) e = e

  send-Accounted :
      (s : ViewerSlot F) (m : Option (ControlMessage F)) → Accounted s → Accounted (send_to s m)
  send-Accounted s m known n h = elim (known n h) [
    | inl e ↦ inl (sent-IsActive n s.active m e)
    | inr w ↦ inr w
  ]

  filled-Accounted : (s : ViewerSlot F) → Stopped s → Accounted (filled s)
  unfolding Stopped
  filled-Accounted s known n h = elim (nat_cases n s.next h) [
    | inl e ↦ inl (sym e)
    | inr below ↦ inr (known n below)
  ]

  call-Accounted : (s : ViewerSlot F) (c : Call F) → Accounted s → Accounted (call s c)
  unfolding call
  call-Accounted s started known =
      filled-Accounted (drop_viewer s.active s) (drop-Stopped s.active s known)
  call-Accounted s connecting known = drop-Accounted s.active s (drop-Stopped s.active s known)
  call-Accounted s disconnect_call known =
      let told = send_to s (some (disconnect (codes "viewer closed"))) in
      drop-Accounted told.active told (
        drop-Stopped told.active told
          (send-Accounted s (some (disconnect (codes "viewer closed"))) known))
  call-Accounted s (input_call event) known =
      send-Accounted s (to_control_message clamp event) known
  call-Accounted s (select_call id) known = send-Accounted s (some (select_monitor id)) known

  -- Whatever the window calls, every session that was started has its frame pump stopped, but for the
  -- one session that the window holds, if it was so before.
  pub calls-Accounted :
      (s : ViewerSlot F) (cs : List (Call F)) → Accounted s → Accounted (calls s cs)
  unfolding calls
  calls-Accounted s [] known = known
  calls-Accounted s (c ∷ cs) known = calls-Accounted (call s c) cs (call-Accounted s c known)
