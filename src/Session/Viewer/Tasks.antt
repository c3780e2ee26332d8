-- ===== src/Session/Viewer/Tasks.antt =====
-- crates/session-viewer/src/lib.rs: the tasks for input and for control messages.
use controlis.Prelude.{ℕ, Bool, true, false, Option, none, some, List, [], ◌∷◌, codes}
use controlis.Protocol.Message.{
  MonitorInfo, ControlMessage, resize, monitor_list, disconnect, error,
}

-- `failed` is the variant `Error`.
pub data ViewerEvent : Type 0 where
  frame_ready : ViewerEvent
  resized : ℕ → ℕ → ViewerEvent
  monitors_updated : List MonitorInfo → ViewerEvent
  disconnected : List ℕ → ViewerEvent
  failed : List ℕ → ViewerEvent

module _ {F : Type 0} where
  -- The events of `spawn_control_task`, by what each `recv` gives: a message, or none for an error.
  -- A read behind the last one finds the connection lost.
  unfoldable pub control_task : List (Option (ControlMessage F)) → List ViewerEvent
  control_task [] = disconnected (codes "connection lost") ∷ []
  control_task (none ∷ rest) = disconnected (codes "connection lost") ∷ []
  control_task (some (resize width height) ∷ rest) = resized width height ∷ control_task rest
  control_task (some (monitor_list monitors) ∷ rest) = monitors_updated monitors ∷ control_task rest
  control_task (some (disconnect reason) ∷ rest) = disconnected reason ∷ []
  control_task (some (error code message) ∷ rest) = failed message ∷ control_task rest
  control_task (some _ ∷ rest) = control_task rest

  -- `spawn_input_task`, by whether each send succeeds: what is sent, and the event of a failure.
  unfoldable pub input_task :
      List (ControlMessage F × Bool) → List (ControlMessage F) × List ViewerEvent
  input_task [] = ([], [])
  input_task ((m, false) ∷ rest) = ([], disconnected (codes "send failed") ∷ [])
  input_task ((m, true) ∷ rest) = let later = input_task rest in (m ∷ later.0, later.1)
