-- ===== src/Session/Viewer.antt =====
-- crates/session-viewer/src/lib.rs: `connect_over`, up to the tasks that it starts.
pub mod Tasks
pub mod Media
use controlis.Prelude.{ℕ, Bool, true, Option, none, some, List, [], ◌∷◌, Result, ok, err, ◌>>=◌}
use controlis.Protocol.Frame.{protocol_version}
use controlis.Protocol.Message.{
  VideoCodec, viewer, MonitorInfo, accepted, rejected, pending_approval, ControlMessage, hello,
  auth_request, auth_response, monitor_list, error,
}

-- `refused` is the variant `Rejected`.
pub data ViewerError : Type 0 where
  transport unexpected_message incompatible_protocol : ViewerError
  refused : List ℕ → ViewerError

module _ {F : Type 0} where
  -- The two messages that open the handshake.
  unfoldable pub opening : List ℕ → List VideoCodec → List ℕ → List (ControlMessage F)
  opening app_version codecs code =
      hello (record {
        protocol_version = protocol_version;
        app_version = app_version;
        role = viewer;
        supported_codecs = codecs;
      })
      ∷ auth_request code
      ∷ []

  -- The loop on the outcome; the result is what there is left to read.
  unfoldable pub await_outcome :
      List (Option (ControlMessage F)) → Result (List (Option (ControlMessage F))) ViewerError
  await_outcome [] = err transport
  await_outcome (none ∷ rest) = err transport
  await_outcome (some (auth_response (accepted id)) ∷ rest) = ok rest
  await_outcome (some (auth_response pending_approval) ∷ rest) = await_outcome rest
  await_outcome (some (auth_response (rejected reason)) ∷ rest) = err (refused reason)
  await_outcome (some (error code message) ∷ rest) = err incompatible_protocol
  await_outcome (some m ∷ rest) = err unexpected_message

  abbrev read_monitors : List (Option (ControlMessage F)) → Result (List MonitorInfo) ViewerError
  read_monitors [] = err transport
  read_monitors (none ∷ rest) = err transport
  read_monitors (some (monitor_list monitors) ∷ rest) = ok monitors
  read_monitors (some m ∷ rest) = ok []

  -- After the two sends, of which the arguments say whether they succeed.
  unfoldable pub connect_over :
      Bool → Bool → List (Option (ControlMessage F)) → Result (List MonitorInfo) ViewerError
  connect_over true true incoming = await_outcome incoming >>= read_monitors
  connect_over _ _ incoming = err transport
