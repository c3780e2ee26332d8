-- ===== src/Session.antt =====
-- crates/session-host/src/session.rs: `authenticate` and what it calls. The world of a session is
-- passed along: what the peer sends, which sends succeed, what the user commands, and the guard.
pub mod Authenticate
pub mod Viewer
pub mod Injection
pub mod Control
pub mod Capture
pub mod Stream
pub mod Service
pub mod Handshake
use controlis.Prelude.{
  ℕ, zero, suc, ◌+◌, ◌/◌, ◌%◌, Bool, true, false, not, Option, none, some, List, [], ◌∷◌, ◌++◌,
  codes, decimal, if◌then◌else◌, ◌==◌, nat_eq,
}
use controlis.Net.{IpAddr}
use controlis.Protocol.Frame.{protocol_version}
use controlis.Protocol.Message.{
  VideoCodec, Hello, AuthOutcome, accepted, rejected, pending_approval, ControlMessage, hello,
  auth_request, auth_response, error,
}
use controlis.Security.Code.{ConstantTimeEq}
use controlis.Security.ConnectCode.{ConnectCode, verify}
use controlis.Security.RateLimit.{
  GuardDecision, allow, blocked, BruteForceGuard, check, record_failure, record_success,
}

-- `failed` is the variant `Error`.
pub data HostEvent : Type 0 where
  code_ready : List ℕ → HostEvent
  approval_requested : List ℕ → Option (List ℕ) → HostEvent
  session_started : List ℕ → HostEvent
  session_ended : List ℕ → HostEvent
  log : List ℕ → HostEvent
  failed : List ℕ → HostEvent

-- `decline` is the variant `Reject`.
pub data HostCommand : Type 0 where
  approve decline stop : HostCommand

pub data AuthResult : Type 0 where
  granted : List VideoCodec → AuthResult
  ended : AuthResult

-- `incoming` holds what each `recv` gives: a message, or none for an error, for the end of the
-- stream and for the timeout. `sends` holds whether each `send` to come succeeds; after its end
-- they do. A `recv` on `commands` after its end finds the channel closed.
pub record World (F : Type 0) : Type 0 where
  pub incoming : List (Option (ControlMessage F))
  pub sends : List Bool
  pub sent : List (ControlMessage F)
  pub commands : List HostCommand
  pub events : List HostEvent
  pub guard : BruteForceGuard

-- The connection's label, address and fingerprint.
pub record Peer : Type 0 where
  pub label : List ℕ
  pub ip : IpAddr
  pub fingerprint : Option (List ℕ)

-- What the clocks show at the check, at a failure, and at the acceptance in Unix nanoseconds.
pub record Times : Type 0 where
  pub checked_at : ℕ
  pub failed_at : ℕ
  pub accepted_at : ℕ

module _ {F : Type 0} where
  abbrev deliver : World F → ControlMessage F → World F
  deliver w m = record w { sent = w.sent ++ (m ∷ []) }

  abbrev send_by : List Bool → World F → ControlMessage F → World F × Bool
  send_by [] w m = (deliver w m, true)
  send_by (true ∷ rest) w m = (record (deliver w m) { sends = rest }, true)
  send_by (false ∷ rest) w m = (record w { sends = rest }, false)

  abbrev pub send : World F → ControlMessage F → World F × Bool
  send w m = send_by w.sends w m

  abbrev recv_from :
      List (Option (ControlMessage F)) → World F → World F × Option (ControlMessage F)
  recv_from [] w = (w, none)
  recv_from (m ∷ rest) w = (record w { incoming = rest }, m)

  abbrev pub recv_timeout : World F → World F × Option (ControlMessage F)
  recv_timeout w = recv_from w.incoming w

  abbrev command_from : List HostCommand → World F → World F × Option HostCommand
  command_from [] w = (w, none)
  command_from (c ∷ rest) w = (record w { commands = rest }, some c)

  abbrev pub emit : World F → HostEvent → World F
  emit w e = record w { events = w.events ++ (e ∷ []) }

  -- `let _ = control.send(..).await` and then a log line.
  abbrev pub tell : World F → ControlMessage F → List ℕ → World F
  tell w m line = emit (send w m).0 (log line)

  abbrev pub refusal : List ℕ → ControlMessage F
  refusal reason = auth_response (rejected reason)

  unfoldable pub reject : Peer → World F → List ℕ → World F × AuthResult
  reject peer w reason =
      (tell w (refusal reason) (codes "rejected " ++ peer.label ++ codes ": " ++ reason), ended)

  abbrev decided : Peer → World F × Option HostCommand → World F × Bool
  decided peer (w, some approve) = (w, true)
  decided peer (w, _) = (
    tell w (refusal (codes "host declined the connection")) (codes "declined " ++ peer.label),
    false,
  )

  unfoldable pub await_approval : Peer → World F → World F × Bool
  await_approval peer w =
      let asked =
        emit (send w (auth_response pending_approval)).0
          (approval_requested peer.label peer.fingerprint) in
      decided peer (command_from asked.commands asked)

  abbrev pub wrong_version : Peer → World F → ℕ → World F × AuthResult
  wrong_version peer w v = (
    tell w
        (error 1 (
          codes "protocol version "
          ++ decimal v
          ++ codes " unsupported (host speaks "
          ++ decimal protocol_version
          ++ codes ")"))
        (codes "rejected " ++ peer.label ++ codes ": protocol version " ++ decimal v),
    ended,
  )

  abbrev announced : Peer → Hello → World F × Bool → World F × AuthResult
  announced peer h (w, false) = (w, ended)
  announced peer h (w, true) =
      (emit w (log (codes "accepted " ++ peer.label)), granted h.supported_codecs)

  abbrev approved : Peer → Times → Hello → World F × Bool → World F × AuthResult
  approved peer times h (w, false) = (w, ended)
  approved peer times h (w, true) = announced peer h (
      send (record w { guard = record_success w.guard peer.ip })
        (auth_response (accepted times.accepted_at)))

  abbrev verified : Bool → Peer → Times → Hello → World F → Bool → World F × AuthResult
  verified manual peer times h w false = (
    tell (record w { guard = record_failure w.guard peer.ip times.failed_at })
        (refusal (codes "invalid session code"))
        (codes "rejected " ++ peer.label ++ codes ": wrong code"),
    ended,
  )
  verified manual peer times h w true =
      approved peer times h (if manual then await_approval peer w else (w, true))

  abbrev guarded :
      Bool → Peer → Times → Hello → World F → GuardDecision → Bool → World F × AuthResult
  guarded manual peer times h w (blocked wait) good = (
    tell w
        (refusal
          (codes "too many attempts; retry in " ++ decimal (wait / 1_000_000_000) ++ codes "s"))
        (codes "blocked " ++ peer.label ++ codes ": brute-force backoff"),
    ended,
  )
  guarded manual peer times h w allow good = verified manual peer times h w good

  -- From the `AuthRequest` on.
  abbrev requested :
      ConstantTimeEq
      → ConnectCode
      → Bool
      → Peer
      → Times
      → Hello
      → World F × Option (ControlMessage F)
      → World F × AuthResult
  requested ct code manual peer times h (w, some (auth_request text)) =
      let r = check w.guard peer.ip times.checked_at in
      guarded manual peer times h (record w { guard = r.0 }) r.1 (verify ct code text)
  requested ct code manual peer times h (w, _) =
      reject peer w (codes "handshake: expected AuthRequest")

  abbrev greeted :
      ConstantTimeEq
      → ConnectCode
      → Bool
      → Peer
      → Times
      → World F × Option (ControlMessage F)
      → World F × AuthResult
  greeted ct code manual peer times (w, some (hello h)) =
      if not (h.protocol_version == protocol_version)
      then wrong_version peer w h.protocol_version
      else requested ct code manual peer times h (recv_timeout w)
  greeted ct code manual peer times (w, _) = reject peer w (codes "handshake: expected Hello")

  unfoldable pub authenticate :
      ConstantTimeEq → ConnectCode → Bool → Peer → Times → World F → World F × AuthResult
  authenticate ct code manual peer times w = greeted ct code manual peer times (recv_timeout w)
