-- ===== src/Transport.antt =====
-- crates/transport: the messages on the control stream and on the media streams. QUIC and Iroh
-- streams behave alike here: a stream delivers the bytes that were written, in order, cut into
-- reads of any sizes. Texts of errors are left out.
pub mod Receive
pub mod Identity
pub mod Media
use controlis.Prelude.{
  ℕ, ◌*◌, ◌≡◌, Bool, true, false, Option, none, some, List, [], ◌∷◌, ◌++◌, length, drop, ltb,
  if◌then◌else◌, Result, ok, err, ok_or, ◌>>=◌,
}
use controlis.Protocol.Frame.{
  Postcard, ProtocolError, FrameDecoder, encode, decode, extend, next_frame,
}
use controlis.Protocol.Message.{MediaMessage}

pub data TransportError : Type 0 where
  tls certificate connect closed io : TransportError
  protocol : ProtocolError → TransportError

-- `map_err(TransportError::Protocol)`, what `?` does to a protocol error.
abbrev pub from_protocol {ℓ} : {A : Type ℓ} → Result A ProtocolError → Result A TransportError
from_protocol (ok a) = ok a
from_protocol (err e) = err (protocol e)

-- What one `recv.read` yields: bytes or a failure. Behind the last one the peer has finished the
-- stream, and a read yields `None`.
pub data Read : Type 0 where
  bytes : List ℕ → Read
  failed : Read

pub record ControlReceiver : Type 0 where
  pub recv : List Read
  pub decoder : FrameDecoder

-- The receiver and the value that a call returns.
abbrev Received : Type 0 → Type 0
Received M = ControlReceiver × Result M TransportError

module _ {M : Type 0} (pc : Postcard M) where
  -- One look at the decoder: a frame or an error ends the call, and with neither `more` goes on.
  abbrev looked :
      FrameDecoder → Result (Option (List ℕ)) ProtocolError → List Read → Received M → Received M
  looked d (err e) reads more = (record { recv = reads; decoder = d }, err (protocol e))
  looked d (ok (some body)) reads more =
      (record { recv = reads; decoder = d }, from_protocol (decode pc body))
  looked d (ok none) reads more = more

  -- The loop of `ControlReceiver::recv`, by the reads that are left.
  unfoldable pub recv_from : FrameDecoder → List Read → Received M
  recv_from d [] =
      let d' = (next_frame d).0 in
      looked d' (next_frame d).1 [] (record { recv = []; decoder = d' }, err closed)
  recv_from d (failed ∷ reads) =
      let d' = (next_frame d).0 in
      looked d' (next_frame d).1 (failed ∷ reads)
        (record { recv = reads; decoder = d' }, err connect)
  recv_from d (bytes chunk ∷ reads) =
      let d' = (next_frame d).0 in
      let more = recv_from (extend d' chunk) reads in
      looked d' (next_frame d).1 (bytes chunk ∷ reads) more

  unfoldable pub recv : ControlReceiver → Received M
  unfolding recv_from
  recv r = recv_from r.decoder r.recv

  -- The bytes that a call of `ControlSender::send` writes; `writable` says whether the stream
  -- takes them.
  unfoldable pub send : Bool → M → Result (List ℕ) TransportError
  send writable message = do
    framed ← from_protocol (encode pc message)
    if writable then ok framed else err closed

abbrev pub max_media_bytes : ℕ
max_media_bytes = 64 * 1024 * 1024

-- What a new unidirectional stream comes to: it cannot be opened, it is lost, or it arrives.
pub data Uni : Type 0 where
  no_stream lost arrives : Uni

abbrev carried : Uni → List ℕ → Result (List ℕ) TransportError
carried no_stream body = err connect
carried lost body = err closed
carried arrives body = ok body

-- The bytes of the stream that `send_media` opens, writes and finishes.
unfoldable pub send_media :
    Postcard MediaMessage → Uni → MediaMessage → Result (List ℕ) TransportError
send_media pc uni message = do body ← from_protocol (encode pc message); carried uni body

-- `read_to_end` refuses a stream that is longer than its limit.
unfoldable pub read_to_end : ℕ → List ℕ → Result (List ℕ) TransportError
read_to_end limit stream = if ltb limit (length stream) then err connect else ok stream

-- `slice.get(4..)`
abbrev get_from_four : List ℕ → Option (List ℕ)
get_from_four b = if ltb (length b) 4 then none else some (drop 4 b)

-- What `recv_media` makes of the bytes of the next stream; `none` when the connection is gone.
unfoldable pub recv_media :
    Postcard MediaMessage → Option (List ℕ) → Result MediaMessage TransportError
unfolding read_to_end
recv_media pc stream = do
  arrived ← ok_or stream closed
  framed ← read_to_end max_media_bytes arrived
  body ← ok_or (get_from_four framed) closed
  from_protocol (decode pc body)
