-- ===== src/Transport/Media.antt =====
-- One media message over one unidirectional stream.
use controlis.Prelude.{ℕ, ◌+◌, ◌≤◌, ◌<◌, ◌≡◌, some, List, length, arith, ok, err}
use controlis.Protocol.Frame.{Postcard, encode, decode, max_message_len}
use controlis.Protocol.Frame.Stream.{frame}
use controlis.Protocol.Message.{MediaMessage}
use controlis.Transport.{connect, arrives, max_media_bytes, send_media, recv_media}

module _ (pc : Postcard MediaMessage) (m : MediaMessage) (body : List ℕ)
    (e : pc.to_stdvec m ≡ some body) where
  sent_media : length body ≤ max_message_len → send_media pc arrives m ≡ ok (frame body)
  unfolding send_media encode
  sent_media h = ground arith

  received_media : length body + 4 ≤ max_media_bytes → recv_media pc (some (frame body)) ≡ ok m
  unfolding recv_media decode
  received_media h = ground (arith, pc.from_bytes-to_stdvec m body e)

  refused_media :
      max_media_bytes < length body + 4 → recv_media pc (some (frame body)) ≡ err connect
  unfolding recv_media
  refused_media h = ground arith

  -- A media message whose body leaves four bytes of the limit free arrives as it was sent.
  pub recv_media-send_media :
      length body + 4 ≤ max_message_len
      → (framed : List ℕ) × (send_media pc arrives m ≡ ok framed)
        × (recv_media pc (some framed) ≡ ok m)
  recv_media-send_media h = (frame body, sent_media (omega arith), received_media h)

  -- A body within four bytes of the limit is accepted by the sender and refused by the receiver:
  -- `encode` bounds the body, and `recv_media` bounds the body with its length prefix.
  pub recv_media_refuses :
      length body ≤ max_message_len
      → max_message_len < length body + 4
      → (framed : List ℕ) × (send_media pc arrives m ≡ ok framed)
        × (recv_media pc (some framed) ≡ err connect)
  recv_media_refuses h k = (frame body, sent_media h, refused_media k)
