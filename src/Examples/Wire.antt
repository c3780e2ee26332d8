-- ===== src/Examples/Wire.antt =====
-- Frames, the control stream and the choice of a codec at concrete inputs.
use controlis.Prelude.{
  ℕ, ◌+◌, ◌<◌, ◌≡◌, ◌⊎◌, refl, sym, true, false, none, some, List, [], ◌∷◌, ◌++◌, arith, ok,
}
use controlis.Protocol.Frame.{Postcard, encode, next_frame}
use controlis.Protocol.Frame.Stream.{frame, next_frame_cases}
use controlis.Protocol.Message.{VideoCodec, raw_rgba, jpeg_tiles, h264, contains, negotiate_codec}
use controlis.Protocol.Message.Negotiate.{negotiate_codec_agrees}
use controlis.Transport.{ControlReceiver, bytes, send}
use controlis.Transport.Receive.{recv_each, send_each, recv_each-send_each}

-- Messages that are their own bytes.
abbrev plain : Postcard (List ℕ)
plain = record { to_stdvec = some; from_bytes = some; from_bytes-to_stdvec = λ m b e. sym e }

-- The frames of two messages in three reads.
abbrev receiver : ControlReceiver
receiver = record {
  recv = bytes (2 ∷ 0 ∷ 0 ∷ []) ∷ bytes (0 ∷ 7 ∷ 8 ∷ 1 ∷ []) ∷ bytes (0 ∷ 0 ∷ 0 ∷ 9 ∷ []) ∷ [];
  decoder = record { buffer = [] };
}

recv_each-send_each_example : recv_each plain 2 receiver ≡ ok (7 ∷ 8 ∷ []) ∷ ok (9 ∷ []) ∷ []
unfolding send_each send encode
recv_each-send_each_example =
    recv_each-send_each plain ((7 ∷ 8 ∷ []) ∷ (9 ∷ []) ∷ []) (frame (7 ∷ 8 ∷ []) ++ frame (9 ∷ []))
      receiver refl (tt, (tt, (tt, tt))) refl

next_frame_cases_example :
    ((3 < 4 + 2)
      × (next_frame (record { buffer = 2 ∷ 0 ∷ 0 ∷ [] })
          ≡ (record { buffer = 2 ∷ 0 ∷ 0 ∷ [] }, ok none)))
    ⊎ ((ws : List ℕ) × (next_frame (record { buffer = 2 ∷ 0 ∷ 0 ∷ [] })
          ≡ (record { buffer = ws }, ok (some (7 ∷ 8 ∷ []))))
        × ([] ≡ ws ++ (0 ∷ 7 ∷ 8 ∷ [])))
next_frame_cases_example =
    next_frame_cases (2 ∷ 0 ∷ 0 ∷ []) (0 ∷ 7 ∷ 8 ∷ []) (7 ∷ 8 ∷ []) [] (omega arith) refl

negotiate_codec_agrees_example :
    let c = negotiate_codec h264 (h264 ∷ jpeg_tiles ∷ []) (raw_rgba ∷ jpeg_tiles ∷ []) in
    ((contains (h264 ∷ jpeg_tiles ∷ []) c ≡ true)
      × (contains (raw_rgba ∷ jpeg_tiles ∷ []) c ≡ true))
    ⊎ ((c ≡ jpeg_tiles)
        × ((d : VideoCodec)
            → contains (h264 ∷ jpeg_tiles ∷ []) d ≡ true
            → contains (raw_rgba ∷ jpeg_tiles ∷ []) d ≡ false))
negotiate_codec_agrees_example =
    negotiate_codec_agrees h264 (h264 ∷ jpeg_tiles ∷ []) (raw_rgba ∷ jpeg_tiles ∷ [])
