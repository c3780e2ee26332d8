-- ===== src/Codec/RoundTrip.antt =====
-- What the tile decoder makes of the tile encoder's messages (crates/codec).
use controlis.Prelude.{
  ℕ, ◌+◌, ◌≡◌, refl, Option, none, some, List, [], ◌∷◌, arith, Result, ok, err, length, nat_eq, map,
  All,
}
use controlis.Protocol.Message.{raw_rgba, MediaMessage}
use controlis.Codec.{CodecError, RgbaFrame, byte_count, new_frame}
use controlis.Codec.Jpeg.{Jpeg}
use controlis.Codec.Encode.{TileEncoder, message_for, encode_full, encode}
use controlis.Codec.Decode.{TileDecoder, Decoded, decode}

-- A frame that `RgbaFrame::new` makes.
abbrev pub IsWhole : RgbaFrame → Type 0
IsWhole f = length f.data_bytes ≡ byte_count f.width f.height

pub new_frame_whole : (f : RgbaFrame) → IsWhole f → new_frame f.width f.height f.data_bytes ≡ ok f
unfolding new_frame
new_frame_whole f whole = ground (arith, whole)

module _ (j : Jpeg) where
  -- One frame, encoded and decoded.
  abbrev pub shown_by :
      TileDecoder
      → Option (TileEncoder × Result MediaMessage CodecError)
      → Option (TileEncoder × Decoded)
  shown_by d none = none
  shown_by d (some (e, err x)) = some (e, (d, err x))
  shown_by d (some (e, ok m)) = elim (decode j d m) [ none ↦ none | some out ↦ some (e, out) ]

  unfoldable pub send :
      TileEncoder → TileDecoder → ℕ → ℕ → RgbaFrame → Option (TileEncoder × Decoded)
  send e d monitor_id frame_id f = shown_by d (encode j e monitor_id frame_id f)

  -- Frames in their order, and what the viewer has after each.
  unfoldable pub send_all :
      TileEncoder
      → TileDecoder
      → ℕ
      → ℕ
      → List RgbaFrame
      → Option (List (Result RgbaFrame CodecError))
  send_all e d monitor_id frame_id [] = some []
  send_all e d monitor_id frame_id (f ∷ fs) = elim (send e d monitor_id frame_id f) [
    | none ↦ none
    | some (e', (d', r)) ↦ elim (send_all e' d' monitor_id (frame_id + 1) fs) [
      | none ↦ none
      | some rs ↦ some (r ∷ rs)
    ]
  ]

  message_for-raw :
      (e : TileEncoder) (p : Option RgbaFrame) (monitor_id frame_id : ℕ) (f : RgbaFrame)
      → e.codec ≡ raw_rgba
      → message_for j e p monitor_id frame_id f ≡ encode_full j e monitor_id frame_id f
  message_for-raw e none monitor_id frame_id f raw = refl
  message_for-raw e (some p) monitor_id frame_id f raw = ground (arith, raw)

  send_raw :
      (e : TileEncoder) (d : TileDecoder) (monitor_id frame_id : ℕ) (f : RgbaFrame)
      → e.codec ≡ raw_rgba
      → IsWhole f
      → send e d monitor_id frame_id f
        ≡ some (record e { previous = some f }, (record { canvas = some f }, ok f))
  unfolding send encode encode_full decode
  send_raw e d monitor_id frame_id f raw whole =
      rw (message_for-raw e e.previous monitor_id frame_id f raw, raw, new_frame_whole f whole) refl

  -- A raw stream of whole frames, of any sizes, shows the viewer every frame as it is, in order.
  pub send_all-raw :
      (fs : List RgbaFrame) (e : TileEncoder) (d : TileDecoder) (monitor_id frame_id : ℕ)
      → e.codec ≡ raw_rgba
      → All IsWhole fs
      → send_all e d monitor_id frame_id fs ≡ some (map ok fs)
  unfolding send_all
  send_all-raw [] e d monitor_id frame_id raw whole = refl
  send_all-raw (f ∷ fs) e d monitor_id frame_id raw whole =
      rw
        (
          send_all,
          send_raw e d monitor_id frame_id f raw (whole.0),
          send_all-raw fs (record e { previous = some f }) (record { canvas = some f }) monitor_id
              (frame_id + 1) raw (whole.1),
        )
        refl
