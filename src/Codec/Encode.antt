-- ===== src/Codec/Encode.antt =====
-- crates/codec/src/encoder.rs: the tile encoder.
use controlis.Prelude.{
  ℕ, zero, suc, ◌+◌, ◌*◌, ◌%◌, ◌^◌, Bool, true, false, not, ◌||◌, Option, none, some, List, [], ◌∷◌,
  ◌++◌, length, Result, ok, err, str_beq,
}
use controlis.Protocol.Frame.{to_le_bytes}
use controlis.Protocol.Message.{
  VideoCodec, raw_rgba, jpeg_tiles, h264, codec_eq, full, tile_delta, TileRect, MediaMessage,
}
use controlis.Codec.{
  CodecError, unsupported_codec, RgbaFrame, same_size, slice, row_start, M, ◌>>=◌, or_panic,
}
use controlis.Codec.Jpeg.{Jpeg, encode_jpeg}
use controlis.Codec.Tiles.{tile_rects}

pub record TileEncoder : Type 0 where
  pub codec : VideoCodec
  pub previous : Option RgbaFrame

abbrev pub new : VideoCodec → TileEncoder
new codec = record { codec = codec; previous = none }

abbrev pub force_keyframe : TileEncoder → TileEncoder
force_keyframe e = record e { previous = none }

-- The loop of `tile_changed`, with the rows that are left and the next one.
unfoldable pub rows_changed : RgbaFrame → RgbaFrame → TileRect → ℕ → ℕ → M Bool
rows_changed a b r zero row = some (ok false)
rows_changed a b r (suc left) row = do
  p ← or_panic (slice a.data_bytes (row_start a.width r.x (r.y + row)) (r.w * 4))
  q ← or_panic (slice b.data_bytes (row_start a.width r.x (r.y + row)) (r.w * 4))
  elim (str_beq p q) [ true ↦ rows_changed a b r left (row + 1) | false ↦ some (ok true) ]

unfoldable pub tile_changed : RgbaFrame → RgbaFrame → TileRect → M Bool
unfolding rows_changed
tile_changed a b r = rows_changed a b r r.h 0

unfoldable pub extract_rows : RgbaFrame → TileRect → ℕ → ℕ → M (List ℕ)
extract_rows frame r zero row = some (ok [])
extract_rows frame r (suc left) row = do
  bytes ← or_panic (slice frame.data_bytes (row_start frame.width r.x (r.y + row)) (r.w * 4))
  out ← extract_rows frame r left (row + 1)
  some (ok (bytes ++ out))

unfoldable pub extract_tile : RgbaFrame → TileRect → M (List ℕ)
unfolding extract_rows
extract_tile frame r = extract_rows frame r r.h 0

abbrev pub tile_payload : List ℕ → List ℕ
tile_payload jpeg = to_le_bytes (length jpeg % 2 ^ 32) ++ jpeg

module _ (j : Jpeg) where
  abbrev pub full_payload : VideoCodec → RgbaFrame → Result (List ℕ) CodecError
  full_payload raw_rgba frame = ok frame.data_bytes
  full_payload jpeg_tiles frame = encode_jpeg j frame.data_bytes frame.width frame.height
  full_payload h264 frame = err (unsupported_codec h264)

  unfoldable pub encode_full : TileEncoder → ℕ → ℕ → RgbaFrame → M MediaMessage
  encode_full e monitor_id frame_id frame = do
    payload ← some (full_payload e.codec frame)
    some (
        ok (record {
          monitor_id = monitor_id;
          frame_id = frame_id;
          codec = e.codec;
          encoding = full;
          width_px = frame.width;
          height_px = frame.height;
          tiles = [];
          payload = payload;
        }))

  -- The loop of `encode_delta`: the tiles that are sent, and their payloads.
  unfoldable pub encode_tiles : RgbaFrame → RgbaFrame → List TileRect → M (List TileRect × List ℕ)
  encode_tiles previous frame [] = some (ok ([], []))
  encode_tiles previous frame (r ∷ rs) = do
    changed ← tile_changed previous frame r
    elim changed [
      | false ↦ encode_tiles previous frame rs
      | true ↦ do
        pixels ← extract_tile frame r
        jpeg ← some (encode_jpeg j pixels r.w r.h)
        later ← encode_tiles previous frame rs
        some (ok (r ∷ later.0, tile_payload jpeg ++ later.1))
    ]

  unfoldable pub encode_delta : TileEncoder → RgbaFrame → ℕ → ℕ → RgbaFrame → M MediaMessage
  encode_delta e previous monitor_id frame_id frame = do
    sent ← encode_tiles previous frame (tile_rects frame.width frame.height)
    some (
        ok (record {
          monitor_id = monitor_id;
          frame_id = frame_id;
          codec = e.codec;
          encoding = tile_delta;
          width_px = frame.width;
          height_px = frame.height;
          tiles = sent.0;
          payload = sent.1;
        }))

  abbrev pub message_for : TileEncoder → Option RgbaFrame → ℕ → ℕ → RgbaFrame → M MediaMessage
  message_for e none monitor_id frame_id frame = encode_full e monitor_id frame_id frame
  message_for e (some previous) monitor_id frame_id frame =
      elim (not (same_size previous frame) || codec_eq e.codec raw_rgba) [
        | true ↦ encode_full e monitor_id frame_id frame
        | false ↦ encode_delta e previous monitor_id frame_id frame
      ]

  -- The frame is remembered if a message comes out.
  abbrev pub remembering :
      TileEncoder
      → RgbaFrame
      → M MediaMessage
      → Option (TileEncoder × Result MediaMessage CodecError)
  remembering e frame none = none
  remembering e frame (some (err x)) = some (e, err x)
  remembering e frame (some (ok m)) = some (record e { previous = some frame }, ok m)

  unfoldable pub encode :
      TileEncoder → ℕ → ℕ → RgbaFrame → Option (TileEncoder × Result MediaMessage CodecError)
  encode e monitor_id frame_id frame =
      remembering e frame (message_for e e.previous monitor_id frame_id frame)
