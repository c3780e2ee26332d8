-- ===== src/Codec/Decode.antt =====
-- crates/codec/src/decoder.rs: the tile decoder. The cursor into the payload is the rest of it.
use controlis.Prelude.{
  ℕ, zero, suc, ◌+◌, ◌*◌, not, ◌||◌, Option, none, some, List, [], ◌∷◌, length, take, drop, ltb,
  if◌then◌else◌, Result, ok, err, ◌==◌, nat_eq,
}
use controlis.Protocol.Frame.{from_le_bytes}
use controlis.Protocol.Message.{
  VideoCodec, raw_rgba, jpeg_tiles, h264, ScreenEncoding, full, tile_delta, TileRect, MediaMessage,
}
use controlis.Codec.{
  CodecError, unexpected_resize, unsupported_codec, malformed_payload, RgbaFrame, new_frame, slice,
  copy_into, row_start,
}
use controlis.Codec.Jpeg.{Jpeg, decode_jpeg}

pub record TileDecoder : Type 0 where
  pub canvas : Option RgbaFrame

abbrev pub new : TileDecoder
new = record { canvas = none }

-- The loop of `blit`, with the rows that are left and the next one.
unfoldable pub blit_rows : RgbaFrame → TileRect → List ℕ → ℕ → ℕ → Option RgbaFrame
blit_rows canvas r pixels zero row = some canvas
blit_rows canvas r pixels (suc left) row = elim (slice pixels (row * (r.w * 4)) (r.w * 4)) [
  | none ↦ none
  | some src ↦ elim (copy_into canvas.data_bytes (row_start canvas.width r.x (r.y + row)) src) [
    | none ↦ none
    | some bytes ↦ blit_rows (record canvas { data_bytes = bytes }) r pixels left (row + 1)
  ]
]

unfoldable pub blit : RgbaFrame → TileRect → List ℕ → Option RgbaFrame
unfolding blit_rows
blit canvas r pixels = blit_rows canvas r pixels r.h 0

abbrev pub read_u32 : List ℕ → Option (ℕ × List ℕ)
read_u32 (a ∷ b ∷ c ∷ d ∷ rest) = some (from_le_bytes a b c d, rest)
read_u32 _ = none

-- `payload.get(cursor..cursor + len)`, and what is behind it.
unfoldable pub get_bytes : List ℕ → ℕ → Option (List ℕ × List ℕ)
get_bytes rest len = if ltb (length rest) len then none else some (take len rest, drop len rest)

abbrev pub Decoded : Type 0
Decoded = TileDecoder × Result RgbaFrame CodecError

module _ (j : Jpeg) where
  -- The loop of `apply_delta`. The canvas keeps the tiles before an error.
  unfoldable pub apply_tiles :
      RgbaFrame → List TileRect → List ℕ → Option (RgbaFrame × Result (Unit {0}) CodecError)
  apply_tiles canvas [] payload = some (canvas, ok tt)
  apply_tiles canvas (r ∷ rs) payload = elim (read_u32 payload) [
    | none ↦ some (canvas, err malformed_payload)
    | some (len, rest) ↦ elim (get_bytes rest len) [
      | none ↦ some (canvas, err malformed_payload)
      | some (jpeg, behind) ↦ elim (decode_jpeg j jpeg r.w r.h) [
        | err e ↦ some (canvas, err e)
        | ok pixels ↦ elim (blit canvas r pixels) [
          | none ↦ none
          | some painted ↦ apply_tiles painted rs behind
        ]
      ]
    ]
  ]

  abbrev patched : Option (RgbaFrame × Result (Unit {0}) CodecError) → Option Decoded
  patched none = none
  patched (some (canvas, ok _)) = some (record { canvas = some canvas }, ok canvas)
  patched (some (canvas, err e)) = some (record { canvas = some canvas }, err e)

  abbrev pub delta_onto : Option RgbaFrame → MediaMessage → Option Decoded
  delta_onto none m = some (record { canvas = none }, err unexpected_resize)
  delta_onto (some canvas) m =
      if not (canvas.width == m.width_px) || not (canvas.height == m.height_px)
      then some (record { canvas = some canvas }, err unexpected_resize)
      else patched (apply_tiles canvas m.tiles m.payload)

  abbrev pub full_pixels : VideoCodec → MediaMessage → Result (List ℕ) CodecError
  full_pixels raw_rgba m = ok m.payload
  full_pixels jpeg_tiles m = decode_jpeg j m.payload m.width_px m.height_px
  full_pixels h264 m = err (unsupported_codec h264)

  abbrev pub replaced : TileDecoder → Result RgbaFrame CodecError → Decoded
  replaced d (ok frame) = (record { canvas = some frame }, ok frame)
  replaced d (err e) = (d, err e)

  abbrev pub framed : TileDecoder → MediaMessage → Result (List ℕ) CodecError → Decoded
  framed d m (ok bytes) = replaced d (new_frame m.width_px m.height_px bytes)
  framed d m (err e) = (d, err e)

  abbrev pub decode_as : ScreenEncoding → TileDecoder → MediaMessage → Option Decoded
  decode_as full d m = some (framed d m (full_pixels m.codec m))
  decode_as tile_delta d m = delta_onto d.canvas m

  unfoldable pub decode : TileDecoder → MediaMessage → Option Decoded
  unfolding apply_tiles
  decode d m = decode_as m.encoding d m
