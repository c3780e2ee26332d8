-- ===== src/Examples/Frames.antt =====
-- The codec of frames and the session's stream at concrete inputs.
use controlis.Prelude.{
  All, ℕ, ◌*◌, ◌^◌, ◌≤◌, ◌<◌, ◌≡◌, refl, sym, false, some, List, [], ◌∷◌, map, codes, arith, Result,
  ok, err,
}
use native.Mathlib.Nat.{mul-le-mul}
use controlis.Protocol.Message.{jpeg_tiles, raw_rgba}
use controlis.Codec.{RgbaFrame}
use controlis.Codec.Jpeg.{Jpeg}
use controlis.Codec.Tiles.{tile_size, tile_rects, holding, holding-tile_rects}
use controlis.Codec.Encode
use controlis.Codec.Encode.{TileEncoder}
use controlis.Codec.Decode
use controlis.Codec.Decode.{TileDecoder}
use controlis.Codec.Bounds.{IsFrame}
use controlis.Codec.Regions.{tile_bytes}
use controlis.Codec.RoundTrip.{send, send_all, send_all-raw}
use controlis.Codec.Paint.{IsReliable}
use controlis.Codec.Delta.{next_tile, send-delta}
use controlis.Codec.Keyframe.{send-force_keyframe}
use controlis.Codec.Video.{OpenH264}
use controlis.Session.Capture.{Round, reserved}

abbrev bytes_ok : List ℕ → Result (List ℕ) (List ℕ)
bytes_ok bytes = ok bytes

pub turned :
    (pixels jpeg : List ℕ) → bytes_ok pixels ≡ bytes_ok jpeg → bytes_ok jpeg ≡ bytes_ok pixels
turned pixels jpeg e = sym e

-- A JPEG that keeps every byte.
abbrev pub stored : Jpeg
stored = record {
  compress = λ pixels w h. ok pixels;
  expand = λ jpeg. ok jpeg;
  seen = λ pixels w h. pixels;
  length-seen = λ pixels w h whole. refl;
  expand-compress = λ pixels w h jpeg wide high whole e. turned pixels jpeg e;
}

area : (w h : ℕ) → w ≤ tile_size → h ≤ tile_size → h * (w * 4) < 2 ^ 32
area w h wide high =
    omega (arith, mul-le-mul {n₁ = w} {m₁ = h} {n₂ = tile_size} {m₂ = tile_size} wide high)

stored-IsReliable : IsReliable stored
stored-IsReliable pixels w h wide high long = (pixels, refl, rw (long) (area w h wide high))

abbrev small : RgbaFrame
small = record { width = 2; height = 1; data_bytes = 1 ∷ 2 ∷ 3 ∷ 255 ∷ 4 ∷ 5 ∷ 6 ∷ 255 ∷ [] }

abbrev dark : RgbaFrame
dark = record { width = 2; height = 1; data_bytes = 0 ∷ 0 ∷ 0 ∷ 255 ∷ 0 ∷ 0 ∷ 0 ∷ 255 ∷ [] }

abbrev after_dark : TileEncoder
after_dark = record { codec = jpeg_tiles; previous = some dark }

abbrev shows_dark : TileDecoder
shows_dark = record { canvas = some dark }

send-delta_example :
    (c : RgbaFrame) × (send stored after_dark shows_dark 0 1 small
      ≡ some (record after_dark { previous = some small }, (record { canvas = some c }, ok c)))
    × IsFrame 2 1 c
    × All (λ r. tile_bytes c r ≡ next_tile stored dark small dark r) (tile_rects 2 1)
send-delta_example =
    send-delta stored 2 1 (omega arith) stored-IsReliable dark small (refl, refl, refl)
      (refl, refl, refl) after_dark shows_dark dark 0 1 (omega arith) (omega arith) refl refl refl
      (refl, refl, refl)

send_all-raw_example :
    send_all stored (Encode.new raw_rgba) Decode.new 0 0 (dark ∷ small ∷ [])
    ≡ some (map ok (dark ∷ small ∷ []))
send_all-raw_example =
    send_all-raw stored (dark ∷ small ∷ []) (Encode.new raw_rgba) Decode.new 0 0 refl
      (refl, (refl, tt))

send-force_keyframe_example :
    send stored (Encode.force_keyframe after_dark) Decode.new 1 2 small
    ≡ some (record after_dark { previous = some small }, (record { canvas = some small }, ok small))
send-force_keyframe_example =
    send-force_keyframe stored after_dark Decode.new small 1 2 small.data_bytes refl (omega arith)
      (omega arith) refl refl

holding-tile_rects_example : holding 70 3 (tile_rects 100 10) ≡ 1
holding-tile_rects_example = holding-tile_rects 70 3 100 10 (omega arith) (omega arith)

-- A library of H.264 that opens nothing.
abbrev pub no_h264 : OpenH264
no_h264 = record {
  Encoder = Unit;
  Decoder = Unit;
  Yuv = Unit;
  open_encoder = λ fps. err (codes "none");
  force_intra_frame = λ e. e;
  compress = λ e pixels w h. (e, err (codes "none"));
  open_decoder = err (codes "none");
  expand = λ d payload. (d, err (codes "none"));
  dimensions = λ yuv. (0, 0);
  write_rgba8 = λ yuv pixels. pixels;
}

abbrev pub two_monitors : List Round
two_monitors =
    record { stop = false; requested = 0; permit = reserved; captured = some dark }
    ∷ record { stop = false; requested = 1; permit = reserved; captured = some small }
    ∷ []
