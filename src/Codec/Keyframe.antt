-- ===== src/Codec/Keyframe.antt =====
-- What the decoder makes of a frame that stands alone (crates/codec).
use controlis.Prelude.{ℕ, ◌*◌, ◌≤◌, length, ◌≡◌, refl, ap, ◌∙◌, some, List, [], arith, ok, nat_eq}
use native.Mathlib.Nat.{mul-le-mul}
use controlis.Protocol.Message.{jpeg_tiles, full, MediaMessage}
use controlis.Codec.{RgbaFrame, new_frame}
use controlis.Codec.Jpeg.{Jpeg, max_side, from_encoder, encode_jpeg, decode_jpeg}
use controlis.Codec.Encode.{TileEncoder, force_keyframe, encode_full, full_payload, encode}
use controlis.Codec.Decode.{TileDecoder, decode_as, full_pixels, framed, replaced, decode}
use controlis.Codec.RoundTrip.{IsWhole, new_frame_whole, send}
use controlis.Codec.Paint.{shown_by_ok}

encode_full-jpeg :
    (j : Jpeg) (e : TileEncoder) (monitor_id frame_id : ℕ) (f : RgbaFrame) (jpeg : List ℕ)
    → e.codec ≡ jpeg_tiles
    → encode_jpeg j f.data_bytes f.width f.height ≡ ok jpeg
    → encode_full j e monitor_id frame_id f
      ≡ some (
          ok (record {
            monitor_id = monitor_id;
            frame_id = frame_id;
            codec = e.codec;
            encoding = full;
            width_px = f.width;
            height_px = f.height;
            tiles = [];
            payload = jpeg;
          }))
unfolding encode_full
encode_full-jpeg j e monitor_id frame_id f jpeg tiled compressed =
    rw (encode_full, ap (λ c. full_payload j c f) tiled ∙ compressed) refl

decode_full :
    (j : Jpeg) (d : TileDecoder) (m : MediaMessage) (pixels : List ℕ) (f : RgbaFrame)
    → m.encoding ≡ full
    → m.codec ≡ jpeg_tiles
    → decode_jpeg j m.payload m.width_px m.height_px ≡ ok pixels
    → new_frame m.width_px m.height_px pixels ≡ ok f
    → decode j d m ≡ some (record { canvas = some f }, ok f)
unfolding decode
decode_full j d m pixels f whole tiled expanded made =
    ap (λ way. decode_as j way d m) whole
    ∙ ap (λ c. some (framed j d m (full_pixels j c m))) tiled
    ∙ ap (λ r. some (framed j d m r)) expanded
    ∙ ap (λ r. some (replaced j d r)) made

length-whole :
    (f : RgbaFrame)
    → f.width ≤ max_side
    → f.height ≤ max_side
    → IsWhole f
    → length f.data_bytes ≡ f.height * (f.width * 4)
length-whole f wide high whole = omega (
  arith,
  whole,
  mul-le-mul {n₁ = f.width} {m₁ = f.height} {n₂ = max_side} {m₂ = max_side} wide high,
)

decode_jpeg-whole :
    (j : Jpeg) (f : RgbaFrame) (jpeg : List ℕ)
    → f.width ≤ max_side
    → f.height ≤ max_side
    → IsWhole f
    → j.compress f.data_bytes f.width f.height ≡ ok jpeg
    → decode_jpeg j jpeg f.width f.height ≡ ok (j.seen f.data_bytes f.width f.height)
unfolding decode_jpeg
decode_jpeg-whole j f jpeg wide high whole e =
    let long = length-whole f wide high whole in
    rw (j.expand-compress f.data_bytes f.width f.height jpeg wide high long e)
      (ground (arith, j.length-seen f.data_bytes f.width f.height long, whole))

encode_jpeg-small :
    (j : Jpeg) (pixels : List ℕ) (w h : ℕ)
    → w ≤ max_side
    → h ≤ max_side
    → encode_jpeg j pixels w h ≡ from_encoder (j.compress pixels w h)
unfolding encode_jpeg
encode_jpeg-small j pixels w h wide high = ground arith

-- After `force_keyframe` on a tile encoder the viewer sees the whole next frame, as JPEG shows it,
-- whatever its canvas was: another monitor's, one of another size, or none. The frame is whole, its
-- sides are at most 16384, which the decoder takes, and JPEG takes it.
pub send-force_keyframe :
    (j : Jpeg) (e : TileEncoder) (d : TileDecoder) (f : RgbaFrame) (monitor_id frame_id : ℕ)
    (jpeg : List ℕ)
    → e.codec ≡ jpeg_tiles
    → f.width ≤ max_side
    → f.height ≤ max_side
    → IsWhole f
    → j.compress f.data_bytes f.width f.height ≡ ok jpeg
    → send j (force_keyframe e) d monitor_id frame_id f
      ≡ some (
        record e { previous = some f },
        (
          record { canvas = some (record f { data_bytes = j.seen f.data_bytes f.width f.height }) },
          ok (record f { data_bytes = j.seen f.data_bytes f.width f.height }),
        ),
      )
unfolding send encode
send-force_keyframe j e d f monitor_id frame_id jpeg tiled wide high whole compressed =
    let seen : RgbaFrame = record f { data_bytes = j.seen f.data_bytes f.width f.height } in
    rw
      (encode_full-jpeg j (force_keyframe e) monitor_id frame_id f jpeg tiled (
        encode_jpeg-small j f.data_bytes f.width f.height wide high ∙ ap (from_encoder) compressed))
      (shown_by_ok j (record e { previous = some f }) d
        (record {
          monitor_id = monitor_id;
          frame_id = frame_id;
          codec = e.codec;
          encoding = full;
          width_px = f.width;
          height_px = f.height;
          tiles = [];
          payload = jpeg;
        })
        (record { canvas = some seen }, ok seen)
        (decode_full j d _ (seen.data_bytes) seen refl tiled
          (decode_jpeg-whole j f jpeg wide high whole compressed)
          (new_frame_whole seen (
            j.length-seen f.data_bytes f.width f.height (length-whole f wide high whole) ∙ whole))))
