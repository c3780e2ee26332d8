-- ===== src/Codec/Paint.antt =====
-- The steps of a delta (crates/codec): one tile sent, and one tile painted onto the canvas.
use controlis.Prelude.{
  ℕ, ◌*◌, ◌%◌, ◌/◌, ◌^◌, ◌≤◌, ◌<◌, ◌≡◌, refl, ap, ◌∙◌, true, false, some, List, ◌∷◌, ◌++◌, arith,
  ok, length, nat_eq, take-append_length, drop-append_length, length-append,
}
use native.Mathlib.Nat.{mul-le-mul}
use controlis.Protocol.Frame.{from_le_bytes}
use controlis.Protocol.Message.{jpeg_tiles, tile_delta, TileRect, MediaMessage}
use controlis.Codec.{RgbaFrame, byte_count}
use controlis.Codec.Jpeg.{Jpeg, encode_jpeg, decode_jpeg}
use controlis.Codec.Tiles.{tile_size, tile_rects}
use controlis.Codec.Encode.{
  TileEncoder, tile_changed, extract_tile, tile_payload, message_for, encode_tiles, encode_delta,
  remembering, encode,
}
use controlis.Codec.Decode.{
  TileDecoder, blit, get_bytes, Decoded, apply_tiles, delta_onto, decode_as, decode,
}
use controlis.Codec.RoundTrip.{shown_by, send}

-- JPEG takes every tile, to less than four gigabytes.
abbrev pub IsReliable : Jpeg → Type 0
IsReliable j =
    (pixels : List ℕ) (w h : ℕ)
    → w ≤ tile_size
    → h ≤ tile_size
    → length pixels ≡ h * (w * 4)
    → (jpeg : List ℕ) × (j.compress pixels w h ≡ ok jpeg) × (length jpeg < 2 ^ 32)

pub get_bytes-append : (a b : List ℕ) → get_bytes (a ++ b) (length a) ≡ some (a, b)
unfolding get_bytes
get_bytes-append a b =
    ground (arith, length-append a b, take-append_length a b, drop-append_length a b)

pub byte_count_small : (w h : ℕ) → w ≤ tile_size → h ≤ tile_size → byte_count w h ≡ h * (w * 4)
byte_count_small w h wide high =
    omega (arith, mul-le-mul {n₁ = w} {m₁ = h} {n₂ = tile_size} {m₂ = tile_size} wide high)

-- A small tile comes out of JPEG as it is seen.
pub encode_tile :
    (j : Jpeg) (pixels : List ℕ) (w h : ℕ) (jpeg : List ℕ)
    → w ≤ tile_size
    → h ≤ tile_size
    → j.compress pixels w h ≡ ok jpeg
    → encode_jpeg j pixels w h ≡ ok jpeg
unfolding encode_jpeg
encode_tile j pixels w h jpeg wide high e = ground (arith, e)

pub decode_tile :
    (j : Jpeg) (pixels : List ℕ) (w h : ℕ) (jpeg : List ℕ)
    → w ≤ tile_size
    → h ≤ tile_size
    → length pixels ≡ h * (w * 4)
    → j.compress pixels w h ≡ ok jpeg
    → decode_jpeg j jpeg w h ≡ ok (j.seen pixels w h)
unfolding decode_jpeg
decode_tile j pixels w h jpeg wide high whole e =
    rw (j.expand-compress pixels w h jpeg (omega arith) (omega arith) whole e)
      (ground (arith, j.length-seen pixels w h whole, byte_count_small w h))

pub length_prefix :
    (n : ℕ)
    → n < 2 ^ 32
    → from_le_bytes
        (n % 2 ^ 32 % 256)
        (n % 2 ^ 32 / 256 % 256)
        (n % 2 ^ 32 / 65536 % 256)
        (n % 2 ^ 32 / 16777216 % 256)
      ≡ n
length_prefix n short = omega arith

pub apply_tiles_step :
    (j : Jpeg) (canvas painted : RgbaFrame) (r : TileRect) (rs : List TileRect)
    (jpeg pixels later : List ℕ)
    → length jpeg < 2 ^ 32
    → decode_jpeg j jpeg r.w r.h ≡ ok pixels
    → blit canvas r pixels ≡ some painted
    → apply_tiles j canvas (r ∷ rs) (tile_payload jpeg ++ later) ≡ apply_tiles j painted rs later
unfolding apply_tiles
apply_tiles_step j canvas painted r rs jpeg pixels later short expanded fits =
    rw (apply_tiles, length_prefix (length jpeg) short, get_bytes-append jpeg later, expanded, fits)
      refl

pub encode_tiles_kept :
    (j : Jpeg) (p f : RgbaFrame) (r : TileRect) (rs : List TileRect)
    → tile_changed p f r ≡ some (ok false)
    → encode_tiles j p f (r ∷ rs) ≡ encode_tiles j p f rs
unfolding encode_tiles
encode_tiles_kept j p f r rs e = rw (encode_tiles, e) refl

pub encode_tiles_sent :
    (j : Jpeg) (p f : RgbaFrame) (r : TileRect) (rs sent : List TileRect)
    (pixels jpeg payload : List ℕ)
    → tile_changed p f r ≡ some (ok true)
    → extract_tile f r ≡ some (ok pixels)
    → encode_jpeg j pixels r.w r.h ≡ ok jpeg
    → encode_tiles j p f rs ≡ some (ok (sent, payload))
    → encode_tiles j p f (r ∷ rs) ≡ some (ok (r ∷ sent, tile_payload jpeg ++ payload))
unfolding encode_tiles
encode_tiles_sent j p f r rs sent pixels jpeg payload e extracted compressed later =
    rw (encode_tiles, e, extracted, compressed, later) refl

pub message_for-delta :
    (j : Jpeg) (e : TileEncoder) (p : RgbaFrame) (monitor_id frame_id : ℕ) (f : RgbaFrame)
    → e.codec ≡ jpeg_tiles
    → p.width ≡ f.width
    → p.height ≡ f.height
    → message_for j e (some p) monitor_id frame_id f ≡ encode_delta j e p monitor_id frame_id f
message_for-delta j e p monitor_id frame_id f tiled wide high = ground (arith, tiled)

pub delta_onto-same :
    (j : Jpeg) (canvas c : RgbaFrame) (m : MediaMessage)
    → canvas.width ≡ m.width_px
    → canvas.height ≡ m.height_px
    → apply_tiles j canvas m.tiles m.payload ≡ some (c, ok tt)
    → delta_onto j (some canvas) m ≡ some (record { canvas = some c }, ok c)
delta_onto-same j canvas c m wide high applied = ground (arith, applied)

pub decode_tiles :
    (j : Jpeg) (d : TileDecoder) (canvas c : RgbaFrame) (m : MediaMessage)
    → m.encoding ≡ tile_delta
    → d.canvas ≡ some canvas
    → canvas.width ≡ m.width_px
    → canvas.height ≡ m.height_px
    → apply_tiles j canvas m.tiles m.payload ≡ some (c, ok tt)
    → decode j d m ≡ some (record { canvas = some c }, ok c)
unfolding decode
decode_tiles j d canvas c m delta shown wide high applied =
    ap (λ way. decode_as j way d m) delta
    ∙ ap (λ q. delta_onto j q m) shown
    ∙ delta_onto-same j canvas c m wide high applied

pub shown_by_ok :
    (j : Jpeg) (e : TileEncoder) (d : TileDecoder) (m : MediaMessage) (out : Decoded)
    → decode j d m ≡ some out
    → shown_by j d (some (e, ok m)) ≡ some (e, out)
shown_by_ok j e d m out h = rw (shown_by, h) refl

pub send_tiles :
    (j : Jpeg) (e : TileEncoder) (d : TileDecoder) (p f canvas c : RgbaFrame)
    (monitor_id frame_id : ℕ) (sent : List TileRect) (payload : List ℕ)
    → e.codec ≡ jpeg_tiles
    → e.previous ≡ some p
    → d.canvas ≡ some canvas
    → (p.width ≡ f.width) × (p.height ≡ f.height)
    → (canvas.width ≡ f.width) × (canvas.height ≡ f.height)
    → encode_tiles j p f (tile_rects f.width f.height) ≡ some (ok (sent, payload))
    → apply_tiles j canvas sent payload ≡ some (c, ok tt)
    → send j e d monitor_id frame_id f
      ≡ some (record e { previous = some f }, (record { canvas = some c }, ok c))
unfolding send encode encode_delta
send_tiles j e d p f canvas c monitor_id frame_id sent payload tiled before shown same fits encoded
      applied =
    let m : MediaMessage = record {
      monitor_id = monitor_id;
      frame_id = frame_id;
      codec = e.codec;
      encoding = tile_delta;
      width_px = f.width;
      height_px = f.height;
      tiles = sent;
      payload = payload;
    } in
    ap (λ q. shown_by j d (remembering j e f (message_for j e q monitor_id frame_id f))) before
    ∙ ap (λ q. shown_by j d (remembering j e f q))
        (message_for-delta j e p monitor_id frame_id f tiled (same.0) (same.1))
    ∙ rw (encoded) (
        shown_by_ok j (record e { previous = some f }) d m (record { canvas = some c }, ok c)
          (decode_tiles j d canvas c m refl shown (fits.0) (fits.1) applied))
