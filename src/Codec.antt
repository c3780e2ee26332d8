-- ===== src/Codec.antt =====
-- crates/codec: frames, the tile codec, and the choice between it and OpenH264. JPEG and OpenH264
-- are parameters. A result of none is a panic, where the source slices out of range.
pub mod Jpeg
pub mod Tiles
pub mod Encode
pub mod Decode
pub mod Video
pub mod RoundTrip
pub mod Bounds
pub mod Paint
pub mod Parts
pub mod Regions
pub mod Away
pub mod Blit
pub mod Spread
pub mod Delta
pub mod Keyframe
use controlis.Prelude.{
  ℕ, zero, suc, ◌+◌, ◌*◌, ◌%◌, ◌^◌, Bool, ◌&&◌, Option, none, some, List, [], ◌∷◌, ◌++◌, length,
  take, drop, replicate, ltb, if◌then◌else◌, Result, ok, err, ◌==◌, nat_eq,
}
use controlis.Protocol.Message.{VideoCodec}

pub data CodecError : Type 0 where
  dimension_mismatch : ℕ → ℕ → ℕ → CodecError
  unexpected_resize : CodecError
  jpeg_encode : List ℕ → CodecError
  jpeg_decode : List ℕ → CodecError
  h264_failed : List ℕ → CodecError
  unsupported_codec : VideoCodec → CodecError
  malformed_payload : CodecError

pub record RgbaFrame : Type 0 where
  pub width : ℕ
  pub height : ℕ
  pub data_bytes : List ℕ

-- The products of two u32 and 4 as a usize of 64 bits.
abbrev pub byte_count : ℕ → ℕ → ℕ
byte_count width height = width * height * 4 % 2 ^ 64

-- `RgbaFrame::new`
unfoldable pub new_frame : ℕ → ℕ → List ℕ → Result RgbaFrame CodecError
new_frame width height bytes =
    if length bytes == byte_count width height
    then ok (record { width = width; height = height; data_bytes = bytes })
    else err (dimension_mismatch width height (length bytes))

unfoldable pub black_pixels : ℕ → List ℕ
black_pixels zero = []
black_pixels (suc n) = 0 ∷ 0 ∷ 0 ∷ 255 ∷ black_pixels n

-- `RgbaFrame::black`
unfoldable pub black : ℕ → ℕ → RgbaFrame
unfolding black_pixels
black width height = record {
  width = width;
  height = height;
  data_bytes = black_pixels (width * height);
}

abbrev pub same_size : RgbaFrame → RgbaFrame → Bool
same_size a b = a.width == b.width && a.height == b.height

-- `buf[start..start + len]`
unfoldable pub slice : List ℕ → ℕ → ℕ → Option (List ℕ)
slice buf start len =
    if ltb (length buf) (start + len) then none else some (take len (drop start buf))

-- `buf[start..start + len].copy_from_slice(src)`, for a `src` of that length.
unfoldable pub copy_into : List ℕ → ℕ → List ℕ → Option (List ℕ)
copy_into buf start src =
    if ltb (length buf) (start + length src)
    then none
    else some (take start buf ++ (src ++ drop (start + length src) buf))

-- Where a row's bytes start: `(y + row) * stride + x * 4` in usize.
abbrev pub row_start : ℕ → ℕ → ℕ → ℕ
row_start width x y = (y * (width * 4) + x * 4) % 2 ^ 64

-- What may panic, and else gives a result.
abbrev pub M : Type 0 → Type 0
M A = Option (Result A CodecError)

infixl 5 ◌>>=◌
abbrev pub ◌>>=◌ : {A B : Type 0} → M A → (A → M B) → M B
none >>= f = none
some (err e) >>= f = some (err e)
some (ok a) >>= f = f a

abbrev pub or_panic : {A : Type 0} → Option A → M A
or_panic none = none
or_panic (some a) = some (ok a)
