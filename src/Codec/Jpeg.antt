-- ===== src/Codec/Jpeg.antt =====
-- The crates `jpeg-encoder` and `zune-jpeg` as the codec uses them.
use controlis.Prelude.{
  ℕ, ◌*◌, ◌%◌, ◌^◌, ◌≤◌, ◌≡◌, ◌++◌, codes, decimal, List, length, if◌then◌else◌, Result, ok, err,
  ◌==◌, nat_eq,
}
use controlis.Codec.{CodecError, jpeg_encode, jpeg_decode, byte_count}

-- The longest side that the decoder takes, by its default options.
abbrev pub max_side : ℕ
max_side = 16384

-- `compress` takes the width and the height as u16. `expand` takes what `compress` made of whole pixels
-- back to an image of the same size, which looks like the first one: `seen`. Errors are texts.
pub record Jpeg : Type 0 where
  pub compress : List ℕ → ℕ → ℕ → Result (List ℕ) (List ℕ)
  pub expand : List ℕ → Result (List ℕ) (List ℕ)
  pub seen : List ℕ → ℕ → ℕ → List ℕ
  pub length-seen :
      (pixels : List ℕ) (w h : ℕ)
      → length pixels ≡ h * (w * 4)
      → length (seen pixels w h) ≡ length pixels
  pub expand-compress :
      (pixels : List ℕ) (w h : ℕ) (jpeg : List ℕ)
      → w ≤ max_side
      → h ≤ max_side
      → length pixels ≡ h * (w * 4)
      → compress pixels w h ≡ ok jpeg
      → expand jpeg ≡ ok (seen pixels w h)

abbrev pub from_encoder : Result (List ℕ) (List ℕ) → Result (List ℕ) CodecError
from_encoder (ok jpeg) = ok jpeg
from_encoder (err e) = err (jpeg_encode e)

abbrev checked : Result (List ℕ) (List ℕ) → ℕ → Result (List ℕ) CodecError
checked (ok pixels) expected =
    if length pixels == expected
    then ok pixels
    else err (
        jpeg_decode (
          codes "decoded "
          ++ decimal (length pixels)
          ++ codes " bytes, expected "
          ++ decimal expected))
checked (err e) expected = err (jpeg_decode e)

module _ (j : Jpeg) where
  unfoldable pub encode_jpeg : List ℕ → ℕ → ℕ → Result (List ℕ) CodecError
  encode_jpeg rgba width height = from_encoder (j.compress rgba (width % 2 ^ 16) (height % 2 ^ 16))

  unfoldable pub decode_jpeg : List ℕ → ℕ → ℕ → Result (List ℕ) CodecError
  decode_jpeg jpeg width height = checked (j.expand jpeg) (byte_count width height)
