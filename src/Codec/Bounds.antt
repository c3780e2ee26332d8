-- ===== src/Codec/Bounds.antt =====
-- The tiles of a frame lie in its buffer: the slices that crates/codec takes are in range.
use controlis.Prelude.{
  ℕ, zero, suc, ◌+◌, ◌*◌, ◌-◌, ◌%◌, ◌/◌, ◌^◌, ◌≤◌, ◌≡◌, min, some, List, [], ◌∷◌, ◌++◌, arith, ltb,
  ltb→lt, length, take, drop, All, Bool-cases, inl, inr,
}
use controlis.Protocol.Message.{TileRect}
use controlis.Codec.{RgbaFrame, slice, copy_into, row_start}
use controlis.Codec.Tiles.{tile_size, tile_row, tile_rows, tile_rects}
use controlis.Codec.Decode.{blit_rows}

-- A frame of this size with all of its bytes.
abbrev pub IsFrame : ℕ → ℕ → RgbaFrame → Type 0
IsFrame width height f =
    (f.width ≡ width) × (f.height ≡ height) × (length f.data_bytes ≡ width * height * 4)

abbrev pub IsInside : ℕ → ℕ → TileRect → Type 0
IsInside width height r =
    (r.x + r.w ≤ width) × (r.y + r.h ≤ height) × (r.w ≤ tile_size) × (r.h ≤ tile_size)

pub All-append :
    (P : TileRect → Type 0) (rs ss : List TileRect) → All P rs → All P ss → All P (rs ++ ss)
All-append P [] ss a b = b
All-append P (r ∷ rs) ss (a, more) b = (a, All-append P rs ss more b)

tile_row-IsInside :
    (fuel y h x width height : ℕ)
    → y + h ≤ height
    → h ≤ tile_size
    → All (IsInside width height) (tile_row fuel y h x width)
unfolding tile_row
tile_row-IsInside zero y h x width height low small = tt
tile_row-IsInside (suc fuel) y h x width height low small = elim (Bool-cases (ltb x width)) [
  | inl e ↦ rw (e) (
    (omega (arith, ltb→lt x width e), low, omega arith, small),
    tile_row-IsInside fuel y h ((x + tile_size) % 2 ^ 32) width height low small,
  )
  | inr e ↦ rw (e) tt
]

tile_rows-IsInside :
    (fuel y width height : ℕ) → All (IsInside width height) (tile_rows fuel y width height)
unfolding tile_rows
tile_rows-IsInside zero y width height = tt
tile_rows-IsInside (suc fuel) y width height = elim (Bool-cases (ltb y height)) [
  | inl e ↦ rw (e) (
      All-append (IsInside width height)
        (tile_row (width / tile_size + 1) y (min tile_size (height - y)) 0 width)
        (tile_rows fuel ((y + tile_size) % 2 ^ 32) width height)
        (tile_row-IsInside (width / tile_size + 1) y (min tile_size (height - y)) 0 width height
          (omega (arith, ltb→lt y height e)) (omega arith))
        (tile_rows-IsInside fuel ((y + tile_size) % 2 ^ 32) width height))
  | inr e ↦ rw (e) tt
]

pub tile_rects-IsInside : (width height : ℕ) → All (IsInside width height) (tile_rects width height)
unfolding tile_rects
tile_rects-IsInside width height = tile_rows-IsInside (height / tile_size + 1) 0 width height

pub slice_in :
    (buf : List ℕ) (start len : ℕ)
    → start + len ≤ length buf
    → slice buf start len ≡ some (take len (drop start buf))
unfolding slice
slice_in buf start len fits = ground arith

pub blit_rows_step :
    (f c : RgbaFrame) (r : TileRect) (pixels src bytes : List ℕ) (left row : ℕ)
    → slice pixels (row * (r.w * 4)) (r.w * 4) ≡ some src
    → copy_into f.data_bytes (row_start f.width r.x (r.y + row)) src ≡ some bytes
    → blit_rows (record f { data_bytes = bytes }) r pixels left (row + 1) ≡ some c
    → blit_rows f r pixels (suc left) row ≡ some c
unfolding blit_rows
blit_rows_step f c r pixels src bytes left row sliced copied rest =
    rw (blit_rows, sliced, copied) rest
