-- ===== src/Codec/Tiles.antt =====
-- The grid of tiles (`tile_rects` in crates/codec/src/encoder.rs). The fuel counts the tiles of a
-- row, or the rows; the theorem below would fail if it ran out.
use controlis.Prelude.{
  ℕ, zero, suc, ◌+◌, ◌*◌, ◌-◌, ◌/◌, ◌%◌, ◌^◌, ◌≤◌, ◌<◌, ◌≡◌, min, Bool, true, false, ◌&&◌, List, [],
  ◌∷◌, ◌++◌, arith, ltb, leb, if◌then◌else◌,
}
use controlis.Protocol.Message.{TileRect}

abbrev pub tile_size : ℕ
tile_size = 64

unfoldable pub tile_row : ℕ → ℕ → ℕ → ℕ → ℕ → List TileRect
tile_row zero y h x width = []
tile_row (suc fuel) y h x width =
    let rest = tile_row fuel y h ((x + tile_size) % 2 ^ 32) width in
    if ltb x width then record { x = x; y = y; w = min tile_size (width - x); h = h } ∷ rest else []

unfoldable pub tile_rows : ℕ → ℕ → ℕ → ℕ → List TileRect
tile_rows zero y width height = []
tile_rows (suc fuel) y width height =
    let rest = tile_rows fuel ((y + tile_size) % 2 ^ 32) width height in
    let row = tile_row (width / tile_size + 1) y (min tile_size (height - y)) 0 width in
    if ltb y height then row ++ rest else []

unfoldable pub tile_rects : ℕ → ℕ → List TileRect
tile_rects width height = tile_rows (height / tile_size + 1) 0 width height

abbrev pub inside : ℕ → ℕ → TileRect → Bool
inside px py r = (leb r.x px && ltb px (r.x + r.w)) && (leb r.y py && ltb py (r.y + r.h))

abbrev pub one_if : Bool → ℕ
one_if true = 1
one_if false = 0

-- How many of the rectangles hold the pixel.
abbrev pub holding : ℕ → ℕ → List TileRect → ℕ
holding px py [] = 0
holding px py (r ∷ rs) = one_if (inside px py r) + holding px py rs

holding-append :
    (px py : ℕ) (rs ss : List TileRect)
    → holding px py (rs ++ ss) ≡ holding px py rs + holding px py ss
holding-append px py [] ss = omega arith
holding-append px py (r ∷ rs) ss = omega (arith, holding-append px py rs ss)

holding-tile_row :
    (px py fuel y h x width : ℕ)
    → width < x + tile_size * fuel
    → width + tile_size ≤ 2 ^ 32
    → holding px py (tile_row fuel y h x width)
      ≡ one_if ((leb x px && ltb px width) && (leb y py && ltb py (y + h)))
unfolding tile_row
holding-tile_row px py zero y h x width enough small = ground arith
holding-tile_row px py (suc fuel) y h x width enough small =
    ground (arith, holding-tile_row px py fuel y h ((x + tile_size) % 2 ^ 32) width)

holding-tile_rows :
    (px py fuel y width height : ℕ)
    → height < y + tile_size * fuel
    → height + tile_size ≤ 2 ^ 32
    → width + tile_size ≤ 2 ^ 32
    → holding px py (tile_rows fuel y width height)
      ≡ one_if (ltb px width && (leb y py && ltb py height))
unfolding tile_rows
holding-tile_rows px py zero y width height enough small wide = ground arith
holding-tile_rows px py (suc fuel) y width height enough small wide = ground (
  arith,
  holding-append px py (tile_row (width / tile_size + 1) y (min tile_size (height - y)) 0 width)
      (tile_rows fuel ((y + tile_size) % 2 ^ 32) width height),
  holding-tile_row px py (width / tile_size + 1) y (min tile_size (height - y)) 0 width,
  holding-tile_rows px py fuel ((y + tile_size) % 2 ^ 32) width height,
)

-- Every pixel of a frame lies in exactly one tile, and no tile reaches beyond the frame, for sides
-- that leave a tile's size of room in a u32: both loops end at the frame's edge within their fuel.
pub holding-tile_rects :
    (px py width height : ℕ)
    → width + tile_size ≤ 2 ^ 32
    → height + tile_size ≤ 2 ^ 32
    → holding px py (tile_rects width height) ≡ one_if (ltb px width && ltb py height)
unfolding tile_rects
holding-tile_rects px py width height wide small =
    ground (arith, holding-tile_rows px py (height / tile_size + 1) 0 width height)
