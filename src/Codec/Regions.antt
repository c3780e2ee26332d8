-- ===== src/Codec/Regions.antt =====
-- The pixels of a tile, described without the loops of crates/codec, and what those loops make of them.
use controlis.Prelude.{
  ℕ, zero, suc, ◌+◌, ◌*◌, ◌^◌, ◌≤◌, ◌<◌, ◌≡◌, refl, sym, ap, ◌∙◌, ◌⊎◌, Bool, true, false, not, ◌&&◌,
  some, List, [], ◌++◌, arith, ok, length, drop, str_beq, length-take, length-drop, length-append,
}
use native.Mathlib.Nat.{mul-le-mul_right}
use controlis.Protocol.Message.{TileRect}
use controlis.Codec.{RgbaFrame, slice, row_start, M}
use controlis.Codec.Encode.{rows_changed, tile_changed, extract_rows, extract_tile}
use controlis.Codec.Bounds.{IsFrame, IsInside, slice_in}
use controlis.Codec.Parts.{part, str_beq-append}

-- Where a row of a tile starts, and how long it is.
abbrev pub row_at : ℕ → TileRect → ℕ → ℕ
row_at width r row = (r.y + row) * (width * 4) + r.x * 4

-- Rows of a buffer inside the tile, from one on.
abbrev pub rows_at : ℕ → List ℕ → TileRect → ℕ → ℕ → List ℕ
rows_at width buf r zero row = []
rows_at width buf r (suc left) row =
    part (row_at width r row) (r.w * 4) buf ++ rows_at width buf r left (row + 1)

abbrev pub rows_in : RgbaFrame → TileRect → ℕ → ℕ → List ℕ
rows_in f r left row = rows_at f.width f.data_bytes r left row

-- The pixels of the frame inside the tile.
abbrev pub tile_bytes : RgbaFrame → TileRect → List ℕ
tile_bytes f r = rows_in f r r.h 0

-- Side by side, or one below the other.
abbrev pub Apart : TileRect → TileRect → Type 0
Apart r q = ((r.x + r.w ≤ q.x) ⊎ (q.x + q.w ≤ r.x)) ⊎ ((r.y + r.h ≤ q.y) ⊎ (q.y + q.h ≤ r.y))

pub row_start_in :
    (width height x y w : ℕ)
    → y < height
    → x + w ≤ width
    → width * height * 4 < 2 ^ 64
    → row_start width x y ≡ y * (width * 4) + x * 4
row_start_in width height x y w low right small =
    omega (arith, mul-le-mul_right {m = y + 1} {n = height} width (omega (arith, low)))

pub row_end :
    (width height x y w : ℕ)
    → y < height
    → x + w ≤ width
    → y * (width * 4) + x * 4 + w * 4 ≤ width * height * 4
row_end width height x y w low right =
    omega (arith, mul-le-mul_right {m = y + 1} {n = height} width (omega (arith, low)))

module _ (width height : ℕ) (small : width * height * 4 < 2 ^ 64) where
  -- The row is where the code looks for it, and inside the buffer.
  sliced_row :
      (f : RgbaFrame) (r : TileRect) (row : ℕ)
      → IsFrame width height f
      → IsInside width height r
      → row < r.h
      → slice f.data_bytes (row_start f.width r.x (r.y + row)) (r.w * 4)
        ≡ some (part (row_at f.width r row) (r.w * 4) f.data_bytes)
  sliced_row f r row (wide, high, whole) (right, low, _, _) before =
      let e : row_start f.width r.x (r.y + row) ≡ row_at f.width r row =
        rw (wide) (
          row_start_in width height r.x (r.y + row) r.w (omega (arith, before, low)) right small) in
      ap (λ (at : ℕ). slice f.data_bytes at (r.w * 4)) e
      ∙ slice_in f.data_bytes (row_at f.width r row) (r.w * 4) (
          rw (wide, whole)
            (row_end width height r.x (r.y + row) r.w (omega (arith, before, low)) right))

  extract_rows-in :
      (f : RgbaFrame) (r : TileRect) (left row : ℕ)
      → IsFrame width height f
      → IsInside width height r
      → left + row ≤ r.h
      → extract_rows f r left row ≡ some (ok (rows_in f r left row))
  unfolding extract_rows
  extract_rows-in f r zero row frame within before = refl
  extract_rows-in f r (suc left) row frame within before =
      rw
        (
          extract_rows,
          sliced_row f r row frame within (omega (arith, before)),
          extract_rows-in f r left (row + 1) frame within (omega (arith, before)),
        )
        refl

  pub extract_tile-in :
      (f : RgbaFrame) (r : TileRect)
      → IsFrame width height f
      → IsInside width height r
      → extract_tile f r ≡ some (ok (tile_bytes f r))
  unfolding extract_tile
  extract_tile-in f r frame within = extract_rows-in f r r.h 0 frame within (omega arith)

  length-part :
      (f : RgbaFrame) (r : TileRect) (row : ℕ)
      → IsFrame width height f
      → IsInside width height r
      → row < r.h
      → length (part (row_at f.width r row) (r.w * 4) f.data_bytes) ≡ r.w * 4
  length-part f r row (wide, high, whole) (right, low, _, _) before =
      let fits : row_at f.width r row + r.w * 4 ≤ length f.data_bytes =
        rw (wide, whole)
          (row_end width height r.x (r.y + row) r.w (omega (arith, before, low)) right) in
      omega (
        arith,
        fits,
        length-take (r.w * 4) (drop (row_at f.width r row) f.data_bytes),
        length-drop (row_at f.width r row) f.data_bytes,
      )

  differs :
      (b c : Bool) (rest : M Bool)
      → rest ≡ some (ok (not c))
      → elim b [ true ↦ rest | false ↦ some (ok true) ] ≡ some (ok (not (b && c)))
  differs true c rest e = e
  differs false c rest e = refl

  rows_changed-in :
      (p f : RgbaFrame) (r : TileRect) (left row : ℕ)
      → IsFrame width height p
      → IsFrame width height f
      → IsInside width height r
      → left + row ≤ r.h
      → rows_changed p f r left row
        ≡ some (ok (not (str_beq (rows_in p r left row) (rows_in f r left row))))
  unfolding rows_changed
  rows_changed-in p f r zero row frame other within before = refl
  rows_changed-in p f r (suc left) row frame other within before =
      let here = part (row_at p.width r row) (r.w * 4) p.data_bytes in
      let there = part (row_at f.width r row) (r.w * 4) f.data_bytes in
      let same_place : slice f.data_bytes (row_start p.width r.x (r.y + row)) (r.w * 4)
          ≡ some there =
        ap (λ (w : ℕ). slice f.data_bytes (row_start w r.x (r.y + row)) (r.w * 4))
          (frame.0 ∙ sym (other.0))
        ∙ sliced_row f r row other within (omega (arith, before)) in
      rw
        (
          rows_changed,
          sliced_row p r row frame within (omega (arith, before)),
          same_place,
          str_beq-append here there (rows_in p r left (row + 1)) (rows_in f r left (row + 1)) (
              length-part p r row frame within (omega (arith, before))
              ∙ sym (length-part f r row other within (omega (arith, before)))),
        )
        (differs (str_beq here there)
          (str_beq (rows_in p r left (row + 1)) (rows_in f r left (row + 1)))
          (rows_changed p f r left (row + 1))
          (rows_changed-in p f r left (row + 1) frame other within (omega (arith, before))))

  pub tile_changed-in :
      (p f : RgbaFrame) (r : TileRect)
      → IsFrame width height p
      → IsFrame width height f
      → IsInside width height r
      → tile_changed p f r ≡ some (ok (not (str_beq (tile_bytes p r) (tile_bytes f r))))
  unfolding tile_changed
  tile_changed-in p f r frame other within =
      rows_changed-in p f r r.h 0 frame other within (omega arith)

  length-rows_at :
      (f : RgbaFrame) (r : TileRect) (left row : ℕ)
      → IsFrame width height f
      → IsInside width height r
      → left + row ≤ r.h
      → length (rows_in f r left row) ≡ left * (r.w * 4)
  length-rows_at f r zero row frame within before = omega arith
  length-rows_at f r (suc left) row frame within before = omega (
    arith,
    length-append (part (row_at f.width r row) (r.w * 4) f.data_bytes) (rows_in f r left (row + 1)),
    length-part f r row frame within (omega (arith, before)),
    length-rows_at f r left (row + 1) frame within (omega (arith, before)),
  )

  pub length-tile_bytes :
      (f : RgbaFrame) (r : TileRect)
      → IsFrame width height f
      → IsInside width height r
      → length (tile_bytes f r) ≡ r.h * (r.w * 4)
  length-tile_bytes f r frame within = length-rows_at f r r.h 0 frame within (omega arith)
