-- ===== src/Codec/Spread.antt =====
-- No two tiles of a frame overlap (`tile_rects` in crates/codec/src/encoder.rs).
use controlis.Prelude.{
  ℕ, zero, suc, ◌+◌, ◌-◌, ◌/◌, ◌%◌, ◌^◌, ◌≤◌, ◌≡◌, refl, inl, inr, min, List, [], ◌∷◌, ◌++◌, arith,
  ltb, ltb→lt, All, Bool-cases,
}
use controlis.Protocol.Message.{TileRect}
use controlis.Codec.Tiles.{tile_size, tile_row, tile_rows, tile_rects}
use controlis.Codec.Bounds.{All-append}
use controlis.Codec.Regions.{Apart}

-- Any two are apart.
abbrev pub Spread : List TileRect → Type 0
Spread [] = Unit
Spread (r ∷ rs) = All (Apart r) rs × Spread rs

pub All-map :
    {P Q : TileRect → Type 0} (rs : List TileRect)
    → ((r : TileRect) → P r → Q r)
    → All P rs
    → All Q rs
All-map [] each all = tt
All-map (r ∷ rs) each (one, all) = (each r one, All-map rs each all)

pub All-zip :
    {P Q R : TileRect → Type 0} (rs : List TileRect)
    → ((r : TileRect) → P r → Q r → R r)
    → All P rs
    → All Q rs
    → All R rs
All-zip [] each all others = tt
All-zip (r ∷ rs) each (one, all) (other, others) = (each r one other, All-zip rs each all others)

pub Apart-sym : (r q : TileRect) → Apart r q → Apart q r
Apart-sym r q (inl (inl e)) = inl (inr e)
Apart-sym r q (inl (inr e)) = inl (inl e)
Apart-sym r q (inr (inl e)) = inr (inr e)
Apart-sym r q (inr (inr e)) = inr (inl e)

Spread-append :
    (rs ss : List TileRect)
    → Spread rs
    → Spread ss
    → All (λ r. All (Apart r) ss) rs
    → Spread (rs ++ ss)
Spread-append [] ss a b across = b
Spread-append (r ∷ rs) ss (apart, a) b (one, across) =
    (All-append (Apart r) rs ss apart one, Spread-append rs ss a b across)

-- In the row at `y` of this height, from `x` on.
abbrev InRow : ℕ → ℕ → ℕ → TileRect → Type 0
InRow y h x q = (x ≤ q.x) × (q.y ≡ y) × (q.h ≡ h)

tile_row-InRow :
    (fuel y h x width : ℕ)
    → width + tile_size ≤ 2 ^ 32
    → All (InRow y h x) (tile_row fuel y h x width)
unfolding tile_row
tile_row-InRow zero y h x width wide = tt
tile_row-InRow (suc fuel) y h x width wide = elim (Bool-cases (ltb x width)) [
  | inl e ↦ rw (e) (
    (omega arith, refl, refl),
    All-map (tile_row fuel y h ((x + tile_size) % 2 ^ 32) width)
        (λ q (from, at, high). (omega (arith, from, wide, ltb→lt x width e), at, high))
        (tile_row-InRow fuel y h ((x + tile_size) % 2 ^ 32) width wide),
  )
  | inr e ↦ rw (e) tt
]

tile_row-Spread :
    (fuel y h x width : ℕ) → width + tile_size ≤ 2 ^ 32 → Spread (tile_row fuel y h x width)
unfolding tile_row
tile_row-Spread zero y h x width wide = tt
tile_row-Spread (suc fuel) y h x width wide = elim (Bool-cases (ltb x width)) [
  | inl e ↦ rw (e) (
    All-map (tile_row fuel y h ((x + tile_size) % 2 ^ 32) width)
        (λ q (from, at, high). inl (inl (omega (arith, from, wide, ltb→lt x width e))))
        (tile_row-InRow fuel y h ((x + tile_size) % 2 ^ 32) width wide),
    tile_row-Spread fuel y h ((x + tile_size) % 2 ^ 32) width wide,
  )
  | inr e ↦ rw (e) tt
]

Below : ℕ → TileRect → Type 0
Below y q = y ≤ q.y

tile_rows-Below :
    (fuel y width height : ℕ)
    → width + tile_size ≤ 2 ^ 32
    → height + tile_size ≤ 2 ^ 32
    → All (Below y) (tile_rows fuel y width height)
unfolding tile_rows Below
tile_rows-Below zero y width height wide high = tt
tile_rows-Below (suc fuel) y width height wide high = elim (Bool-cases (ltb y height)) [
  | inl e ↦ rw (e) (
      All-append (Below y) (tile_row (width / tile_size + 1) y (min tile_size (height - y)) 0 width)
        (tile_rows fuel ((y + tile_size) % 2 ^ 32) width height)
        (All-map (tile_row (width / tile_size + 1) y (min tile_size (height - y)) 0 width)
          (λ q (from, at, tall). omega (arith, at))
          (tile_row-InRow (width / tile_size + 1) y (min tile_size (height - y)) 0 width wide))
        (All-map (tile_rows fuel ((y + tile_size) % 2 ^ 32) width height)
          (λ q below. omega (arith, below, high, ltb→lt y height e))
          (tile_rows-Below fuel ((y + tile_size) % 2 ^ 32) width height wide high)))
  | inr e ↦ rw (e) tt
]

tile_rows-Spread :
    (fuel y width height : ℕ)
    → width + tile_size ≤ 2 ^ 32
    → height + tile_size ≤ 2 ^ 32
    → Spread (tile_rows fuel y width height)
unfolding tile_rows Below
tile_rows-Spread zero y width height wide high = tt
tile_rows-Spread (suc fuel) y width height wide high = elim (Bool-cases (ltb y height)) [
  | inl e ↦
      let row = tile_row (width / tile_size + 1) y (min tile_size (height - y)) 0 width in
      let rest = tile_rows fuel ((y + tile_size) % 2 ^ 32) width height in
      rw (e) (
        Spread-append row rest
          (tile_row-Spread (width / tile_size + 1) y (min tile_size (height - y)) 0 width wide)
          (tile_rows-Spread fuel ((y + tile_size) % 2 ^ 32) width height wide high)
          (All-map row
            (λ r (from, at, tall).
              All-map rest
                (λ q below. inr (inl (omega (arith, at, tall, below, high, ltb→lt y height e))))
                (tile_rows-Below fuel ((y + tile_size) % 2 ^ 32) width height wide high))
            (tile_row-InRow (width / tile_size + 1) y (min tile_size (height - y)) 0 width wide)))
  | inr e ↦ rw (e) tt
]

pub tile_rects-Spread :
    (width height : ℕ)
    → width + tile_size ≤ 2 ^ 32
    → height + tile_size ≤ 2 ^ 32
    → Spread (tile_rects width height)
unfolding tile_rects
tile_rects-Spread width height wide high =
    tile_rows-Spread (height / tile_size + 1) 0 width height wide high
