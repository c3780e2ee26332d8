-- ===== src/Codec/Away.antt =====
-- Rows of a tile that a part of the buffer does not touch (crates/codec).
use controlis.Prelude.{ℕ, ◌+◌, ◌*◌, ◌≤◌, ◌<◌, ◌≡◌, sym, ◌⊎◌, inl, inr, arith}
use native.Mathlib.Nat.{mul-le-mul_right}
use controlis.Protocol.Message.{TileRect}
use controlis.Codec.Bounds.{IsInside}
use controlis.Codec.Regions.{row_at, Apart}

module _ (width height : ℕ) where
  -- None of these rows of the tile touches the part.
  abbrev pub Away : TileRect → ℕ → ℕ → ℕ → ℕ → Type 0
  Away r left row start len =
      (i : ℕ)
      → row ≤ i
      → i < row + left
      → (start + len ≤ row_at width r i) ⊎ (row_at width r i + r.w * 4 ≤ start)

  pub later-Away :
      (r : TileRect) (left row : ℕ)
      → r.x + r.w ≤ width
      → Away r left (row + 1) (row_at width r row) (r.w * 4)
  later-Away r left row right i from to = inl (
      omega (
        arith,
        right,
        mul-le-mul_right {m = r.y + row + 1} {n = r.y + i} (width * 4) (omega (arith, from)),
      ))

  order : (a b : ℕ) → (a < b) ⊎ ((b < a) ⊎ (a ≡ b))
  order a b = ground arith

  above :
      (a b x w z : ℕ)
      → a < b
      → x + w ≤ width
      → a * (width * 4) + x * 4 + w * 4 ≤ b * (width * 4) + z * 4
  above a b x w z h right =
      omega (arith, right, mul-le-mul_right {m = a + 1} {n = b} (width * 4) (omega (arith, h)))

  beside :
      (a b x w z : ℕ)
      → a ≡ b
      → x + w ≤ z
      → a * (width * 4) + x * 4 + w * 4 ≤ b * (width * 4) + z * 4
  beside a b x w z h right =
      omega (arith, right, mul-le-mul_right {m = a} {n = b} (width * 4) (omega (arith, h)))

  pub Apart-Away :
      (r q : TileRect) (row : ℕ)
      → IsInside width height r
      → IsInside width height q
      → Apart r q
      → row < q.h
      → Away r r.h 0 (row_at width q row) (q.w * 4)
  Apart-Away r q row within other apart before i from to = elim (order (r.y + i) (q.y + row)) [
    | inl up ↦ inr (above (r.y + i) (q.y + row) r.x r.w q.x up within.0)
    | inr (inl down) ↦ inl (above (q.y + row) (r.y + i) q.x q.w r.x down other.0)
    | inr (inr level) ↦ elim apart [
      | inl (inl left) ↦ inr (beside (r.y + i) (q.y + row) r.x r.w q.x level left)
      | inl (inr right) ↦ inl (beside (q.y + row) (r.y + i) q.x q.w r.x (sym level) right)
      | inr (inl over) ↦ absurd (omega (arith, level, over, to))
      | inr (inr under) ↦ absurd (omega (arith, level, under, before))
    ]
  ]
