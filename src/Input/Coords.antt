-- ===== src/Input/Coords.antt =====
-- crates/input/src/coords.rs: from a position on the wire to a pixel of the desktop. The f32
-- arithmetic is a parameter.
use controlis.Prelude.{
  ℕ, ◌+◌, ◌-◌, ◌^◌, ◌%◌, ◌≤◌, ◌<◌, ◌≡◌, refl, min, Bool, false, ltb, if◌then◌else◌, arith, ◌==◌,
  nat_eq,
}
use controlis.Protocol.Message.{ℤ, pos, negsuc}

-- `is_nan`, `clamp(0.0, 1.0)`, 0.0, and `(x * last as f32).round() as i64`.
pub record Floats (F : Type 0) : Type 0 where
  pub is_nan : F → Bool
  pub clamp : F → F
  pub nought : F
  pub scaled : F → ℕ → ℤ

-- `scaled.clamp(0, last)`
abbrev pub clamped_to : ℤ → ℕ → ℕ
clamped_to (pos v) last = min v last
clamped_to (negsuc v) last = 0

-- `as i32` of a number that is not negative.
abbrev pub as_i32 : ℕ → ℤ
as_i32 v = let low = v % 2 ^ 32 in if ltb low (2 ^ 31) then pos low else negsuc (2 ^ 32 - 1 - low)

abbrev pub plus : ℤ → ℤ → ℤ
plus (pos a) (pos b) = pos (a + b)
plus (negsuc a) (negsuc b) = negsuc (a + b + 1)
plus (pos a) (negsuc b) = if ltb b a then pos (a - b - 1) else negsuc (b - a)
plus (negsuc a) (pos b) = if ltb a b then pos (b - a - 1) else negsuc (a - b)

-- `+` on i32, which wraps where the checks of a debug build are off.
abbrev pub wrap_i32 : ℤ → ℤ
wrap_i32 (pos v) = as_i32 v
wrap_i32 (negsuc v) =
    let low = v % 2 ^ 32 in if ltb low (2 ^ 31) then negsuc low else pos (2 ^ 32 - 1 - low)

module _ {F : Type 0} (floats : Floats F) where
  unfoldable pub axis : F → ℕ → ℤ
  axis norm size =
      let clamped = if floats.is_nan norm then floats.nought else floats.clamp norm in
      if size == 0 then pos 0 else as_i32 (clamped_to (floats.scaled clamped (size - 1)) (size - 1))

  unfoldable pub normalized_to_pixel : F → F → ℤ → ℤ → ℕ → ℕ → ℤ × ℤ
  unfolding axis
  normalized_to_pixel x_norm y_norm origin_x origin_y width height =
      (wrap_i32 (plus origin_x (axis x_norm width)), wrap_i32 (plus origin_y (axis y_norm height)))

  clamped-small : (v : ℤ) (last : ℕ) → clamped_to v last ≤ last
  clamped-small (pos v) last = omega arith
  clamped-small (negsuc v) last = omega arith

  as_i32-small : (v : ℕ) → v < 2 ^ 31 → as_i32 v ≡ pos v
  as_i32-small v h = ground arith

  -- Whatever the wire carries and the float arithmetic makes of it, a pixel lies on the axis of a
  -- monitor that is not empty and has at most 2 ^ 31 pixels.
  pub axis-lt :
      (norm : F) (size : ℕ)
      → 0 < size
      → size ≤ 2 ^ 31
      → (v : ℕ) × (axis norm size ≡ pos v) × (v < size)
  unfolding axis
  axis-lt norm size p h =
      let v =
        clamped_to
          (floats.scaled (if floats.is_nan norm then floats.nought else floats.clamp norm)
            (size - 1))
          (size - 1) in
      let small : v ≤ size - 1 = clamped-small _ (size - 1) in
      (v, rw (not_zero, as_i32-small v (omega arith)) refl, omega arith)
    where
      not_zero : (size == 0) ≡ false
      not_zero = ground arith
