-- ===== src/Codec/Blit.antt =====
-- What `blit` makes of a frame, by its tiles (crates/codec/src/decoder.rs).
use controlis.Prelude.{
  ℕ, zero, suc, ◌+◌, ◌*◌, ◌^◌, ◌≤◌, ◌<◌, ◌≡◌, refl, sym, ap, ◌∙◌, ◌⊎◌, inl, inr, some, List, [],
  ◌∷◌, ◌++◌, arith, length, take, drop, length-take, length-drop, length-append,
}
use native.Mathlib.Nat.{mul-le-mul_right}
use controlis.Protocol.Message.{TileRect}
use controlis.Codec.{RgbaFrame, copy_into, row_start}
use controlis.Codec.Decode.{blit_rows, blit}
use controlis.Codec.Bounds.{IsFrame, IsInside, slice_in, blit_rows_step}
use controlis.Codec.Parts.{part, part-copied_before, part-copied_after, part-copied, part_split}
use controlis.Codec.Regions.{row_at, rows_at, tile_bytes, Apart, row_start_in, row_end}
use controlis.Codec.Away.{Away, later-Away, Apart-Away}

module _ (width height : ℕ) (small : width * height * 4 < 2 ^ 64) where
  copied_in :
      (buf src : List ℕ) (at : ℕ)
      → at + length src ≤ length buf
      → copy_into buf at src ≡ some (take at buf ++ (src ++ drop (at + length src) buf))
  unfolding copy_into
  copied_in buf src at fits = ground arith

  copied_away :
      (buf src : List ℕ) (at n start len : ℕ)
      → length src ≡ n
      → at + length src ≤ length buf
      → (start + len ≤ at) ⊎ (at + n ≤ start)
      → part start len (take at buf ++ (src ++ drop (at + length src) buf)) ≡ part start len buf
  copied_away buf src at n start len long fits (inl h) =
      part-copied_before buf src at start len h (omega (arith, fits))
  copied_away buf src at n start len long fits (inr h) =
      part-copied_after buf src at start len (omega (arith, long, h)) fits

  abbrev Blitted : RgbaFrame → TileRect → List ℕ → ℕ → ℕ → Type 0
  Blitted f r pixels left row =
      (c : RgbaFrame) × (blit_rows f r pixels left row ≡ some c)
      × IsFrame width height c
      × (rows_at width c.data_bytes r left row ≡ part (row * (r.w * 4)) (left * (r.w * 4)) pixels)
      × ((start len : ℕ)
          → Away width height r left row start len
          → part start len c.data_bytes ≡ part start len f.data_bytes)

  length-src :
      (r : TileRect) (pixels : List ℕ) (row : ℕ)
      → length pixels ≡ r.h * (r.w * 4)
      → row < r.h
      → (row * (r.w * 4) + r.w * 4 ≤ length pixels)
        × (length (part (row * (r.w * 4)) (r.w * 4) pixels) ≡ r.w * 4)
  length-src r pixels row long before =
      let fits : row * (r.w * 4) + r.w * 4 ≤ length pixels =
        omega (
          arith,
          long,
          mul-le-mul_right {m = row + 1} {n = r.h} (r.w * 4) (omega (arith, before)),
        ) in
      (
        fits,
        omega (
          arith,
          fits,
          length-take (r.w * 4) (drop (row * (r.w * 4)) pixels),
          length-drop (row * (r.w * 4)) pixels,
        ),
      )

  length-copied :
      (buf src : List ℕ) (at : ℕ)
      → at + length src ≤ length buf
      → length (take at buf ++ (src ++ drop (at + length src) buf)) ≡ length buf
  length-copied buf src at fits = omega (
    arith,
    fits,
    length-append (take at buf) (src ++ drop (at + length src) buf),
    length-append src (drop (at + length src) buf),
    length-take at buf,
    length-drop (at + length src) buf,
  )

  rows_joined :
      (painted bytes : List ℕ) (r : TileRect) (pixels src : List ℕ) (left row : ℕ)
      → part (row_at width r row) (r.w * 4) painted ≡ src
      → part (row * (r.w * 4)) (r.w * 4) pixels ≡ src
      → rows_at width painted r left (row + 1)
        ≡ part ((row + 1) * (r.w * 4)) (left * (r.w * 4)) pixels
      → rows_at width painted r (suc left) row
        ≡ part (row * (r.w * 4)) (suc left * (r.w * 4)) pixels
  rows_joined painted bytes r pixels src left row here same rows =
      let next : (row + 1) * (r.w * 4) ≡ row * (r.w * 4) + r.w * 4 = omega arith in
      let all : r.w * 4 + left * (r.w * 4) ≡ suc left * (r.w * 4) = omega arith in
      ap (λ front. front ++ rows_at width painted r left (row + 1)) (here ∙ sym same)
      ∙ ap (λ back. part (row * (r.w * 4)) (r.w * 4) pixels ++ back)
          (rows ∙ ap (λ (n : ℕ). part n (left * (r.w * 4)) pixels) next)
      ∙ part_split (row * (r.w * 4)) (r.w * 4) (left * (r.w * 4)) pixels
      ∙ ap (λ (n : ℕ). part (row * (r.w * 4)) n pixels) all

  blit_rows-in :
      (f : RgbaFrame) (r : TileRect) (pixels : List ℕ) (left row : ℕ)
      → IsFrame width height f
      → IsInside width height r
      → length pixels ≡ r.h * (r.w * 4)
      → left + row ≤ r.h
      → Blitted f r pixels left row
  unfolding blit_rows
  blit_rows-in f r pixels zero row frame within long before = (
    f,
    refl,
    frame,
    (let e : 0 ≡ 0 * (r.w * 4) = omega arith in ap (λ (n : ℕ). part (row * (r.w * 4)) n pixels) e),
    λ start len away. refl,
  )
  blit_rows-in f r pixels (suc left) row (wide, high, whole) (right, low, thin, flat) long before =
      let at = row_at width r row in
      let src = part (row * (r.w * 4)) (r.w * 4) pixels in
      let (there, size) = length-src r pixels row long (omega (arith, before)) in
      let fits : at + length src ≤ length f.data_bytes =
        rw (size, whole)
          (row_end width height r.x (r.y + row) r.w (omega (arith, before, low)) right) in
      let bytes = take at f.data_bytes ++ (src ++ drop (at + length src) f.data_bytes) in
      let starts : row_start f.width r.x (r.y + row) ≡ at =
        rw (wide) (
          row_start_in width height r.x (r.y + row) r.w (omega (arith, before, low)) right small) in
      let (c, rest, done, rows, kept) =
        blit_rows-in (record f { data_bytes = bytes }) r pixels left (row + 1)
          (wide, high, length-copied f.data_bytes src at fits ∙ whole) (right, low, thin, flat) long
          (omega (arith, before)) in
      (
        c,
        blit_rows_step f c r pixels src bytes left row
            (slice_in pixels (row * (r.w * 4)) (r.w * 4) there)
            (ap (λ (n : ℕ). copy_into f.data_bytes n src) starts
              ∙ copied_in f.data_bytes src at fits)
            rest,
        done,
        rows_joined c.data_bytes bytes r pixels src left row
            (kept at (r.w * 4) (later-Away width height r left row right)
              ∙ (ap (λ (n : ℕ). part at n bytes) (sym size) ∙ part-copied f.data_bytes src at fits))
            refl rows,
        λ start len away.
            kept start len (λ i from to. away i (omega (arith, from)) (omega (arith, to)))
            ∙ copied_away f.data_bytes src at (r.w * 4) start len size fits
                (away row (omega arith) (omega arith)),
      )

  rows_kept :
      (new old : List ℕ) (q : TileRect) (left row : ℕ)
      → ((i : ℕ)
          → i < row + left
          → part (row_at width q i) (q.w * 4) new ≡ part (row_at width q i) (q.w * 4) old)
      → rows_at width new q left row ≡ rows_at width old q left row
  rows_kept new old q zero row same = refl
  rows_kept new old q (suc left) row same =
      ap (λ front. front ++ rows_at width new q left (row + 1)) (same row (omega arith))
      ∙ ap (λ back. part (row_at width q row) (q.w * 4) old ++ back)
          (rows_kept new old q left (row + 1) (λ i to. same i (omega (arith, to))))

  part_all : (n : ℕ) (xs : List ℕ) → length xs ≡ n → part 0 n xs ≡ xs
  part_all zero [] h = refl
  part_all (suc n) [] h = absurd (omega (arith, h))
  part_all zero (x ∷ xs) h = absurd (omega (arith, h))
  part_all (suc n) (x ∷ xs) h = ap (λ rest. x ∷ rest) (part_all n xs (omega (arith, h)))

  in_width :
      (f : RgbaFrame) (q : TileRect)
      → IsFrame width height f
      → tile_bytes f q ≡ rows_at width f.data_bytes q q.h 0
  in_width f q frame = ap (λ (w : ℕ). rows_at w f.data_bytes q q.h 0) (frame.0)

  -- What `blit` makes of a frame: these pixels in the tile, and all tiles apart as they were.
  pub blit-in :
      (f : RgbaFrame) (r : TileRect) (pixels : List ℕ)
      → IsFrame width height f
      → IsInside width height r
      → length pixels ≡ r.h * (r.w * 4)
      → (c : RgbaFrame) × (blit f r pixels ≡ some c)
        × IsFrame width height c
        × (tile_bytes c r ≡ pixels)
        × ((q : TileRect) → IsInside width height q → Apart r q → tile_bytes c q ≡ tile_bytes f q)
  unfolding blit
  blit-in f r pixels frame within long =
      let (c, made, done, rows, kept) =
        blit_rows-in f r pixels r.h 0 frame within long (omega arith) in
      let none_before : 0 * (r.w * 4) ≡ 0 = omega arith in
      (
        c,
        made,
        done,
        in_width c r done
            ∙ rows
            ∙ ap (λ (n : ℕ). part n (r.h * (r.w * 4)) pixels) none_before
            ∙ part_all (r.h * (r.w * 4)) pixels long,
        λ q other apart.
            in_width c q done
            ∙ rows_kept c.data_bytes f.data_bytes q q.h 0 (λ i to.
              kept (row_at width q i) (q.w * 4)
                (Apart-Away width height r q i within other apart (omega (arith, to))))
            ∙ sym (in_width f q frame),
      )
