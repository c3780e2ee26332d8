-- ===== src/Capture.antt =====
-- crates/capture/src/synthetic.rs, with the errors of crates/capture/src/lib.rs: the capturer of moving
-- patterns. A `tick` is a u64; arithmetic on u32 wraps, as where the checks of a debug build are off.
use controlis.Prelude.{
  ℕ, zero, suc, ◌+◌, ◌-◌, ◌*◌, ◌/◌, ◌%◌, ◌^◌, ◌<◌, ◌≡◌, refl, sym, ap, subst, ◌∙◌, Bool, true,
  false, ◌&&◌, List, [], ◌∷◌, ◌++◌, map, length, length-append, max, min, leb, ltb, if◌then◌else◌,
  arith, Result, ok, err, codes, decimal, ◌==◌, nat_eq, All, ◌⊎◌, inl, inr, Bool-cases,
}
use controlis.Protocol.Message.{ℤ, pos, MonitorInfo}
use controlis.Input.Coords.{as_i32, plus, wrap_i32}
use controlis.Codec.{CodecError, RgbaFrame, byte_count, new_frame}
use controlis.Codec.RoundTrip.{IsWhole, new_frame_whole}

pub data CaptureError : Type 0 where
  no_monitors : CaptureError
  monitor_not_found : ℕ → CaptureError
  backend_failed : List ℕ → CaptureError
  codec_failed : CodecError → CaptureError

pub record VirtualMonitor : Type 0 where
  pub info : MonitorInfo
  pub tick : ℕ

-- The loop of `from_layouts`, with the next index and origin.
unfoldable pub layouts_from : ℕ → ℤ → List (ℕ × ℕ) → List VirtualMonitor
layouts_from index origin_x [] = []
layouts_from index origin_x ((width, height) ∷ sizes) =
    record {
      info = record {
        id = index;
        name = codes "Synthetic " ++ decimal (index + 1);
        origin_x = origin_x;
        origin_y = pos 0;
        width_px = width;
        height_px = height;
        is_primary = index == 0;
      };
      tick = 0;
    }
    ∷ layouts_from (index + 1) (wrap_i32 (plus origin_x (as_i32 width))) sizes

-- A `SyntheticCapturer` is its monitors.
unfoldable pub from_layouts : List (ℕ × ℕ) → List VirtualMonitor
unfolding layouts_from
from_layouts sizes = layouts_from 0 (pos 0) sizes

abbrev info_of : VirtualMonitor → MonitorInfo
info_of m = m.info

unfoldable pub monitors : List VirtualMonitor → Result (List MonitorInfo) CaptureError
monitors ms = ok (map info_of ms)

abbrev box_size : ℕ
box_size = 80

-- The pixel at x and y of a frame of w by h, in which the box stands at bx and by.
unfoldable pub pixel : (w h tint bx by x y : ℕ) → List ℕ
pixel w h tint bx by x y =
    if leb bx x && ltb x (bx + box_size) && leb by y && ltb y (by + box_size)
    then 240 ∷ 80 ∷ 40 ∷ 255 ∷ []
    else x * 255 % 2 ^ 32 / w % 256
      ∷ y * 255 % 2 ^ 32 / h % 256
      ∷ min ((64 + tint * 60) % 2 ^ 32) 255
      ∷ 255
      ∷ []

-- The rest of a row, from x.
unfoldable pub pixel_row : (w h tint bx by left x y : ℕ) → List ℕ
unfolding pixel
pixel_row w h tint bx by zero x y = []
pixel_row w h tint bx by (suc left) x y =
    pixel w h tint bx by x y ++ pixel_row w h tint bx by left (x + 1) y

-- The rows that are left, from y.
unfoldable pub pixel_rows : (w h tint bx by left y : ℕ) → List ℕ
unfolding pixel_row
pixel_rows w h tint bx by zero y = []
pixel_rows w h tint bx by (suc left) y =
    pixel_row w h tint bx by w 0 y ++ pixel_rows w h tint bx by left (y + 1)

unfoldable pub render : VirtualMonitor → List ℕ
unfolding pixel_rows
render m =
    let w = m.info.width_px in
    let h = m.info.height_px in
    let bx = m.tick % 2 ^ 32 * 7 % 2 ^ 32 % max (w - box_size) 1 in
    pixel_rows w h m.info.id bx ((h - box_size) / 2) h 0

abbrev as_captured : Result RgbaFrame CodecError → Result RgbaFrame CaptureError
as_captured (ok f) = ok f
as_captured (err e) = err (codec_failed e)

abbrev pub ticked : VirtualMonitor → VirtualMonitor
ticked m = record m { tick = (m.tick + 1) % 2 ^ 64 }

-- `capture`, on the first monitor that has the id.
unfoldable pub capture :
    List VirtualMonitor → ℕ → List VirtualMonitor × Result RgbaFrame CaptureError
unfolding render new_frame
capture [] id = ([], err (monitor_not_found id))
capture (m ∷ ms) id = elim (m.info.id == id) [
  | true ↦ (ticked m ∷ ms, as_captured (new_frame m.info.width_px m.info.height_px (render m)))
  | false ↦ let later = capture ms id in (m ∷ later.0, later.1)
]

abbrev map_ok :
    MonitorInfo → Result (List MonitorInfo) CaptureError → Result (List MonitorInfo) CaptureError
map_ok m (ok ms) = ok (m ∷ ms)
map_ok m (err e) = err e

length-pixel : (w h tint bx by x y : ℕ) → length (pixel w h tint bx by x y) ≡ 4
unfolding pixel
length-pixel w h tint bx by x y =
    go (leb bx x && ltb x (bx + box_size) && leb by y && ltb y (by + box_size))
  where
    go :
        (b : Bool)
        → length (
            if b
            then 240 ∷ 80 ∷ 40 ∷ 255 ∷ []
            else x * 255 % 2 ^ 32 / w % 256
              ∷ y * 255 % 2 ^ 32 / h % 256
              ∷ min ((64 + tint * 60) % 2 ^ 32) 255
              ∷ 255
              ∷ [])
          ≡ 4
    go true = refl
    go false = refl

length-pixel_row :
    (w h tint bx by left x y : ℕ) → length (pixel_row w h tint bx by left x y) ≡ left * 4
unfolding pixel_row
length-pixel_row w h tint bx by zero x y = refl
length-pixel_row w h tint bx by (suc left) x y =
    rw
      (
        pixel_row,
        length-append (pixel w h tint bx by x y) (pixel_row w h tint bx by left (x + 1) y),
        length-pixel w h tint bx by x y,
        length-pixel_row w h tint bx by left (x + 1) y,
      )
      (omega arith)

length-pixel_rows :
    (w h tint bx by left y : ℕ) → length (pixel_rows w h tint bx by left y) ≡ left * (w * 4)
unfolding pixel_rows
length-pixel_rows w h tint bx by zero y = ground arith
length-pixel_rows w h tint bx by (suc left) y =
    rw
      (
        pixel_rows,
        length-append (pixel_row w h tint bx by w 0 y) (pixel_rows w h tint bx by left (y + 1)),
        length-pixel_row w h tint bx by w 0 y,
        length-pixel_rows w h tint bx by left (y + 1),
      )
      (omega arith)

length-render : (m : VirtualMonitor) → length (render m) ≡ m.info.height_px * (m.info.width_px * 4)
unfolding render
length-render m =
    length-pixel_rows m.info.width_px m.info.height_px m.info.id
      (m.tick % 2 ^ 32 * 7 % 2 ^ 32 % max (m.info.width_px - box_size) 1)
      ((m.info.height_px - box_size) / 2) m.info.height_px 0

-- A monitor whose frames an allocation can hold.
abbrev pub IsSmall : VirtualMonitor → Type 0
IsSmall m = m.info.width_px * m.info.height_px * 4 < 2 ^ 64

-- No monitor has the id.
abbrev pub IsUnknown : ℕ → List VirtualMonitor → Type 0
IsUnknown id ms = All (λ (m : VirtualMonitor). (m.info.id == id) ≡ false) ms

-- A whole frame, or no monitor of the id.
abbrev Captured : ℕ → List VirtualMonitor → Result RgbaFrame CaptureError → Type 0
Captured id ms r =
    ((f : RgbaFrame) × (r ≡ ok f) × IsWhole f)
    ⊎ ((r ≡ err (monitor_not_found id)) × IsUnknown id ms)

render-IsWhole :
    (m : VirtualMonitor)
    → IsSmall m
    → length (render m) ≡ byte_count m.info.width_px m.info.height_px
render-IsWhole m small = rw (length-render m) (ground (arith, small))

other_one :
    (id : ℕ) (m : VirtualMonitor) (ms : List VirtualMonitor) (r : Result RgbaFrame CaptureError)
    → (m.info.id == id) ≡ false
    → Captured id ms r
    → Captured id (m ∷ ms) r
other_one id m ms r other (inl found) = inl found
other_one id m ms r other (inr (e, unknown)) = inr (e, (other, unknown))

capture_other :
    (m : VirtualMonitor) (ms : List VirtualMonitor) (id : ℕ)
    → (m.info.id == id) ≡ false
    → capture (m ∷ ms) id ≡ (m ∷ (capture ms id).0, (capture ms id).1)
unfolding capture
capture_other m ms id other = rw (capture, other) refl

-- A capture gives a whole frame if a monitor has the id, and monitor_not_found if none has, and the
-- monitors that are listed stay as they were, where an allocation can hold a frame of each.
pub capture-IsWhole :
    (ms : List VirtualMonitor) (id : ℕ)
    → All IsSmall ms
    → (monitors (capture ms id).0 ≡ monitors ms) × Captured id ms (capture ms id).1
unfolding capture monitors
capture-IsWhole [] id small = (refl, inr (refl, tt))
capture-IsWhole (m ∷ ms) id (small, rest) = elim (Bool-cases (m.info.id == id)) [
  | inl here ↦
      rw (capture, here)
        (
          refl,
          inl (
            record { width = m.info.width_px; height = m.info.height_px; data_bytes = render m },
            ap as_captured (
                new_frame_whole
                  (record {
                    width = m.info.width_px;
                    height = m.info.height_px;
                    data_bytes = render m;
                  })
                  (render-IsWhole m small)),
            render-IsWhole m small,
          ),
        )
  | inr other ↦
      let (same, found) = capture-IsWhole ms id rest in
      let past = capture_other m ms id other in
      (
        ap (λ r. monitors (r.0)) past ∙ ap (map_ok (info_of m)) same,
        subst (λ r. Captured id (m ∷ ms) (r.1)) (sym past)
            (other_one id m ms (capture ms id).1 other found),
      )
]
