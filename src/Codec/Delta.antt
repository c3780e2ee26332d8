-- ===== src/Codec/Delta.antt =====
-- What the decoder makes of a delta (crates/codec): the changed tiles, painted onto its canvas.
use controlis.Prelude.{
  ℕ, ◌+◌, ◌*◌, ◌^◌, ◌<◌, ◌≤◌, ◌≡◌, refl, subst, sym, ap, ◌∙◌, inl, inr, Bool, true, false, not,
  some, List, [], ◌∷◌, ◌++◌, ok, All, nat_eq, str_beq, length, if◌then◌else◌, Bool-cases,
}
use controlis.Protocol.Message.{jpeg_tiles, TileRect}
use controlis.Codec.{RgbaFrame}
use controlis.Codec.Jpeg.{Jpeg}
use controlis.Codec.Tiles.{tile_size, tile_rects}
use controlis.Codec.Encode.{TileEncoder, tile_changed, tile_payload, encode_tiles}
use controlis.Codec.Decode.{TileDecoder, apply_tiles}
use controlis.Codec.Bounds.{IsFrame, IsInside, tile_rects-IsInside}
use controlis.Codec.Regions.{Apart, tile_bytes, extract_tile-in, tile_changed-in, length-tile_bytes}
use controlis.Codec.Blit.{blit-in}
use controlis.Codec.Spread.{Spread, All-map, All-zip, Apart-sym, tile_rects-Spread}
use controlis.Codec.RoundTrip.{send}
use controlis.Codec.Paint.{
  IsReliable, encode_tile, decode_tile, apply_tiles_step, encode_tiles_kept, encode_tiles_sent,
  send_tiles,
}

-- The tile of the next picture: the canvas's where the two frames have the same pixels in it, and
-- else the frame's, as JPEG shows them.
abbrev pub next_tile : Jpeg → RgbaFrame → RgbaFrame → RgbaFrame → TileRect → List ℕ
next_tile j p f canvas r =
    if str_beq (tile_bytes p r) (tile_bytes f r)
    then tile_bytes canvas r
    else j.seen (tile_bytes f r) r.w r.h

module _ (j : Jpeg) (width height : ℕ) (small : width * height * 4 < 2 ^ 64)
    (reliable : IsReliable j) (p f : RgbaFrame) (frame_p : IsFrame width height p)
    (frame_f : IsFrame width height f) where
  -- A canvas and what the decoder makes of it.
  abbrev Repainted : List TileRect → RgbaFrame → RgbaFrame → Type 0
  Repainted rs canvas c =
      IsFrame width height c
      × All (λ r. tile_bytes c r ≡ next_tile j p f canvas r) rs
      × ((q : TileRect)
          → IsInside width height q
          → All (λ r. Apart r q) rs
          → tile_bytes c q ≡ tile_bytes canvas q)

  -- These tiles are sent, and the decoder paints them.
  abbrev Painted : List TileRect → Type 0
  Painted rs =
      (sent : List TileRect) × (payload : List ℕ) × (encode_tiles j p f rs
        ≡ some (ok (sent, payload)))
      × ((canvas : RgbaFrame)
          → IsFrame width height canvas
          → (c : RgbaFrame) × (apply_tiles j canvas sent payload ≡ some (c, ok tt))
            × Repainted rs canvas c)

  same_tile :
      (canvas : RgbaFrame) (r : TileRect)
      → str_beq (tile_bytes p r) (tile_bytes f r) ≡ true
      → next_tile j p f canvas r ≡ tile_bytes canvas r
  same_tile canvas r e =
      ap (λ b. if b then tile_bytes canvas r else j.seen (tile_bytes f r) r.w r.h) e

  other_tile :
      (canvas : RgbaFrame) (r : TileRect)
      → str_beq (tile_bytes p r) (tile_bytes f r) ≡ false
      → next_tile j p f canvas r ≡ j.seen (tile_bytes f r) r.w r.h
  other_tile canvas r e =
      ap (λ b. if b then tile_bytes canvas r else j.seen (tile_bytes f r) r.w r.h) e

  changed :
      (r : TileRect) (b : Bool)
      → IsInside width height r
      → str_beq (tile_bytes p r) (tile_bytes f r) ≡ b
      → tile_changed p f r ≡ some (ok (not b))
  changed r b within e =
      tile_changed-in width height small p f r frame_p frame_f within
      ∙ ap (λ b. some (ok (not b))) e

  -- Nothing is sent of a tile that both frames have.
  Painted-same :
      (r : TileRect) (rs : List TileRect)
      → IsInside width height r
      → All (Apart r) rs
      → str_beq (tile_bytes p r) (tile_bytes f r) ≡ true
      → Painted rs
      → Painted (r ∷ rs)
  Painted-same r rs within apart e (sent, payload, encoded, rest) = (
    sent,
    payload,
    encode_tiles_kept j p f r rs (changed r true within e) ∙ encoded,
    λ canvas frame.
        let (c, applied, (done, shown, kept)) = rest canvas frame in
        (
          c,
          applied,
          (
            done,
            (
              kept r within (All-map rs (λ q other. Apart-sym r q other) apart)
                  ∙ sym (same_tile canvas r e),
              shown,
            ),
            λ q other (one, all). kept q other all,
          ),
        ),
  )

  Painted-sent :
      (r : TileRect) (rs : List TileRect)
      → IsInside width height r
      → All (IsInside width height) rs
      → All (Apart r) rs
      → str_beq (tile_bytes p r) (tile_bytes f r) ≡ false
      → Painted rs
      → Painted (r ∷ rs)
  Painted-sent r rs within more apart e (sent, payload, encoded, rest) =
      let pixels = tile_bytes f r in
      let extracted = extract_tile-in width height small f r frame_f within in
      let whole : length pixels ≡ r.h * (r.w * 4) =
        length-tile_bytes width height small f r frame_f within in
      let (jpeg, compressed, short) = reliable pixels r.w r.h within.2 within.3 whole in
      (
        r ∷ sent,
        tile_payload jpeg ++ payload,
        encode_tiles_sent j p f r rs sent pixels jpeg payload (changed r false within e) extracted
            (encode_tile j pixels r.w r.h jpeg within.2 within.3 compressed) encoded,
        λ canvas frame.
            let (painted, fits, next, here, others) =
              blit-in width height small canvas r (j.seen pixels r.w r.h) frame within
                (j.length-seen pixels r.w r.h whole ∙ whole) in
            let (c, applied, (done, shown, kept)) = rest painted next in
            (
              c,
              apply_tiles_step j canvas painted r sent jpeg (j.seen pixels r.w r.h) payload short
                    (decode_tile j pixels r.w r.h jpeg within.2 within.3 whole compressed) fits
                  ∙ applied,
              (
                done,
                (
                  kept r within (All-map rs (λ q other. Apart-sym r q other) apart)
                      ∙ here
                      ∙ sym (other_tile canvas r e),
                  All-zip {P = λ q. IsInside width height q × Apart r q} rs
                      (λ q (inside, away) now.
                        now
                        ∙ ap
                            (λ old.
                              if str_beq (tile_bytes p q) (tile_bytes f q)
                              then old
                              else j.seen (tile_bytes f q) q.w q.h)
                            (others q inside away))
                      (All-zip {P = IsInside width height} {Q = Apart r} rs
                        (λ q inside away. (inside, away)) more apart)
                      shown,
                ),
                λ q other (one, all). kept q other all ∙ others q other one,
              ),
            ),
      )

  Painted-All : (rs : List TileRect) → All (IsInside width height) rs → Spread rs → Painted rs
  unfolding encode_tiles apply_tiles
  Painted-All [] within spread =
      ([], [], refl, λ canvas frame. (canvas, refl, (frame, tt, λ q other all. refl)))
  Painted-All (r ∷ rs) (within, more) (apart, spread) =
      elim (Bool-cases (str_beq (tile_bytes p r) (tile_bytes f r))) [
        | inl e ↦ Painted-same r rs within apart e (Painted-All rs more spread)
        | inr e ↦ Painted-sent r rs within more apart e (Painted-All rs more spread)
      ]

  same_rects : IsFrame width height f → tile_rects width height ≡ tile_rects f.width f.height
  same_rects (wide, high, whole) = rw (wide, high) refl

  -- With a tile encoder at one frame and the decoder at any canvas of the same size, the next frame of
  -- the size is sent so that each tile of the picture that the viewer sees then is the canvas's, if the
  -- two frames have the same pixels in it, and else the frame's, as JPEG shows it: neither side panics
  -- or refuses. The frames are whole, with fewer than 2 ^ 64 bytes and sides that leave a tile's size
  -- of room in a u32, and JPEG takes every tile and keeps it below 2 ^ 32 bytes.
  pub send-delta :
      (e : TileEncoder) (d : TileDecoder) (canvas : RgbaFrame) (monitor_id frame_id : ℕ)
      → width + tile_size ≤ 2 ^ 32
      → height + tile_size ≤ 2 ^ 32
      → e.codec ≡ jpeg_tiles
      → e.previous ≡ some p
      → d.canvas ≡ some canvas
      → IsFrame width height canvas
      → (c : RgbaFrame) × (send j e d monitor_id frame_id f
          ≡ some (record e { previous = some f }, (record { canvas = some c }, ok c)))
        × IsFrame width height c
        × All (λ r. tile_bytes c r ≡ next_tile j p f canvas r) (tile_rects width height)
  send-delta e d canvas monitor_id frame_id wide high tiled sent_before shown_before frame =
      let (sent, payload, encoded, rest) =
        Painted-All (tile_rects width height) (tile_rects-IsInside width height)
          (tile_rects-Spread width height wide high) in
      let (c, applied, (done, shown, kept)) = rest canvas frame in
      (
        c,
        send_tiles j e d p f canvas c monitor_id frame_id sent payload tiled sent_before
            shown_before (frame_p.0 ∙ sym (frame_f.0), frame_p.1 ∙ sym (frame_f.1))
            (frame.0 ∙ sym (frame_f.0), frame.1 ∙ sym (frame_f.1))
            (subst (λ rs. encode_tiles j p f rs ≡ some (ok (sent, payload))) (same_rects frame_f)
              encoded)
            applied,
        done,
        shown,
      )
