-- ===== src/Session/Capture.antt =====
-- crates/session-host/src/session.rs: the capture thread, over the rounds of its loop.
use controlis.Prelude.{
  ℕ, ◌+◌, ◌%◌, ◌^◌, ◌≡◌, ◌≢◌, refl, ap, sym, ◌∙◌, ◌||◌, Bool, true, false, not, Option, none, some,
  List, [], ◌∷◌, if◌then◌else◌, Result, ok, err, ◌==◌, nat_eq, Bool-cases, inl, inr, nat_beq_iff,
  ◌⊎◌,
}
use controlis.Protocol.Message.{tile_delta, h264, raw_rgba, codec_eq, MediaMessage, TileRect}
use controlis.Codec.{RgbaFrame, CodecError, same_size, M}
use controlis.Codec.Jpeg.{Jpeg}
use controlis.Codec.Tiles.{tile_rects}
use controlis.Codec.Encode.{
  TileEncoder, message_for, remembering, encode_full, encode_delta, encode_tiles, full_payload,
  encode,
}
use controlis.Codec.Video.{
  OpenH264, Intra, even_below, VideoEncoder, tiles_encoder, h264_encoding, force_keyframe, Encoded,
  from_tiles, from_h264, h264_encode, h264_message, even_pixels, video_encode,
}

-- What `try_reserve` on the channel gives.
pub data Permit : Type 0 where
  reserved queue_full closed : Permit

-- One round: the stop flag, the monitor that is asked for, the channel, and what the capturer gives.
pub record Round : Type 0 where
  pub stop : Bool
  pub requested : ℕ
  pub permit : Permit
  pub captured : Option RgbaFrame

module _ (o : OpenH264) (j : Jpeg) where
  abbrev for_monitor : VideoEncoder o → ℕ → ℕ → VideoEncoder o
  for_monitor e current requested = if requested == current then e else force_keyframe o e

  -- After `encode`; the rounds to come take the encoder and the next frame's number.
  abbrev sent_on : (VideoEncoder o → ℕ → List MediaMessage) → ℕ → Encoded o → List MediaMessage
  sent_on later frame_id none = []
  sent_on later frame_id (some (e, err x)) = []
  sent_on later frame_id (some (e, ok none)) = later e frame_id
  sent_on later frame_id (some (e, ok (some m))) = m ∷ later e ((frame_id + 1) % 2 ^ 64)

  abbrev round :
      (VideoEncoder o → ℕ → List MediaMessage)
      → VideoEncoder o
      → ℕ
      → ℕ
      → Bool
      → Permit
      → Option RgbaFrame
      → List MediaMessage
  round later e monitor_id frame_id true permit captured = []
  round later e monitor_id frame_id false closed captured = []
  round later e monitor_id frame_id false queue_full captured = later e frame_id
  round later e monitor_id frame_id false reserved none = []
  round later e monitor_id frame_id false reserved (some frame) =
      sent_on later frame_id (video_encode o j e monitor_id frame_id frame)

  -- The messages that the thread sends.
  unfoldable pub capture_loop : VideoEncoder o → ℕ → ℕ → List Round → List MediaMessage
  unfolding video_encode
  capture_loop e current frame_id [] = []
  capture_loop e current frame_id (r ∷ rs) =
      round (λ e' n. capture_loop e' r.requested n rs) (for_monitor e current r.requested)
        r.requested frame_id r.stop r.permit r.captured

module _ (o : OpenH264) (j : Jpeg) (intra : Intra o) where
  -- The encoder's next message stands alone.
  abbrev pub Fresh : VideoEncoder o → Type 0
  Fresh (tiles_encoder e) = e.previous ≡ none
  Fresh (h264_encoding e) = intra.awaits e ≡ true

  -- A delta, or a picture of H.264 that is decoded from the ones before.
  abbrev pub Depends : MediaMessage → Type 0
  Depends m =
      (m.encoding ≡ tile_delta) ⊎ ((m.codec ≡ h264) × (intra.stands_alone m.payload ≡ false))

  -- The frames are numbered from this one, and a message that depends on the ones before follows one
  -- of the same monitor.
  abbrev pub Linked : Option ℕ → ℕ → List MediaMessage → Type 0
  Linked last frame_id [] = Unit
  Linked last frame_id (m ∷ ms) =
      (m.frame_id ≡ frame_id)
      × (Depends m → last ≡ some m.monitor_id)
      × Linked (some m.monitor_id) ((frame_id + 1) % 2 ^ 64) ms

  -- What is known of one encoded frame.
  abbrev Good : VideoEncoder o → ℕ → ℕ → Encoded o → Type 0
  Good e monitor_id frame_id none = Unit
  Good e monitor_id frame_id (some (e', err x)) = Unit
  Good e monitor_id frame_id (some (e', ok none)) = Fresh e → Fresh e'
  Good e monitor_id frame_id (some (e', ok (some m))) =
      (m.frame_id ≡ frame_id) × (m.monitor_id ≡ monitor_id) × (Depends m → Fresh e → ⊥)

  abbrev Sound : Option RgbaFrame → ℕ → ℕ → M MediaMessage → Type 0
  Sound p monitor_id frame_id none = Unit
  Sound p monitor_id frame_id (some (err x)) = Unit
  Sound p monitor_id frame_id (some (ok m)) =
      (m.frame_id ≡ frame_id) × (m.monitor_id ≡ monitor_id) × (Depends m → p ≢ none)

  err_ok : (f : RgbaFrame) (payload : List ℕ) → full_payload j h264 f ≡ ok payload → ⊥
  err_ok f payload e = absurd (cc)

  bind_full :
      (e : TileEncoder) (p : Option RgbaFrame) (monitor_id frame_id : ℕ) (f : RgbaFrame)
      (r : Result (List ℕ) CodecError)
      → full_payload j e.codec f ≡ r
      → Sound p monitor_id frame_id (encode_full j e monitor_id frame_id f)
  unfolding encode_full
  bind_full e p monitor_id frame_id f (ok payload) h =
      rw (encode_full, h)
        (
          refl,
          refl,
          λ depends. elim depends [
            | inl delta ↦ absurd (cc (delta))
            | inr (coded, alone) ↦
                absurd (err_ok f payload (ap (λ c. full_payload j c f) (sym coded) ∙ h))
          ],
        )
  bind_full e p monitor_id frame_id f (err x) h = rw (encode_full, h) tt

  bind_delta :
      (e : TileEncoder) (p : RgbaFrame) (monitor_id frame_id : ℕ) (f : RgbaFrame)
      (r : M (List TileRect × List ℕ))
      → encode_tiles j p f (tile_rects f.width f.height) ≡ r
      → Sound (some p) monitor_id frame_id (encode_delta j e p monitor_id frame_id f)
  unfolding encode_delta
  bind_delta e p monitor_id frame_id f none h = rw (encode_delta, h) tt
  bind_delta e p monitor_id frame_id f (some (err x)) h = rw (encode_delta, h) tt
  bind_delta e p monitor_id frame_id f (some (ok sent)) h =
      rw (encode_delta, h) (refl, refl, λ depends empty. absurd (cc (empty)))

  either_Sound :
      (b : Bool) (p : Option RgbaFrame) (monitor_id frame_id : ℕ) (x y : M MediaMessage)
      → Sound p monitor_id frame_id x
      → Sound p monitor_id frame_id y
      → Sound p monitor_id frame_id (elim b [ true ↦ x | false ↦ y ])
  either_Sound true p monitor_id frame_id x y one other = one
  either_Sound false p monitor_id frame_id x y one other = other

  message-Sound :
      (e : TileEncoder) (p : Option RgbaFrame) (monitor_id frame_id : ℕ) (f : RgbaFrame)
      → Sound p monitor_id frame_id (message_for j e p monitor_id frame_id f)
  message-Sound e none monitor_id frame_id f =
      bind_full e none monitor_id frame_id f (full_payload j e.codec f) refl
  message-Sound e (some p) monitor_id frame_id f =
      either_Sound (not (same_size p f) || codec_eq e.codec raw_rgba) (some p) monitor_id frame_id
        (encode_full j e monitor_id frame_id f) (encode_delta j e p monitor_id frame_id f)
        (bind_full e (some p) monitor_id frame_id f (full_payload j e.codec f) refl)
        (bind_delta e p monitor_id frame_id f (encode_tiles j p f (tile_rects f.width f.height))
          refl)

  remembering-Good :
      (e : TileEncoder) (monitor_id frame_id : ℕ) (f : RgbaFrame) (x : M MediaMessage)
      → Sound e.previous monitor_id frame_id x
      → Good (tiles_encoder e) monitor_id frame_id (from_tiles o (remembering j e f x))
  remembering-Good e monitor_id frame_id f none sound = tt
  remembering-Good e monitor_id frame_id f (some (err x)) sound = tt
  remembering-Good e monitor_id frame_id f (some (ok m)) sound = sound

  tiles-Good :
      (e : TileEncoder) (monitor_id frame_id : ℕ) (f : RgbaFrame)
      → Good (tiles_encoder e) monitor_id frame_id (from_tiles o (encode j e monitor_id frame_id f))
  unfolding encode
  tiles-Good e monitor_id frame_id f =
      remembering-Good e monitor_id frame_id f (message_for j e e.previous monitor_id frame_id f)
        (message-Sound e e.previous monitor_id frame_id f)

  sent-Good :
      (e : o.Encoder) (monitor_id frame_id : ℕ) (f : RgbaFrame) (pixels : List ℕ) (w h : ℕ)
      (r : Result (List ℕ) (List ℕ))
      → (o.compress e pixels w h).1 ≡ r
      → Good
          (h264_encoding e)
          monitor_id
          frame_id
          (from_h264 o (some ((o.compress e pixels w h).0, h264_message o monitor_id frame_id f r)))
  sent-Good e monitor_id frame_id f pixels w h (err x) made = tt
  sent-Good e monitor_id frame_id f pixels w h (ok []) made =
      λ fresh. intra.compress-skipped e pixels w h fresh made
  sent-Good e monitor_id frame_id f pixels w h (ok (b ∷ bs)) made = (
    refl,
    refl,
    λ depends fresh. elim depends [
      | inl delta ↦ absurd (cc (delta))
      | inr (coded, alone) ↦
          absurd (cc (alone, intra.compress-alone e pixels w h (b ∷ bs) fresh made (λ e. cc)))
    ],
  )

  h264-Good :
      (e : o.Encoder) (monitor_id frame_id : ℕ) (f : RgbaFrame) (pixels : Option (List ℕ))
      → even_pixels f ≡ pixels
      → Good
          (h264_encoding e)
          monitor_id
          frame_id
          (from_h264 o (h264_encode o e monitor_id frame_id f))
  unfolding h264_encode
  h264-Good e monitor_id frame_id f none h = rw (h264_encode, h) tt
  h264-Good e monitor_id frame_id f (some pixels) h =
      rw (h264_encode, h)
        (sent-Good e monitor_id frame_id f pixels (even_below f.width) (even_below f.height)
          (o.compress e pixels (even_below f.width) (even_below f.height)).1 refl)

  encode-Good :
      (e : VideoEncoder o) (monitor_id frame_id : ℕ) (f : RgbaFrame)
      → Good e monitor_id frame_id (video_encode o j e monitor_id frame_id f)
  unfolding video_encode
  encode-Good (tiles_encoder e) monitor_id frame_id f = tiles-Good e monitor_id frame_id f
  encode-Good (h264_encoding e) monitor_id frame_id f =
      h264-Good e monitor_id frame_id f (even_pixels f) refl

  force_keyframe-Fresh : (e : VideoEncoder o) → Fresh (force_keyframe o e)
  force_keyframe-Fresh (tiles_encoder e) = refl
  force_keyframe-Fresh (h264_encoding e) = intra.awaits-force_intra_frame e

  -- The last message is of this monitor, unless the encoder's next one stands alone.
  abbrev pub Follows : Option ℕ → ℕ → VideoEncoder o → Type 0
  Follows last current e = (Fresh e → ⊥) → last ≡ some current

  for_monitor-Follows :
      (e : VideoEncoder o) (last : Option ℕ) (current requested : ℕ)
      → Follows last current e
      → Follows last requested (for_monitor o j e current requested)
  for_monitor-Follows e last current requested follows = elim (Bool-cases (requested == current)) [
    | inl h ↦ rw (h) (λ there. follows there ∙ ap some (sym ((nat_beq_iff requested current).0 h)))
    | inr h ↦ rw (h) (λ there. absurd (there (force_keyframe-Fresh e)))
  ]

  sent_on-Linked :
      (later : VideoEncoder o → ℕ → List MediaMessage)
      → (e : VideoEncoder o) (last : Option ℕ) (monitor_id frame_id : ℕ) (out : Encoded o)
      → Good e monitor_id frame_id out
      → Follows last monitor_id e
      → ((e' : VideoEncoder o) (last' : Option ℕ) (n : ℕ)
          → Follows last' monitor_id e'
          → Linked last' n (later e' n))
      → Linked last frame_id (sent_on o j later frame_id out)
  sent_on-Linked later e last monitor_id frame_id none good follows each = tt
  sent_on-Linked later e last monitor_id frame_id (some (e', err x)) good follows each = tt
  sent_on-Linked later e last monitor_id frame_id (some (e', ok none)) good follows each =
      each e' last frame_id (λ stale. follows (λ fresh. stale (good fresh)))
  sent_on-Linked later e last monitor_id frame_id (some (e', ok (some m))) (number, monitor, delta)
        follows each =
      (
        number,
        λ h. follows (delta h) ∙ ap some (sym monitor),
        each e' (some m.monitor_id) ((frame_id + 1) % 2 ^ 64) (λ there. ap some monitor),
      )

  round-Linked :
      (later : VideoEncoder o → ℕ → List MediaMessage)
      → (e : VideoEncoder o) (last : Option ℕ) (monitor_id frame_id : ℕ) (halt : Bool)
        (permit : Permit) (captured : Option RgbaFrame)
      → Follows last monitor_id e
      → ((e' : VideoEncoder o) (last' : Option ℕ) (n : ℕ)
          → Follows last' monitor_id e'
          → Linked last' n (later e' n))
      → Linked last frame_id (round o j later e monitor_id frame_id halt permit captured)
  round-Linked later e last monitor_id frame_id true permit captured follows each = tt
  round-Linked later e last monitor_id frame_id false closed captured follows each = tt
  round-Linked later e last monitor_id frame_id false queue_full captured follows each =
      each e last frame_id follows
  round-Linked later e last monitor_id frame_id false reserved none follows each = tt
  round-Linked later e last monitor_id frame_id false reserved (some frame) follows each =
      sent_on-Linked later e last monitor_id frame_id (video_encode o j e monitor_id frame_id frame)
        (encode-Good e monitor_id frame_id frame) follows each

  -- The messages of the capture thread are numbered one by one, and one that depends on those before
  -- only ever follows one of the same monitor, whatever the viewer selects and when, if it is so at
  -- the start.
  pub capture_loop-Linked :
      (e : VideoEncoder o) (last : Option ℕ) (current frame_id : ℕ) (rounds : List Round)
      → Follows last current e
      → Linked last frame_id (capture_loop o j e current frame_id rounds)
  unfolding capture_loop
  capture_loop-Linked e last current frame_id [] follows = tt
  capture_loop-Linked e last current frame_id (r ∷ rs) follows =
      round-Linked (λ e' n. capture_loop o j e' r.requested n rs)
        (for_monitor o j e current r.requested) last r.requested frame_id r.stop r.permit r.captured
        (for_monitor-Follows e last current r.requested follows)
        (λ e' last' n each. capture_loop-Linked e' last' r.requested n rs each)
