-- ===== src/Codec/Video.antt =====
-- crates/codec/src/lib.rs and crates/codec/src/h264.rs: the choice of codec, and OpenH264's encoder
-- and decoder, which are parameters, with their errors as texts. `feature` is the build's `h264`.
use controlis.Prelude.{
  ◌≢◌, ◌≡◌, ℕ, zero, suc, ◌+◌, ◌*◌, ◌-◌, ◌%◌, ◌^◌, Bool, true, false, not, ◌&&◌, ◌||◌, Option, none,
  some, List, [], ◌∷◌, ◌++◌, if◌then◌else◌, Result, ok, err, ◌==◌, nat_eq,
}
use controlis.Protocol.Message.{VideoCodec, raw_rgba, jpeg_tiles, h264, full, MediaMessage}
use controlis.Codec.{CodecError, h264_failed, unsupported_codec, RgbaFrame, black, slice}
use controlis.Codec.Jpeg.{Jpeg}
use controlis.Codec.Encode
use controlis.Codec.Decode

abbrev pub supported_codecs : Bool → List VideoCodec
supported_codecs true = h264 ∷ jpeg_tiles ∷ raw_rgba ∷ []
supported_codecs false = jpeg_tiles ∷ raw_rgba ∷ []

abbrev pub preferred_codec : Bool → VideoCodec
preferred_codec true = h264
preferred_codec false = jpeg_tiles

pub record OpenH264 : Type 1 where
  pub Encoder : Type 0
  pub Decoder : Type 0
  pub Yuv : Type 0
  pub open_encoder : ℕ → Result Encoder (List ℕ)
  pub force_intra_frame : Encoder → Encoder
  pub compress : Encoder → List ℕ → ℕ → ℕ → Encoder × Result (List ℕ) (List ℕ)
  pub open_decoder : Result Decoder (List ℕ)
  pub expand : Decoder → List ℕ → Decoder × Result (Option Yuv) (List ℕ)
  pub dimensions : Yuv → ℕ × ℕ
  pub write_rgba8 : Yuv → List ℕ → List ℕ

-- What OpenH264 promises of pictures that stand alone: the first one of an encoder does, and so does
-- the next one after `force_intra_frame`; a frame that the rate control skips, with an empty
-- bitstream, leaves that to the next.
pub record Intra (o : OpenH264) : Type 0 where
  pub awaits : o.Encoder → Bool
  pub stands_alone : List ℕ → Bool
  pub awaits-open_encoder : (fps : ℕ) (e : o.Encoder) → o.open_encoder fps ≡ ok e → awaits e ≡ true
  pub awaits-force_intra_frame : (e : o.Encoder) → awaits (o.force_intra_frame e) ≡ true
  pub compress-skipped :
      (e : o.Encoder) (pixels : List ℕ) (w h : ℕ)
      → awaits e ≡ true
      → (o.compress e pixels w h).1 ≡ ok []
      → awaits (o.compress e pixels w h).0 ≡ true
  pub compress-alone :
      (e : o.Encoder) (pixels : List ℕ) (w h : ℕ) (payload : List ℕ)
      → awaits e ≡ true
      → (o.compress e pixels w h).1 ≡ ok payload
      → payload ≢ []
      → stands_alone payload ≡ true

-- `n & !1`
abbrev pub even_below : ℕ → ℕ
even_below n = n - n % 2

-- The loop of `crop`, with the rows that are left and the next one.
unfoldable pub crop_rows : RgbaFrame → ℕ → ℕ → ℕ → Option (List ℕ)
crop_rows frame width zero row = some []
crop_rows frame width (suc left) row =
    elim (slice frame.data_bytes (row * (frame.width * 4)) (width * 4)) [
      | none ↦ none
      | some bytes ↦ elim (crop_rows frame width left (row + 1)) [
        | none ↦ none
        | some out ↦ some (bytes ++ out)
      ]
    ]

unfoldable pub crop : RgbaFrame → ℕ → ℕ → Option (List ℕ)
unfolding crop_rows
crop frame width height = crop_rows frame width height 0

-- The pixels that the encoder is given.
abbrev pub even_pixels : RgbaFrame → Option (List ℕ)
even_pixels frame =
    let width = even_below frame.width in
    let height = even_below frame.height in
    elim (width == frame.width && height == frame.height) [
      | true ↦ some frame.data_bytes
      | false ↦ crop frame width height
    ]

module _ (o : OpenH264) where
  abbrev pub opened : {A : Type 0} → Result A (List ℕ) → Result A CodecError
  opened (ok e) = ok e
  opened (err e) = err (h264_failed e)

  abbrev pub h264_encoder : ℕ → Result (o.Encoder) CodecError
  h264_encoder max_fps = opened (o.open_encoder max_fps)

  abbrev pub h264_message :
      ℕ → ℕ → RgbaFrame → Result (List ℕ) (List ℕ) → Result (Option MediaMessage) CodecError
  h264_message monitor_id frame_id frame (err e) = err (h264_failed e)
  h264_message monitor_id frame_id frame (ok []) = ok none
  h264_message monitor_id frame_id frame (ok (b ∷ bs)) = ok (
      some (record {
        monitor_id = monitor_id;
        frame_id = frame_id;
        codec = h264;
        encoding = full;
        width_px = even_below frame.width;
        height_px = even_below frame.height;
        tiles = [];
        payload = b ∷ bs;
      }))

  -- `H264Encoder::encode`
  unfoldable pub h264_encode :
      o.Encoder → ℕ → ℕ → RgbaFrame → Option (o.Encoder × Result (Option MediaMessage) CodecError)
  h264_encode e monitor_id frame_id frame = elim (even_pixels frame) [
    | none ↦ none
    | some data_bytes ↦
        let out = o.compress e data_bytes (even_below frame.width) (even_below frame.height) in
        some (out.0, h264_message monitor_id frame_id frame (out.1))
  ]

  pub record H264Decoder : Type 0 where
    pub decoder : o.Decoder
    pub canvas : Option RgbaFrame

  abbrev or_black : Option RgbaFrame → RgbaFrame
  or_black none = black 0 0
  or_black (some canvas) = canvas

  abbrev fitting : RgbaFrame → ℕ → ℕ → RgbaFrame
  fitting canvas width height =
      if not (canvas.width == width) || not (canvas.height == height)
      then black (width % 2 ^ 32) (height % 2 ^ 32)
      else canvas

  abbrev pictured :
      o.Decoder
      → Option RgbaFrame
      → Result (Option (o.Yuv)) (List ℕ)
      → H264Decoder × Result (Option RgbaFrame) CodecError
  pictured d canvas (err e) = (record { decoder = d; canvas = canvas }, err (h264_failed e))
  pictured d canvas (ok none) = (record { decoder = d; canvas = canvas }, ok none)
  pictured d canvas (ok (some yuv)) =
      let size = o.dimensions yuv in
      let base = fitting (or_black canvas) (size.0) (size.1) in
      let frame = record base { data_bytes = o.write_rgba8 yuv (base.data_bytes) } in
      (record { decoder = d; canvas = some frame }, ok (some frame))

  -- `H264Decoder::decode`
  unfoldable pub h264_decode :
      H264Decoder → List ℕ → H264Decoder × Result (Option RgbaFrame) CodecError
  h264_decode d payload = let out = o.expand d.decoder payload in pictured (out.0) d.canvas (out.1)

  pub data VideoEncoder : Type 0 where
    tiles_encoder : Encode.TileEncoder → VideoEncoder
    h264_encoding : o.Encoder → VideoEncoder

  abbrev pub wrapped : Result (o.Encoder) CodecError → Result VideoEncoder CodecError
  wrapped (ok e) = ok (h264_encoding e)
  wrapped (err e) = err e

  -- `VideoEncoder::new`
  abbrev pub new_encoder : Bool → VideoCodec → ℕ → Result VideoEncoder CodecError
  new_encoder true h264 max_fps = wrapped (h264_encoder max_fps)
  new_encoder false h264 max_fps = err (unsupported_codec h264)
  new_encoder feature raw_rgba max_fps = ok (tiles_encoder (Encode.new raw_rgba))
  new_encoder feature jpeg_tiles max_fps = ok (tiles_encoder (Encode.new jpeg_tiles))

  abbrev pub force_keyframe : VideoEncoder → VideoEncoder
  force_keyframe (tiles_encoder e) = tiles_encoder (Encode.force_keyframe e)
  force_keyframe (h264_encoding e) = h264_encoding (o.force_intra_frame e)

  abbrev pub Encoded : Type 0
  Encoded = Option (VideoEncoder × Result (Option MediaMessage) CodecError)

  abbrev pub always_sent : Result MediaMessage CodecError → Result (Option MediaMessage) CodecError
  always_sent (ok m) = ok (some m)
  always_sent (err e) = err e

  abbrev pub from_tiles : Option (Encode.TileEncoder × Result MediaMessage CodecError) → Encoded
  from_tiles none = none
  from_tiles (some (e, r)) = some (tiles_encoder e, always_sent r)

  abbrev pub from_h264 : Option (o.Encoder × Result (Option MediaMessage) CodecError) → Encoded
  from_h264 none = none
  from_h264 (some (e, r)) = some (h264_encoding e, r)

  pub record VideoDecoder : Type 0 where
    pub tiles : Option Decode.TileDecoder
    pub h264 : Option H264Decoder

  abbrev pub new_decoder : VideoDecoder
  new_decoder = record { tiles = none; h264 = none }

  abbrev Shown : Type 0
  Shown = Option (VideoDecoder × Result (Option RgbaFrame) CodecError)

  abbrev with_tiles : VideoDecoder → Option Decode.Decoded → Shown
  with_tiles d none = none
  with_tiles d (some (t, ok frame)) = some (record d { tiles = some t }, ok (some frame))
  with_tiles d (some (t, err e)) = some (record d { tiles = some t }, err e)

  abbrev or_new : Option Decode.TileDecoder → Decode.TileDecoder
  or_new none = Decode.new
  or_new (some t) = t

  -- The decoder for H.264 that there is, or a new one.
  abbrev get_h264 : Option H264Decoder → Result H264Decoder CodecError
  get_h264 (some d) = ok d
  get_h264 none = fresh o.open_decoder
    where
      fresh : Result (o.Decoder) (List ℕ) → Result H264Decoder CodecError
      fresh (ok d) = ok (record { decoder = d; canvas = none })
      fresh (err e) = err (h264_failed e)

  abbrev with_h264 : VideoDecoder → List ℕ → Result H264Decoder CodecError → Shown
  with_h264 d payload (err e) = some (d, err e)
  with_h264 d payload (ok h) =
      let out = h264_decode h payload in some (record d { h264 = some (out.0) }, out.1)

  module _ (j : Jpeg) where
    -- `VideoEncoder::encode`
    unfoldable pub video_encode : VideoEncoder → ℕ → ℕ → RgbaFrame → Encoded
    video_encode (tiles_encoder e) monitor_id frame_id frame =
        from_tiles (Encode.encode j e monitor_id frame_id frame)
    video_encode (h264_encoding e) monitor_id frame_id frame =
        from_h264 (h264_encode e monitor_id frame_id frame)

    abbrev decode_by : Bool → VideoCodec → VideoDecoder → MediaMessage → Shown
    decode_by true h264 d m = with_h264 d m.payload (get_h264 d.h264)
    decode_by false h264 d m = some (d, err (unsupported_codec h264))
    decode_by feature raw_rgba d m = with_tiles d (Decode.decode j (or_new d.tiles) m)
    decode_by feature jpeg_tiles d m = with_tiles d (Decode.decode j (or_new d.tiles) m)

    -- `VideoDecoder::decode`
    unfoldable pub video_decode : Bool → VideoDecoder → MediaMessage → Shown
    video_decode feature d m = decode_by feature m.codec d m
