-- ===== src/Session/Stream.antt =====
-- crates/session-host/src/session.rs: `stream_and_control`, over what the factories give, the rounds
-- of the capture thread and the turns of the control loop. The lines of the log on the rate of the
-- media are left out.
use controlis.Prelude.{
  ◌∙◌, ℕ, ◌≡◌, refl, ap, sym, subst, Bool, true, false, Option, none, some, List, [], ◌∷◌, ◌++◌,
  codes, Result, ok, err, ◌>>=◌, ◌>>◌, inl, inr, Bool-cases,
}
use controlis.Protocol.Message.{
  ℤ, VideoCodec, raw_rgba, jpeg_tiles, h264, MonitorInfo, ControlMessage, monitor_list,
  MediaMessage, negotiate_codec,
}
use controlis.Codec.{CodecError}
use controlis.Codec.Jpeg.{Jpeg}
use controlis.Codec.Encode
use controlis.Codec.Video.{
  OpenH264, Intra, opened, VideoEncoder, tiles_encoder, h264_encoding, h264_encoder, wrapped,
  new_encoder, supported_codecs,
}
use controlis.Input.Coords.{Floats}
use controlis.Session.{HostEvent, session_started, session_ended, log, failed}
use controlis.Session.Injection.{InputAction}
use controlis.Session.Capture.{Round, capture_loop, Linked, Fresh, capture_loop-Linked}
use controlis.Session.Control.{Turn, Control, OneOf, Agreed, control_loop, control_loop-Agreed}

-- What the machine gives: the capturer, its monitors, and the texts of errors.
pub record Machine : Type 0 where
  pub capturer : Option (List ℕ)
  pub monitors : Result (List MonitorInfo) (List ℕ)
  pub codec_error_text : CodecError → List ℕ
  pub codec_text : VideoCodec → List ℕ

unfoldable pub find_primary : List MonitorInfo → Option MonitorInfo
find_primary [] = none
find_primary (m ∷ ms) = elim m.is_primary [ true ↦ some m | false ↦ find_primary ms ]

abbrev or_first : Option MonitorInfo → MonitorInfo → MonitorInfo
or_first (some m) first = m
or_first none first = first

-- What is ready when the stream starts.
pub record Prepared (o : OpenH264) : Type 0 where
  pub encoder : VideoEncoder o
  pub monitors : List MonitorInfo
  pub active : MonitorInfo

-- An event for the user, and the reason with which the connection is closed.
abbrev pub Refused : Type 0
Refused = HostEvent × List ℕ

module _ (o : OpenH264) (feature : Bool) (machine : Machine) where
  abbrev encoder_or : Result (VideoEncoder o) CodecError → Result (VideoEncoder o) Refused
  encoder_or (ok e) = ok e
  encoder_or (err x) = err (
    failed (codes "codec unavailable: " ++ machine.codec_error_text x),
    codes "codec unavailable",
  )

  abbrev capturer_or : Option (List ℕ) → Result (Unit {0}) Refused
  capturer_or none = ok tt
  capturer_or (some e) =
      err (failed (codes "capture unavailable: " ++ e), codes "capture unavailable")

  abbrev with_monitors :
      VideoEncoder o → Result (List MonitorInfo) (List ℕ) → Result (Prepared o) Refused
  with_monitors e (err x) = err (failed (codes "no monitors to capture"), codes "no monitors")
  with_monitors e (ok []) = err (failed (codes "no monitors to capture"), codes "no monitors")
  with_monitors e (ok (m ∷ ms)) =
      ok (record { encoder = e; monitors = m ∷ ms; active = or_first (find_primary (m ∷ ms)) m })

  unfoldable pub prepare : VideoCodec → ℕ → Result (Prepared o) Refused
  unfolding find_primary
  prepare codec target_fps = do
    encoder ← encoder_or (new_encoder o feature codec target_fps)
    capturer_or machine.capturer
    with_monitors encoder machine.monitors

  module _ {F : Type 0} (j : Jpeg) (floats : Floats F) (rounded : F → ℤ) where
    -- What the session has done: the events, the messages of both streams, what the injector was
    -- given, and the reason with which the connection is closed.
    pub record Streamed : Type 0 where
      pub events : List HostEvent
      pub sent : List (ControlMessage F)
      pub inputs : List InputAction
      pub media : List MediaMessage
      pub closed : Option (List ℕ)

    abbrev pub start : Prepared o → Control F
    start p = record {
      active = p.active;
      active_id = p.active.id;
      sent = monitor_list p.monitors ∷ [];
      inputs = [];
    }

    abbrev ending : Option (List ℕ) → List HostEvent
    ending none = []
    ending (some reason) = session_ended reason ∷ []

    abbrev streamed :
        List ℕ → VideoCodec → Prepared o → List Round → Control F × Option (List ℕ) → Streamed
    streamed peer codec p rounds (c, reason) = record {
      events =
          log (codes "negotiated codec: " ++ machine.codec_text codec)
          ∷ session_started peer
          ∷ ending reason;
      sent = c.sent;
      inputs = c.inputs;
      media = capture_loop o j p.encoder p.active.id 0 rounds;
      closed = reason;
    }

    -- The line on the codec stands before the errors of the capturer and of the monitors.
    abbrev codec_line : VideoCodec → Result (VideoEncoder o) CodecError → List HostEvent
    codec_line codec (err x) = []
    codec_line codec (ok e) = log (codes "negotiated codec: " ++ machine.codec_text codec) ∷ []

    abbrev run_with :
        List ℕ
        → VideoCodec
        → ℕ
        → List Round
        → List (Turn F)
        → Result (Prepared o) Refused
        → Streamed
    run_with peer codec target_fps rounds turns (err (event, reason)) = record {
      events = codec_line codec (new_encoder o feature codec target_fps) ++ (event ∷ []);
      sent = [];
      inputs = [];
      media = [];
      closed = some reason;
    }
    run_with peer codec target_fps rounds turns (ok p) =
        streamed peer codec p rounds (control_loop floats rounded p.monitors (start p) turns)

    abbrev chosen : VideoCodec → List VideoCodec → VideoCodec
    chosen preferred viewer_codecs =
        negotiate_codec preferred (supported_codecs feature) viewer_codecs

    unfoldable pub stream_and_control :
        List ℕ → VideoCodec → ℕ → List VideoCodec → List Round → List (Turn F) → Streamed
    unfolding prepare capture_loop control_loop
    stream_and_control peer preferred target_fps viewer_codecs rounds turns =
        run_with peer (chosen preferred viewer_codecs) target_fps rounds turns
          (prepare (chosen preferred viewer_codecs) target_fps)

    module _ (intra : Intra o) where
      find_primary-OneOf :
          (all ms : List MonitorInfo) (m : MonitorInfo)
          → find_primary ms ≡ some m
          → OneOf floats rounded all m ms
      unfolding find_primary
      find_primary-OneOf all [] m e = absurd (cc)
      find_primary-OneOf all (x ∷ ms) m e = elim (Bool-cases x.is_primary) [
        | inl here ↦ inl (the_one (rw here at e))
        | inr other ↦ inr (find_primary-OneOf all ms m (rw other at e))
      ]
        where
          the_one : some x ≡ some m → x ≡ m
          the_one e = cc

      or_first-OneOf :
          (first : MonitorInfo) (ms : List MonitorInfo) (found : Option MonitorInfo)
          → find_primary (first ∷ ms) ≡ found
          → OneOf floats rounded (first ∷ ms) (or_first found first) (first ∷ ms)
      or_first-OneOf first ms none e = inl refl
      or_first-OneOf first ms (some m) e = find_primary-OneOf (first ∷ ms) (first ∷ ms) m e

      opened-Fresh :
          (fps : ℕ) (e : o.Encoder) (r : Result (o.Encoder) (List ℕ))
          → o.open_encoder fps ≡ r
          → wrapped o (opened o r) ≡ ok (h264_encoding e)
          → intra.awaits e ≡ true
      opened-Fresh fps e (err x) made wraps = absurd (cc)
      opened-Fresh fps e (ok x) made wraps = intra.awaits-open_encoder fps e (made ∙ cc (wraps))

      never_tiles :
          (t : Encode.TileEncoder) (r : Result (o.Encoder) CodecError)
          → wrapped o r ≡ ok (tiles_encoder t)
          → ⊥
      never_tiles t (ok x) same = cc
      never_tiles t (err x) same = cc

      new_encoder-Fresh :
          (codec : VideoCodec) (target_fps : ℕ) (on : Bool) (e : VideoEncoder o)
          → new_encoder o on codec target_fps ≡ ok e
          → Fresh o j intra e
      new_encoder-Fresh h264 target_fps true (h264_encoding e) made =
          opened-Fresh target_fps e (o.open_encoder target_fps) refl made
      new_encoder-Fresh h264 target_fps true (tiles_encoder e) made =
          absurd (never_tiles e (h264_encoder o target_fps) made)
      new_encoder-Fresh h264 target_fps false e made = absurd (cc)
      new_encoder-Fresh raw_rgba target_fps on (tiles_encoder e) made =
          let same : Encode.new raw_rgba ≡ e = cc in
          ap (λ (t : Encode.TileEncoder). t.previous) (sym same)
      new_encoder-Fresh jpeg_tiles target_fps on (tiles_encoder e) made =
          let same : Encode.new jpeg_tiles ≡ e = cc in
          ap (λ (t : Encode.TileEncoder). t.previous) (sym same)
      new_encoder-Fresh raw_rgba target_fps on (h264_encoding e) made = absurd (cc)
      new_encoder-Fresh jpeg_tiles target_fps on (h264_encoding e) made = absurd (cc)

      -- The monitor that the stream starts with is one of those announced, and its encoder has sent
      -- nothing yet.
      abbrev Starts : Prepared o → Type 0
      Starts p = OneOf floats rounded p.monitors p.active p.monitors × (Fresh o j intra p.encoder)

      with_all :
          (r : Result (VideoEncoder o) CodecError) (fault : Option (List ℕ))
          (found : Result (List MonitorInfo) (List ℕ)) (p : Prepared o)
          → ((e : VideoEncoder o) → r ≡ ok e → Fresh o j intra e)
          → (encoder_or r >>= (λ e. capturer_or fault >> with_monitors e found)) ≡ ok p
          → Starts p
      with_all (err x) fault found p fresh e = absurd (cc)
      with_all (ok enc) (some x) found p fresh e = absurd (cc)
      with_all (ok enc) none (err x) p fresh e = absurd (cc)
      with_all (ok enc) none (ok []) p fresh e = absurd (cc)
      with_all (ok enc) none (ok (m ∷ ms)) p fresh e =
          let same : record {
            encoder = enc;
            monitors = m ∷ ms;
            active = or_first (find_primary (m ∷ ms)) m;
          }
              ≡ p =
            cc in
          subst Starts same (or_first-OneOf m ms (find_primary (m ∷ ms)) refl, fresh enc refl)

      prepare-Starts :
          (codec : VideoCodec) (target_fps : ℕ) (p : Prepared o)
          → prepare codec target_fps ≡ ok p
          → Starts p
      unfolding prepare
      prepare-Starts codec target_fps p e =
          with_all (new_encoder o feature codec target_fps) machine.capturer machine.monitors p
            (λ enc made. new_encoder-Fresh codec target_fps feature enc made) e

      media-Linked :
          (peer : List ℕ) (codec : VideoCodec) (target_fps : ℕ) (rounds : List Round)
          (turns : List (Turn F)) (r : Result (Prepared o) Refused)
          → prepare codec target_fps ≡ r
          → Linked o j intra none 0 (run_with peer codec target_fps rounds turns r).media
      media-Linked peer codec target_fps rounds turns (err x) e = tt
      media-Linked peer codec target_fps rounds turns (ok p) e =
          capture_loop-Linked o j intra p.encoder none p.active.id 0 rounds
            (λ there. absurd (there ((prepare-Starts codec target_fps p e).1)))

      -- Whatever is captured, selected, lost by the network and done by the viewer in a session, its
      -- media messages are numbered one by one from zero, modulo 2 ^ 64, and a tile delta, or a picture
      -- of H.264 that does not stand alone, only ever follows a message of the same monitor: neither
      -- the first message nor the first one of a monitor just selected is such, where OpenH264 keeps
      -- its promises on pictures that stand alone.
      pub stream_and_control-Linked :
          (peer : List ℕ) (preferred : VideoCodec) (target_fps : ℕ)
          (viewer_codecs : List VideoCodec) (rounds : List Round) (turns : List (Turn F))
          → Linked o j intra none 0
              (stream_and_control peer preferred target_fps viewer_codecs rounds turns).media
      unfolding stream_and_control
      stream_and_control-Linked peer preferred target_fps viewer_codecs rounds turns =
          media-Linked peer (chosen preferred viewer_codecs) target_fps rounds turns
            (prepare (chosen preferred viewer_codecs) target_fps) refl

      -- In a session that gets ready, the monitor by which pointers are placed is one that was
      -- announced, and it is the one whose id the capture thread reads.
      pub stream_and_control-Agreed :
          (codec : VideoCodec) (target_fps : ℕ) (p : Prepared o) (turns : List (Turn F))
          → prepare codec target_fps ≡ ok p
          → Agreed floats rounded p.monitors
              (control_loop floats rounded p.monitors (start p) turns).0
      stream_and_control-Agreed codec target_fps p turns e =
          control_loop-Agreed floats rounded p.monitors (start p) turns
            (record { announced = (prepare-Starts codec target_fps p e).0; followed = refl })
