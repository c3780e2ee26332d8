-- ===== src/Session/Viewer/Media.antt =====
-- crates/session-viewer/src/lib.rs: the task for the media stream. The frame slot is taken by no one
-- here, so its last value is what the task has put there.
use controlis.Prelude.{ℕ, Bool, Option, none, some, List, [], ◌∷◌, ◌++◌, codes, Result, ok, err}
use controlis.Protocol.Message.{MediaMessage}
use controlis.Codec.{RgbaFrame, CodecError}
use controlis.Codec.Jpeg.{Jpeg}
use controlis.Codec.Video.{OpenH264, VideoDecoder, video_decode}
use controlis.Session.Viewer.Tasks.{ViewerEvent, frame_ready, disconnected, failed}

-- The events and the slot; a panic ends the task with no event.
abbrev pub Outcome : Type 0
Outcome = List ViewerEvent × Option RgbaFrame

module _ (o : OpenH264) (j : Jpeg) (feature : Bool) (error_text : CodecError → List ℕ) where
  abbrev before_all : ViewerEvent → Outcome → Outcome
  before_all e (events, slot) = (e ∷ events, slot)

  abbrev decoded :
      (VideoDecoder o → Option RgbaFrame → Outcome)
      → Option RgbaFrame
      → Option (VideoDecoder o × Result (Option RgbaFrame) CodecError)
      → Outcome
  decoded later slot none = ([], slot)
  decoded later slot (some (d, ok (some f))) = before_all frame_ready (later d (some f))
  decoded later slot (some (d, ok none)) = later d slot
  decoded later slot (some (d, err e)) =
      before_all (failed (codes "decode failed: " ++ error_text e)) (later d slot)

  -- By what each `recv_media` gives: a message, or none for an error.
  unfoldable pub media_task :
      VideoDecoder o → Option RgbaFrame → List (Option MediaMessage) → Outcome
  unfolding video_decode
  media_task d slot [] = (disconnected (codes "stream ended") ∷ [], slot)
  media_task d slot (none ∷ rest) = (disconnected (codes "stream ended") ∷ [], slot)
  media_task d slot (some m ∷ rest) =
      decoded (λ d' s. media_task d' s rest) slot (video_decode o j feature d m)
