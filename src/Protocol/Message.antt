-- ===== src/Protocol/Message.antt =====
-- crates/protocol/src/message.rs. An f32 is a value of the type parameter `F`, an i32 one of the
-- type `ℤ`; other integers are natural numbers.
pub mod Negotiate
use controlis.Prelude.{
  ℕ, Bool, true, false, ◌||◌, Option, none, some, List, [], ◌∷◌, if◌then◌else◌, ◌&&◌,
}

-- `negsuc n` is -(n + 1).
pub data ℤ : Type 0 where
  pos : ℕ → ℤ
  negsuc : ℕ → ℤ

pub data Role : Type 0 where
  host viewer : Role

pub data VideoCodec : Type 0 where
  raw_rgba jpeg_tiles h264 : VideoCodec

abbrev pub codec_eq : VideoCodec → VideoCodec → Bool
codec_eq raw_rgba raw_rgba = true
codec_eq jpeg_tiles jpeg_tiles = true
codec_eq h264 h264 = true
codec_eq _ _ = false

unfoldable pub contains : List VideoCodec → VideoCodec → Bool
contains [] c = false
contains (x ∷ xs) c = codec_eq x c || contains xs c

-- `iter().copied().find(|c| viewer_supported.contains(c))`
unfoldable pub find_supported : List VideoCodec → List VideoCodec → Option VideoCodec
unfolding contains
find_supported [] theirs = none
find_supported (c ∷ cs) theirs = if contains theirs c then some c else find_supported cs theirs

abbrev unwrap_or : Option VideoCodec → VideoCodec → VideoCodec
unwrap_or none d = d
unwrap_or (some c) d = c

unfoldable pub negotiate_codec : VideoCodec → List VideoCodec → List VideoCodec → VideoCodec
unfolding contains find_supported
negotiate_codec preferred host_supported viewer_supported =
    if contains host_supported preferred && contains viewer_supported preferred
    then preferred
    else unwrap_or (find_supported host_supported viewer_supported) jpeg_tiles

pub record Hello : Type 0 where
  pub protocol_version : ℕ
  pub app_version : List ℕ
  pub role : Role
  pub supported_codecs : List VideoCodec

pub data AuthOutcome : Type 0 where
  accepted : ℕ → AuthOutcome
  rejected : List ℕ → AuthOutcome
  pending_approval : AuthOutcome

pub record MonitorInfo : Type 0 where
  pub id : ℕ
  pub name : List ℕ
  pub origin_x : ℤ
  pub origin_y : ℤ
  pub width_px : ℕ
  pub height_px : ℕ
  pub is_primary : Bool

pub data MouseButton : Type 0 where
  left right middle : MouseButton

pub data PointerAction : Type 0 where
  press release : PointerAction

-- `unicode c` is a `char`, by its code point, and `function n` a u8.
pub data KeyCode : Type 0 where
  unicode : ℕ → KeyCode
  enter escape backspace tab space delete home end page_up page_down : KeyCode
  arrow_up arrow_down arrow_left arrow_right shift control alt meta caps_lock : KeyCode
  function : ℕ → KeyCode

pub data ControlMessage (F : Type 0) : Type 0 where
  hello : Hello → ControlMessage F
  auth_request : List ℕ → ControlMessage F
  auth_response : AuthOutcome → ControlMessage F
  monitor_list : List MonitorInfo → ControlMessage F
  select_monitor : ℕ → ControlMessage F
  mouse_move : F → F → ControlMessage F
  mouse_button : MouseButton → PointerAction → ControlMessage F
  mouse_wheel : F → F → ControlMessage F
  key_event : KeyCode → PointerAction → ControlMessage F
  text : List ℕ → ControlMessage F
  resize : ℕ → ℕ → ControlMessage F
  ping : ℕ → ControlMessage F
  pong : ℕ → ControlMessage F
  disconnect : List ℕ → ControlMessage F
  error : ℕ → List ℕ → ControlMessage F

pub data ScreenEncoding : Type 0 where
  full tile_delta : ScreenEncoding

pub record TileRect : Type 0 where
  pub x : ℕ
  pub y : ℕ
  pub w : ℕ
  pub h : ℕ

-- `MediaMessage` has the one variant `ScreenFrame`.
pub record MediaMessage : Type 0 where
  pub monitor_id : ℕ
  pub frame_id : ℕ
  pub codec : VideoCodec
  pub encoding : ScreenEncoding
  pub width_px : ℕ
  pub height_px : ℕ
  pub tiles : List TileRect
  pub payload : List ℕ
