-- ===== src/Protocol/Frame.antt =====
-- crates/protocol/src/frame.rs and the framing in crates/protocol/src/lib.rs. A byte is a number
-- below 256; `postcard` is a parameter.
pub mod Stream
use controlis.Prelude.{
  ℕ, ◌+◌, ◌*◌, ◌/◌, ◌%◌, ◌^◌, ◌<◌, Bool, true, false, Option, none, some, List, [], ◌∷◌, ◌++◌, ◌≡◌,
  length, take, drop, get_or, ltb, if◌then◌else◌, Result, ok, err, ok_or, ◌>>=◌,
}

abbrev pub max_message_len : ℕ
max_message_len = 64 * 1024 * 1024

-- The u16 of `PROTOCOL_VERSION`.
abbrev pub protocol_version : ℕ
protocol_version = 3

pub data ProtocolError : Type 0 where
  serialize deserialize : ProtocolError
  message_too_large : ℕ → ProtocolError
  incomplete : ProtocolError

-- `postcard` for one type of messages: `to_stdvec`, `from_bytes`, and that the second undoes the
-- first.
pub record Postcard (M : Type 0) : Type 0 where
  pub to_stdvec : M → Option (List ℕ)
  pub from_bytes : List ℕ → Option M
  pub from_bytes-to_stdvec : (m : M) (b : List ℕ) → to_stdvec m ≡ some b → from_bytes b ≡ some m

-- `u32::to_le_bytes` and `u32::from_le_bytes`.
abbrev pub to_le_bytes : ℕ → List ℕ
to_le_bytes n = n % 256 ∷ n / 256 % 256 ∷ n / 65536 % 256 ∷ n / 16777216 % 256 ∷ []

abbrev pub from_le_bytes : ℕ → ℕ → ℕ → ℕ → ℕ
from_le_bytes a b c d = a + b * 256 + c * 65536 + d * 16777216

abbrev frame_body : List ℕ → Result (List ℕ) ProtocolError
frame_body body =
    if ltb max_message_len (length body)
    then err (message_too_large (length body))
    else ok (to_le_bytes (length body % 2 ^ 32) ++ body)

unfoldable pub encode : {M : Type 0} → Postcard M → M → Result (List ℕ) ProtocolError
encode pc message = do body ← ok_or (pc.to_stdvec message) serialize; frame_body body

unfoldable pub decode : {M : Type 0} → Postcard M → List ℕ → Result M ProtocolError
decode pc body = ok_or (pc.from_bytes body) deserialize

pub record FrameDecoder : Type 0 where
  pub buffer : List ℕ

abbrev pub new : FrameDecoder
new = record { buffer = [] }

unfoldable pub extend : FrameDecoder → List ℕ → FrameDecoder
extend d bytes = record { buffer = d.buffer ++ bytes }

unfoldable pub next_frame : FrameDecoder → FrameDecoder × Result (Option (List ℕ)) ProtocolError
next_frame d =
    let b = d.buffer in
    let len = from_le_bytes (get_or b 0 0) (get_or b 1 0) (get_or b 2 0) (get_or b 3 0) in
    if ltb (length b) 4
    then (d, ok none)
    else if ltb max_message_len len
    then (d, err (message_too_large len))
    else if ltb (length b) (4 + len)
    then (d, ok none)
    else (record { buffer = drop (4 + len) b }, ok (some (take len (drop 4 b))))
