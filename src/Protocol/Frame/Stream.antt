-- ===== src/Protocol/Frame/Stream.antt =====
-- Frames cut out of a byte stream, however the stream was cut into reads.
use native.Mathlib.Decide.{dec_lt}
use controlis.Prelude.{
  ℕ, suc, ◌+◌, ◌/◌, ◌%◌, ◌^◌, ◌≤◌, ◌<◌, ◌≡◌, refl, sym, ap, ◌∙◌, inl, inr, ◌⊎◌, none, some, List,
  [], ◌∷◌, ◌++◌, length, take, drop, ltb, lt→ltb, if◌then◌else◌, arith, ok, err, length-append,
  take-append_length, drop-append_length,
}
use controlis.Protocol.Frame.{
  max_message_len, message_too_large, to_le_bytes, from_le_bytes, FrameDecoder, extend, next_frame,
}

-- The bytes that `encode` sends for a body that is not too large.
abbrev pub frame : List ℕ → List ℕ
frame body = to_le_bytes (length body % 2 ^ 32) ++ body

header_value :
    (body : List ℕ)
    → length body ≤ max_message_len
    → let n = length body % 2 ^ 32 in
      from_le_bytes (n % 256) (n / 256 % 256) (n / 65536 % 256) (n / 16777216 % 256) ≡ length body
header_value body h = omega arith

drop_four : (a b c d n : ℕ) (tl : List ℕ) → drop (4 + n) (a ∷ b ∷ c ∷ d ∷ tl) ≡ drop n tl
drop_four a b c d n tl = let e : 4 + n ≡ suc (suc (suc (suc n))) = omega arith in rw e

-- `next_frame` behind a complete length prefix.
next_frame_headed :
    (a b c d : ℕ) (tl : List ℕ)
    → next_frame (record { buffer = a ∷ b ∷ c ∷ d ∷ tl }) ≡ (
        let n = from_le_bytes a b c d in
        if ltb max_message_len n
        then (record { buffer = a ∷ b ∷ c ∷ d ∷ tl }, err (message_too_large n))
        else if ltb (length tl) n
        then (record { buffer = a ∷ b ∷ c ∷ d ∷ tl }, ok none)
        else (record { buffer = drop n tl }, ok (some (take n tl))))
unfolding next_frame
next_frame_headed a b c d tl = ground (arith, drop_four a b c d (from_le_bytes a b c d) tl)

-- A buffer that holds a whole frame gives its body and keeps what follows.
pub next_frame_whole :
    (body more : List ℕ)
    → length body ≤ max_message_len
    → next_frame (record { buffer = frame body ++ more })
      ≡ (record { buffer = more }, ok (some body))
next_frame_whole body more h =
    next_frame_headed _ _ _ _ (body ++ more)
    ∙ ground (
      arith,
      header_value body h,
      length-append body more,
      take-append_length body more,
      drop-append_length body more,
    )

-- A buffer that is a proper part of a frame and what follows asks for more.
split_front :
    (xs ys us vs : List ℕ)
    → xs ++ ys ≡ us ++ vs
    → length us ≤ length xs
    → (ws : List ℕ) × (xs ≡ us ++ ws) × (vs ≡ ws ++ ys)
split_front xs ys [] vs e h = (xs, refl, sym e)
split_front [] ys (u ∷ us) vs e h = absurd (omega arith)
split_front (x ∷ xs) ys (u ∷ us) vs e h =
    let (ws, p, q) = split_front xs ys us vs (cc) (omega arith) in (ws, cc, q)

short_none :
    (xs : List ℕ)
    → length xs < 4
    → next_frame (record { buffer = xs }) ≡ (record { buffer = xs }, ok none)
unfolding next_frame
short_none xs h = ground (arith, lt→ltb (length xs) 4 h)

headed_none :
    (a b c d n : ℕ) (tl : List ℕ)
    → from_le_bytes a b c d ≡ n
    → n ≤ max_message_len
    → length tl < n
    → next_frame (record { buffer = a ∷ b ∷ c ∷ d ∷ tl })
      ≡ (record { buffer = a ∷ b ∷ c ∷ d ∷ tl }, ok none)
headed_none a b c d n tl e m h = next_frame_headed a b c d tl ∙ ground arith

-- For a buffer that is a part of a stream which starts with the frame of a body within the limit:
-- either it ends inside that frame, and `next_frame` asks for more and keeps it, or it holds that
-- frame, whose body is returned, and what follows it is kept.
pub next_frame_cases :
    (xs ys body rest : List ℕ)
    → length body ≤ max_message_len
    → xs ++ ys ≡ frame body ++ rest
    → ((length xs < 4 + length body)
        × (next_frame (record { buffer = xs }) ≡ (record { buffer = xs }, ok none)))
      ⊎ ((ws : List ℕ) × (next_frame (record { buffer = xs })
            ≡ (record { buffer = ws }, ok (some body)))
          × (rest ≡ ws ++ ys))
next_frame_cases [] ys body rest h e = inl (omega arith, short_none [] (omega arith))
next_frame_cases (a ∷ []) ys body rest h e = inl (omega arith, short_none _ (omega arith))
next_frame_cases (a ∷ b ∷ []) ys body rest h e = inl (omega arith, short_none _ (omega arith))
next_frame_cases (a ∷ b ∷ c ∷ []) ys body rest h e = inl (omega arith, short_none _ (omega arith))
next_frame_cases (a ∷ b ∷ c ∷ d ∷ tl) ys body rest h e = elim (dec_lt (length tl) (length body)) [
  | yes short ↦ inl (omega arith, headed_none a b c d (length body) tl value h short)
  | no whole ↦
      let (ws, p, q) = split_front tl ys body rest (cc) (omega arith) in
      (inr (ws, ap next_frame (same_buffer ws p) ∙ next_frame_whole body ws h, q))
]
  where
    n : ℕ
    n = length body % 2 ^ 32

    value : from_le_bytes a b c d ≡ length body
    value =
        let ha : a ≡ n % 256 = cc in
        let hb : b ≡ n / 256 % 256 = cc in
        let hc : c ≡ n / 65536 % 256 = cc in
        let hd : d ≡ n / 16777216 % 256 = cc in rw (ha, hb, hc, hd) (header_value body h)

    same_buffer :
        (ws : List ℕ)
        → tl ≡ body ++ ws
        → ◌≡◌ {A = FrameDecoder}
            (record { buffer = a ∷ b ∷ c ∷ d ∷ tl })
            (record { buffer = frame body ++ ws })
    same_buffer ws p = cc

-- A length prefix above the limit is an error for good: no later bytes get past it.
pub next_frame_oversized :
    (a b c d : ℕ) (tl more : List ℕ)
    → max_message_len < from_le_bytes a b c d
    → let dec : FrameDecoder = record { buffer = a ∷ b ∷ c ∷ d ∷ tl } in
      next_frame (extend dec more)
      ≡ (extend dec more, err (message_too_large (from_le_bytes a b c d)))
unfolding extend
next_frame_oversized a b c d tl more h = next_frame_headed a b c d (tl ++ more) ∙ ground arith
