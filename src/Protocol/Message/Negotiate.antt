-- ===== src/Protocol/Message/Negotiate.antt =====
-- The choice of a session's codec.
use controlis.Prelude.{
  true, false, ◌&&◌, Option, none, some, List, [], ◌∷◌, ◌↔◌, ◌≡◌, ◌⊎◌, inl, inr, refl, arith,
  Bool-cases,
}
use controlis.Protocol.Message.{
  VideoCodec, jpeg_tiles, codec_eq, contains, find_supported, negotiate_codec, unwrap_or,
}

codec_eq_iff : (c d : VideoCodec) → (codec_eq c d ≡ true) ↔ (c ≡ d)
codec_eq_iff c d = ground arith

-- Neither list is skipped: what the search finds is in both, and it finds nothing only if they
-- have nothing in common.
pub find_supported-some :
    (host viewer : List VideoCodec) (c : VideoCodec)
    → find_supported host viewer ≡ some c
    → (contains host c ≡ true) × (contains viewer c ≡ true)
unfolding find_supported contains
find_supported-some [] viewer c e = absurd (cc)
find_supported-some (x ∷ xs) viewer c e =
    ground (arith, find_supported-some xs viewer c, codec_eq_iff x c, codec_eq_iff x x)

pub find_supported-none :
    (host viewer : List VideoCodec) (d : VideoCodec)
    → find_supported host viewer ≡ none
    → contains host d ≡ true
    → contains viewer d ≡ false
unfolding find_supported contains
find_supported-none [] viewer d e h = cc
find_supported-none (x ∷ xs) viewer d e h =
    ground (arith, find_supported-none xs viewer d, codec_eq_iff x d)

-- The preferred codec is used whenever both sides have it.
pub negotiate_codec_preferred :
    (p : VideoCodec) (host viewer : List VideoCodec)
    → contains host p ≡ true
    → contains viewer p ≡ true
    → negotiate_codec p host viewer ≡ p
unfolding negotiate_codec
negotiate_codec_preferred p host viewer h k = rw (h, k)

-- The codec of a session is one that both sides have, or it is JPEG tiles and the two sides have
-- no codec in common.
pub negotiate_codec_agrees :
    (p : VideoCodec) (host viewer : List VideoCodec)
    → let c = negotiate_codec p host viewer in
      ((contains host c ≡ true) × (contains viewer c ≡ true))
      ⊎ ((c ≡ jpeg_tiles) × ((d : VideoCodec) → contains host d ≡ true → contains viewer d ≡ false))
unfolding negotiate_codec
negotiate_codec_agrees p host viewer = elim (Bool-cases (contains host p && contains viewer p)) [
  | inl both ↦ rw both (inl (ground arith))
  | inr not_both ↦ rw not_both (from_search (find_supported host viewer) refl)
]
  where
    from_search :
        (o : Option VideoCodec)
        → find_supported host viewer ≡ o
        → let c = unwrap_or o jpeg_tiles in
          ((contains host c ≡ true) × (contains viewer c ≡ true))
          ⊎ ((c ≡ jpeg_tiles)
              × ((d : VideoCodec) → contains host d ≡ true → contains viewer d ≡ false))
    from_search none e = inr (refl, λ d. find_supported-none host viewer d e)
    from_search (some c) e = inl (find_supported-some host viewer c e)
